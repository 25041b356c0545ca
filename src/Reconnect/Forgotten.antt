-- ===== src/Reconnect/Forgotten.antt =====
-- A room that was forgotten, in the stashes of the agents.
use cowchat4win.Base.{
  ℕ, ◌-◌, ◌≤◌, ◌<◌, String, ◌≡◌, refl, sym, ap, subst, Bool, true, false, not, Option, none, some,
  List, [], ◌∷◌, ◌++◌, ◌==◌, arith, eq_iff, eq_refl, contains, contains-without, is_some, retain,
  Bool-cases, Option-cases, inl, inr,
}
use cowchat4win.Base.Dict.{Dict, lookup}
use cowchat4win.Base.DictAll.{All, lookup-All, insert-All, retain_values-All}
use cowchat4win.Protocol.{Frame, frame_room_id}
use cowchat4win.Tombstones.Buried.{Buried, prune-Buried}
use cowchat4win.Reconnect.{
  StashedAgent, ReconnectManager, destroyed_room_ttl, max_destroyed_rooms, prune_destroyed,
  contains_destroyed, retain_live, cleanup, frame_is_live, has_space, push_missed, buffer_message,
  is_elsewhere, forget_stashed, forget_each,
}

-- No message of the list is about the room.
abbrev pub AllElsewhere : String → List Frame → Type 0
AllElsewhere k [] = Unit
AllElsewhere k (f ∷ fs) = (is_elsewhere k f ≡ true) × AllElsewhere k fs

-- The stash neither restores nor replays the room.
pub record IsWithout (k : String) (s : StashedAgent) : Type 0 where
  pub no_room : contains k s.rooms ≡ false
  pub no_message : AllElsewhere k s.missed_messages

-- The room is buried, and no stash has it.
pub record IsForgotten (t n : ℕ) (k : String) (m : ReconnectManager) : Type 0 where
  pub buried : Buried t n k m.destroyed_rooms
  pub stashes_without : All (λ _. IsWithout k) m.stashed

module _ (k : String) where
  retain-AllElsewhere : (fs : List Frame) → AllElsewhere k (retain (is_elsewhere k) fs)
  retain-AllElsewhere [] = tt
  retain-AllElsewhere (f ∷ fs) = elim (Bool-cases (is_elsewhere k f)) [
    | inl e ↦ rw e (e, retain-AllElsewhere fs)
    | inr e ↦ rw e (retain-AllElsewhere fs)
  ]

  append-AllElsewhere :
      (fs : List Frame) (f : Frame)
      → AllElsewhere k fs
      → is_elsewhere k f ≡ true
      → AllElsewhere k (fs ++ f ∷ [])
  append-AllElsewhere [] f h e = (e, tt)
  append-AllElsewhere (g ∷ fs) f (i, h) e = (i, append-AllElsewhere fs f h e)

  forget_stashed-IsWithout : (s : StashedAgent) → IsWithout k (forget_stashed k s)
  unfolding forget_stashed
  forget_stashed-IsWithout s = record {
    no_room = ground (arith, contains-without k k s.rooms, eq_refl k);
    no_message = retain-AllElsewhere s.missed_messages;
  }

  pub forget_each-All : (d : Dict StashedAgent) → All (λ _. IsWithout k) (forget_each k d)
  unfolding forget_each
  forget_each-All [] = tt
  forget_each-All ((j, s) ∷ d) = (forget_stashed-IsWithout s, forget_each-All d)

  -- Forgetting another room brings nothing in.
  retain-keeps :
      (r : String) (fs : List Frame)
      → AllElsewhere k fs
      → AllElsewhere k (retain (is_elsewhere r) fs)
  retain-keeps r [] h = tt
  retain-keeps r (f ∷ fs) (e, h) = elim (Bool-cases (is_elsewhere r f)) [
    | inl t ↦ rw t (e, retain-keeps r fs h)
    | inr t ↦ rw t (retain-keeps r fs h)
  ]

  forget_stashed-keeps :
      (r : String) (s : StashedAgent) → IsWithout k s → IsWithout k (forget_stashed r s)
  unfolding forget_stashed
  forget_stashed-keeps r s w = record {
    no_room = ground (arith, contains-without r k s.rooms, w.no_room);
    no_message = retain-keeps r s.missed_messages w.no_message;
  }

  pub forget_each-keeps :
      (r : String) (d : Dict StashedAgent)
      → All (λ _. IsWithout k) d
      → All (λ _. IsWithout k) (forget_each r d)
  unfolding forget_each
  forget_each-keeps r [] h = tt
  forget_each-keeps r ((j, s) ∷ d) (w, h) = (forget_stashed-keeps r s w, forget_each-keeps r d h)

  pub push_missed-IsWithout :
      (f : Frame) (s : StashedAgent)
      → IsWithout k s
      → is_elsewhere k f ≡ true
      → IsWithout k (push_missed f s)
  push_missed-IsWithout f s h e = record {
    no_room = h.no_room;
    no_message = append-AllElsewhere s.missed_messages f h.no_message e;
  }

-- While the tombstone is young, at a time `now`.
module _ (t n : ℕ) (k : String) (now : ℕ) (room : n ≤ max_destroyed_rooms)
    (live : now - t < destroyed_room_ttl) where
  pub prune_destroyed-Buried : (c : Dict ℕ) → Buried t n k c → Buried t n k (prune_destroyed now c)
  unfolding prune_destroyed
  prune_destroyed-Buried c b =
      prune-Buried destroyed_room_ttl max_destroyed_rooms t n now k c b room live

  pub contains_destroyed-Buried :
      (j : String) (c : Dict ℕ) → Buried t n k c → Buried t n k (contains_destroyed now j c).1
  unfolding contains_destroyed
  contains_destroyed-Buried j c b = prune_destroyed-Buried c b

  contains_destroyed_self : (c : Dict ℕ) → Buried t n k c → (contains_destroyed now k c).0 ≡ true
  unfolding contains_destroyed
  contains_destroyed_self c b = ap is_some (prune_destroyed-Buried c b).found

  pub retain_live-Buried :
      (rooms : List String) (c : Dict ℕ) → Buried t n k c → Buried t n k (retain_live now rooms c).1
  unfolding retain_live
  retain_live-Buried [] c b = b
  retain_live-Buried (r ∷ rooms) c b =
      retain_live-Buried rooms (contains_destroyed now r c).1 (contains_destroyed-Buried r c b)

  -- A list of rooms that is filtered does not have the room.
  pub retain_live-gone :
      (rooms : List String) (c : Dict ℕ)
      → Buried t n k c
      → contains k (retain_live now rooms c).0 ≡ false
  unfolding retain_live
  retain_live-gone [] c b = refl
  retain_live-gone (r ∷ rooms) c b =
      let rest : contains k (retain_live now rooms (contains_destroyed now r c).1).0 ≡ false =
        retain_live-gone rooms (contains_destroyed now r c).1 (contains_destroyed-Buried r c b) in
      elim (Bool-cases (contains_destroyed now r c).0) [
        | inl e ↦ rw (e) rest
        | inr e ↦ elim (Bool-cases (r == k)) [
          | inl same ↦
              let eq : r ≡ k = (eq_iff r k).0 same in
              let found : (contains_destroyed now r c).0 ≡ true =
                subst (λ j. (contains_destroyed now j c).0 ≡ true) (sym eq)
                  (contains_destroyed_self c b) in
              absurd (ground (arith, e, found))
          | inr other ↦ rw (e) (ground (arith, other, rest))
        ]
      ]

  pub frame_is_live-Buried :
      (f : Frame) (c : Dict ℕ) → Buried t n k c → Buried t n k (frame_is_live now f c).1
  unfolding frame_is_live
  frame_is_live-Buried f c b = elim (Option-cases (frame_room_id f)) [
    | inl e ↦ subst (λ o. Buried t n k (live_for o).1) (sym e) b
    | inr (r, e) ↦
        subst (λ o. Buried t n k (live_for o).1) (sym e) (contains_destroyed-Buried r c b)
  ]
    where
      live_for : Option String → Bool × Dict ℕ
      live_for none = (true, c)
      live_for (some r) = let (gone, c') = contains_destroyed now r c in (not gone, c')

  -- A frame that passes is about another room.
  pub frame_is_live-is_elsewhere :
      (f : Frame) (c : Dict ℕ)
      → Buried t n k c
      → (frame_is_live now f c).0 ≡ true
      → is_elsewhere k f ≡ true
  unfolding frame_is_live is_elsewhere
  frame_is_live-is_elsewhere f c b h = elim (Option-cases (frame_room_id f)) [
    | inl e ↦ rw (e, is_elsewhere) refl
    | inr (r, e) ↦
        let open_room : (contains_destroyed now r c).0 ≡ false = ground (arith, e, h) in
        elim (Bool-cases (r == k)) [
          | inl same ↦
              let eq : r ≡ k = (eq_iff r k).0 same in
              let found : (contains_destroyed now r c).0 ≡ true =
                subst (λ j. (contains_destroyed now j c).0 ≡ true) (sym eq)
                  (contains_destroyed_self c b) in
              absurd (ground (arith, open_room, found))
          | inr other ↦ rw (e, is_elsewhere, other) refl
        ]
  ]

  pub cleanup-IsForgotten :
      (m : ReconnectManager) → IsForgotten t n k m → IsForgotten t n k (cleanup now m)
  unfolding cleanup
  cleanup-IsForgotten m h = record {
    buried = prune_destroyed-Buried m.destroyed_rooms h.buried;
    stashes_without = retain_values-All (λ _. IsWithout k) _ m.stashed h.stashes_without;
  }

  pub buffer_message-IsForgotten :
      (id : String) (f : Frame) (m : ReconnectManager)
      → IsForgotten t n k m
      → IsForgotten t n k (buffer_message now id f m)
  unfolding buffer_message
  buffer_message-IsForgotten id f m h =
      let c : Dict ℕ = m.destroyed_rooms in
      let b : Buried t n k (frame_is_live now f c).1 = frame_is_live-Buried f c h.buried in
      elim (Bool-cases (frame_is_live now f c).0) [
        | inr dead ↦
            rw (dead, buffer_message) (record { buried = b; stashes_without = h.stashes_without })
        | inl alive ↦ elim (Option-cases (lookup id m.stashed)) [
          | inl e ↦
              rw (alive, e, buffer_message)
                (record { buried = b; stashes_without = h.stashes_without })
          | inr (s, e) ↦ elim (Bool-cases (has_space s)) [
            | inr full ↦
                rw (alive, e, full, buffer_message)
                  (record { buried = b; stashes_without = h.stashes_without })
            | inl space ↦
                rw (alive, e, space, buffer_message)
                  (record {
                    buried = b;
                    stashes_without =
                        insert-All (λ _. IsWithout k) id (push_missed f s) m.stashed
                          (push_missed-IsWithout k f s
                            (lookup-All (λ _. IsWithout k) id s m.stashed h.stashes_without e)
                            (frame_is_live-is_elsewhere f c h.buried alive))
                          h.stashes_without;
                  })
          ]
        ]
      ]
