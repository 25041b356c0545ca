-- ===== src/Broker/Destroyed.antt =====
-- A destroyed room stays closed: its tombstone refuses every join for as long as it lives.
use native.Mathlib.Nat.{add-zero, add_assoc}
use native.Mathlib.Numerals.{add-one}
use cowchat4win.Base.{
  ℕ, suc, ◌+◌, ◌-◌, ◌≤◌, ◌<◌, String, ◌≡◌, refl, Bool, true, false, none, List, [], ◌∷◌, arith,
  eq_iff, eq_refl, without, some, unwrap_or, Option-cases, inl, inr,
}
use cowchat4win.Base.Dict.{lookup, IsDict, lookup-insert, lookup-remove}
use cowchat4win.Tombstones.Laws.{count_since, count_since-prune, prune-IsDict}
use cowchat4win.Tombstones.Buried.{Buried, prune-Buried, bury-Buried, bury-Buried_self}
use cowchat4win.Base.{err}
use cowchat4win.Broker.{
  Broker, destroyed, room_tombstone_ttl, max_room_tombstones, prune_tombstones, tombstone,
  join_room, leave_room, advance_turn_from, destroy_room_with, is_room_destroyed, get_room_members,
  admit,
}
use cowchat4win.Broker.History.{Call, joins, leaves, speaks, destroys, asks, step, run}

-- The tombstone of `room_id` stands, and nobody is a member.
pub record IsClosed {Sender : Type 0} (t n : ℕ) (room_id : String) (b : Broker Sender)
    : Type 0 where
  pub buried : Buried t n room_id b.tombstones
  pub gone : lookup room_id b.room_members ≡ none

-- A call that reads the clock at `t` or later, within the time to live.
abbrev InTime : ℕ → ℕ × Call → Type 0
InTime t (now, destroys r granted later) =
    (now - t < room_tombstone_ttl) × (t ≤ later) × (later - t < room_tombstone_ttl)
InTime t (now, c) = now - t < room_tombstone_ttl

abbrev pub AllInTime : ℕ → List (ℕ × Call) → Type 0
AllInTime t [] = Unit
AllInTime t (c ∷ cs) = InTime t c × AllInTime t cs

-- How many deletions the store grants.
abbrev pub deletion : ℕ × Call → ℕ
deletion (now, destroys r true later) = 1
deletion (now, c) = 0

abbrev pub deletions : List (ℕ × Call) → ℕ
deletions [] = 0
deletions (c ∷ cs) = deletion c + deletions cs

module _ {Sender : Type 0} (t n : ℕ) (k : String) (b : Broker Sender) (v : IsClosed t n k b)
    (now : ℕ) (live : now - t < room_tombstone_ttl) where
  prune-IsClosed : n ≤ max_room_tombstones → IsClosed t n k (prune_tombstones now b)
  unfolding prune_tombstones
  prune-IsClosed room = record {
    buried =
        prune-Buried room_tombstone_ttl max_room_tombstones t n now k b.tombstones v.buried room
          live;
    gone = v.gone;
  }

  tombstone-IsClosed :
      (r : String) → n < max_room_tombstones → t ≤ now → IsClosed t (suc n) k (tombstone now r b)
  unfolding tombstone
  tombstone-IsClosed r room h = record {
    buried =
        bury-Buried room_tombstone_ttl max_room_tombstones t n now k r b.tombstones v.buried room h
          live;
    gone = v.gone;
  }

  -- A closed room cannot be joined.
  pub join_room-closed :
      (a : String) (e : Bool) → n ≤ max_room_tombstones → (join_room now a k e b).0 ≡ err destroyed
  unfolding join_room
  join_room-closed a e room =
      rw
        (prune-Buried room_tombstone_ttl max_room_tombstones t n now k b.tombstones v.buried room
          live).found
        refl

-- What each call does to the tombstones, and to a room without members.
module _ {Sender : Type 0} (now : ℕ) (a r k : String) (b : Broker Sender)
    (gone : lookup k b.room_members ≡ none) where
  tombstones-join_room :
      (e : Bool) → (join_room now a r e b).1.tombstones ≡ (prune_tombstones now b).tombstones
  unfolding join_room
  tombstones-join_room e = ground arith

  tombstones-leave_room : (leave_room now a r b).1.tombstones ≡ (prune_tombstones now b).tombstones
  unfolding leave_room
  tombstones-leave_room = ground arith

  tombstones-advance_turn_from : (advance_turn_from r a b).1.tombstones ≡ b.tombstones
  unfolding advance_turn_from
  tombstones-advance_turn_from = ground arith

  gone-join_room :
      (e : Bool) (stamp : ℕ)
      → lookup k (prune_tombstones now b).tombstones ≡ some stamp
      → lookup k (join_room now a r e b).1.room_members ≡ none
  unfolding join_room
  gone-join_room e stamp found = ground (
    arith,
    eq_iff r k,
    lookup-insert r k (admit a (unwrap_or (lookup r b.room_members) [])) b.room_members,
  )

  gone-leave_room : lookup k (leave_room now a r b).1.room_members ≡ none
  unfolding leave_room
  gone-leave_room = elim (Option-cases (lookup r b.room_members)) [
    | inl e ↦ ground (arith, e)
    | inr (ms, e) ↦ ground (arith, e, eq_iff r k, lookup-insert r k (without a ms) b.room_members)
  ]

  gone-advance_turn_from : lookup k (advance_turn_from r a b).1.room_members ≡ none
  unfolding advance_turn_from
  gone-advance_turn_from = ground arith

module _ {Sender : Type 0} (t n : ℕ) (k : String) where
  -- Every call in time keeps the room closed; a granted deletion adds one burial.
  step-IsClosed :
      (b : Broker Sender) (c : ℕ × Call)
      → IsClosed t n k b
      → InTime t c
      → n + deletion c ≤ max_room_tombstones
      → IsClosed t (n + deletion c) k (step b c)
  unfolding step is_room_destroyed destroy_room_with
  step-IsClosed b (now, joins a r e) v h room =
      let c = prune-IsClosed t n k b v now h (omega arith) in
      rw (add-zero) (record {
        buried = rw (tombstones-join_room now a r k b v.gone e) c.buried;
        gone = gone-join_room now a r k b v.gone e c.buried.stamp c.buried.found;
      })
  step-IsClosed b (now, leaves a r) v h room =
      let c = prune-IsClosed t n k b v now h (omega arith) in
      rw (add-zero) (record {
        buried = rw (tombstones-leave_room now a r k b v.gone) c.buried;
        gone = gone-leave_room now a r k b v.gone;
      })
  step-IsClosed b (now, speaks a r) v h room = rw (add-zero) (record {
    buried = rw (tombstones-advance_turn_from now a r k b v.gone) v.buried;
    gone = gone-advance_turn_from now a r k b v.gone;
  })
  step-IsClosed b (now, destroys r true later) v h room =
      let c = prune-IsClosed t n k b v now h.0 (omega arith) in
      let d = tombstone-IsClosed t n k (prune_tombstones now b) c later h.2 r (omega arith) h.1 in
      rw add-one (record {
        buried = d.buried;
        gone = rw (lookup-remove r k b.room_members, v.gone) (ground arith);
      })
  step-IsClosed b (now, destroys r false later) v h room =
      rw add-zero (prune-IsClosed t n k b v now h.0 (omega arith))
  step-IsClosed b (now, asks r) v h room =
      rw add-zero (prune-IsClosed t n k b v now h (omega arith))

module _ {Sender : Type 0} (t : ℕ) (k : String) where
  run-IsClosed :
      (n : ℕ) (b : Broker Sender) (cs : List (ℕ × Call))
      → IsClosed t n k b
      → AllInTime t cs
      → n + deletions cs ≤ max_room_tombstones
      → IsClosed t (n + deletions cs) k (run b cs)
  unfolding run
  run-IsClosed n b [] v h room = rw add-zero v
  run-IsClosed n b (c ∷ cs) v h room = rw (← add_assoc n (deletion c) (deletions cs)) (
      run-IsClosed (n + deletion c) (step b c) cs (step-IsClosed t n k b c v h.0 (omega arith)) h.1
        (omega arith))

module _ {Sender : Type 0} (now later : ℕ) (room_id : String) (b : Broker Sender) where
  -- A granted deletion closes the room, where no tombstone is as young.
  destroy-IsClosed :
      IsDict b.tombstones
      → count_since later b.tombstones ≡ 0
      → IsClosed later 1 room_id (step b (now, destroys room_id true later))
  unfolding step destroy_room_with tombstone
  destroy-IsClosed d none_later = record {
    buried =
        bury-Buried_self room_tombstone_ttl max_room_tombstones later room_id _
          (prune-IsDict room_tombstone_ttl max_room_tombstones now b.tombstones d)
          (omega (
            arith,
            count_since-prune later room_tombstone_ttl max_room_tombstones now b.tombstones,
            none_later,
          ))
          (omega arith) (omega arith);
    gone = rw (lookup-remove room_id room_id b.room_members, eq_refl room_id) refl;
  }

  -- After the store has granted the deletion of a room, and whatever calls follow within the
  -- tombstone's time to live, fewer than 4096 of them granted deletions: nobody is a member of
  -- the room, and a join of it is refused, even if the store says that it exists. The clock of
  -- each call but a deletion's second reading may run back; no older tombstone is as young.
  pub destroyed_stays_destroyed :
      (cs : List (ℕ × Call)) (at : ℕ) (agent_id : String) (exists : Bool)
      → IsDict b.tombstones
      → count_since later b.tombstones ≡ 0
      → AllInTime later cs
      → deletions cs < max_room_tombstones
      → at - later < room_tombstone_ttl
      → let after = run (step b (now, destroys room_id true later)) cs in
        ((join_room at agent_id room_id exists after).0 ≡ err destroyed)
        × (get_room_members after room_id ≡ [])
  unfolding get_room_members
  destroyed_stays_destroyed cs at agent_id exists d none_later timely few live =
      let closed =
        run-IsClosed later room_id 1 (step b (now, destroys room_id true later)) cs
          (destroy-IsClosed d none_later) timely (omega arith) in
      (
        join_room-closed later (1 + deletions cs) room_id _ closed at live agent_id exists
            (omega arith),
        rw closed.gone refl,
      )
