-- ===== src/Reconnect/Late.antt =====
-- A room that was forgotten, through later calls.
use cowchat4win.Base.{
  ℕ, ◌-◌, ◌≤◌, ◌<◌, String, ◌≡◌, subst, Bool, true, false, not, ◌&&◌, Option, none, some, List, [],
  ◌∷◌, ◌==◌, arith, if◌then◌else◌, leb, is_some, Bool-cases, Option-cases, inl, inr,
}
use cowchat4win.Base.Dict.{Dict, lookup, insert, remove}
use cowchat4win.Base.DictAll.{All, lookup-All, insert-All, remove-All}
use cowchat4win.Protocol.{Frame}
use cowchat4win.Tombstones.Buried.{Buried}
use cowchat4win.Reconnect.{
  StashedAgent, ReconnectManager, ReclaimLease, reconnect_window, destroyed_room_ttl,
  max_destroyed_rooms, begin_reclaim, holds_token, commit, drop_lease, frame_is_live, has_space,
  buffer_each, is_elsewhere,
}
use cowchat4win.Reconnect.Forgotten.{
  IsWithout, IsForgotten, frame_is_live-Buried, frame_is_live-is_elsewhere, push_missed-IsWithout,
}

-- The two components of an iteration over the stashes.
pub record EachForgotten (t n : ℕ) (k : String) (r : List String × Dict StashedAgent × Dict ℕ)
    : Type 0 where
  pub stashes_without : All (λ _. IsWithout k) r.1
  pub buried : Buried t n k r.2

module _ (t n : ℕ) (k : String) (now : ℕ) (room : n ≤ max_destroyed_rooms)
    (live : now - t < destroyed_room_ttl) (sees : StashedAgent → Bool) (f : Frame) where
  -- What the test before a push is, and what it does to the cache.
  abbrev tested : StashedAgent → Dict ℕ → Bool × Dict ℕ
  tested s c = if sees s then frame_is_live now f c else (false, c)

  tested-Buried : (s : StashedAgent) (c : Dict ℕ) → Buried t n k c → Buried t n k (tested s c).1
  tested-Buried s c b = elim (Bool-cases (sees s)) [
    | inl e ↦ rw e (frame_is_live-Buried t n k now room live f c b)
    | inr e ↦ rw e b
  ]

  tested-is_elsewhere :
      (s : StashedAgent) (c : Dict ℕ)
      → Buried t n k c
      → (tested s c).0 ≡ true
      → is_elsewhere k f ≡ true
  tested-is_elsewhere s c b h = elim (Bool-cases (sees s)) [
    | inl e ↦ frame_is_live-is_elsewhere t n k now room live f c b (ground (arith, e, h))
    | inr e ↦ absurd (ground (arith, e, h))
  ]

  pub buffer_each-Forgotten :
      (d : Dict StashedAgent) (c : Dict ℕ)
      → All (λ _. IsWithout k) d
      → Buried t n k c
      → EachForgotten t n k (buffer_each now sees f d c)
  unfolding buffer_each
  buffer_each-Forgotten [] c h b = record { stashes_without = tt; buried = b }
  buffer_each-Forgotten ((key, s) ∷ d) c (w, h) b =
      let rest = buffer_each-Forgotten d (tested s c).1 h (tested-Buried s c b) in
      elim (Bool-cases ((tested s c).0 && has_space s)) [
        | inl e ↦ rw e (record {
          stashes_without = (
            push_missed-IsWithout k f s w (tested-is_elsewhere s c b (ground (arith, e))),
            rest.stashes_without,
          );
          buried = rest.buried;
        })
        | inr e ↦
            rw e (record { stashes_without = (w, rest.stashes_without); buried = rest.buried })
      ]

module _ (t n : ℕ) (k : String) (m : ReconnectManager) (h : IsForgotten t n k m) where
  -- Another token changes nothing of what a stash has.
  with_token :
      (token : Option String) (s : StashedAgent)
      → IsWithout k s
      → IsWithout k (record s { reclaim_token = token })
  with_token token s w = record { no_room = w.no_room; no_message = w.no_message }

  there : (id : String) (s : StashedAgent) → lookup id m.stashed ≡ some s → IsWithout k s
  there id s e = lookup-All (λ _. IsWithout k) id s m.stashed h.stashes_without e

  set_token-IsForgotten :
      (id : String) (token : Option String) (s : StashedAgent)
      → lookup id m.stashed ≡ some s
      → IsForgotten t n k
          (record m { stashed = insert id (record s { reclaim_token = token }) m.stashed })
  set_token-IsForgotten id token s e = record {
    buried = h.buried;
    stashes_without =
        insert-All (λ _. IsWithout k) id (record s { reclaim_token = token }) m.stashed
          (with_token token s (there id s e)) h.stashes_without;
  }

  remove-IsForgotten :
      (id : String) → IsForgotten t n k (record m { stashed = remove id m.stashed })
  remove-IsForgotten id = record {
    buried = h.buried;
    stashes_without = remove-All (λ _. IsWithout k) id m.stashed h.stashes_without;
  }

  pub begin_reclaim-IsForgotten :
      (now : ℕ) (token id key : String) (no_auth : Bool)
      → IsForgotten t n k (begin_reclaim now token id key no_auth m).1
  unfolding begin_reclaim
  begin_reclaim-IsForgotten now token id key no_auth = elim (Option-cases (lookup id m.stashed)) [
    | inl e ↦ rw (e, begin_reclaim) h
    | inr (s, e) ↦ elim (Bool-cases (leb reconnect_window (now - s.disconnected_at))) [
      | inl late ↦ rw (e, late, begin_reclaim) (remove-IsForgotten id)
      | inr timely ↦ elim (Bool-cases (not no_auth && not (s.api_key == key))) [
        | inl wrong ↦ rw (e, timely, wrong, begin_reclaim) h
        | inr right ↦ elim (Bool-cases (is_some s.reclaim_token)) [
          | inl taken ↦ rw (e, timely, right, taken, begin_reclaim) h
          | inr free ↦
              rw (e, timely, right, free, begin_reclaim) (set_token-IsForgotten id (some token) s e)
        ]
      ]
    ]
  ]

  pub commit-IsForgotten : (lease : ReclaimLease) → IsForgotten t n k (commit lease m).1
  unfolding commit
  commit-IsForgotten lease = elim (Option-cases (lookup lease.agent_id m.stashed)) [
    | inl e ↦ rw (e, commit) h
    | inr (s, e) ↦ elim (Bool-cases (holds_token lease.token s)) [
      | inl held ↦ rw (e, held, commit) (remove-IsForgotten lease.agent_id)
      | inr other ↦ rw (e, other, commit) h
    ]
  ]

  pub drop_lease-IsForgotten : (lease : ReclaimLease) → IsForgotten t n k (drop_lease lease m)
  unfolding drop_lease
  drop_lease-IsForgotten lease = elim (Option-cases (lookup lease.agent_id m.stashed)) [
    | inl e ↦ rw (e, drop_lease) h
    | inr (s, e) ↦ elim (Bool-cases (holds_token lease.token s)) [
      | inl held ↦ rw (e, held, drop_lease) (set_token-IsForgotten lease.agent_id none s e)
      | inr other ↦ rw (e, other, drop_lease) h
    ]
  ]

  -- What a commit hands out has the room neither to restore nor to replay.
  pub commit-IsWithout :
      (lease : ReclaimLease) (s : StashedAgent) → (commit lease m).0 ≡ some s → IsWithout k s
  unfolding commit
  commit-IsWithout lease s e = elim (Option-cases (lookup lease.agent_id m.stashed)) [
    | inl n ↦ absurd (ground (arith, n, e))
    | inr (s', e') ↦ elim (Bool-cases (holds_token lease.token s')) [
      | inl held ↦
          let same : some (record s' { reclaim_token = none }) ≡ some s =
            ground (arith, e', held, e) in
          let eq : record s' { reclaim_token = none } ≡ s = cc in
          subst (IsWithout k) eq (with_token none s' (there lease.agent_id s' e'))
      | inr other ↦ absurd (ground (arith, e', other, e))
    ]
  ]
