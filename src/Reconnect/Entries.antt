-- ===== src/Reconnect/Entries.antt =====
-- A predicate of each stash, through the calls.
use cowchat4win.Base.{
  ℕ, ◌-◌, String, ◌≡◌, Bool, true, false, not, ◌&&◌, Option, none, some, List, [], ◌∷◌, ◌==◌, arith,
  if◌then◌else◌, leb, is_some, Bool-cases, Option-cases, inl, inr,
}
use cowchat4win.Base.Dict.{Dict, lookup}
use cowchat4win.Base.DictAll.{All, lookup-All, insert-All, remove-All, retain_values-All}
use cowchat4win.Protocol.{Frame}
use cowchat4win.Reconnect.{
  StashedAgent, ReconnectManager, ReclaimLease, reconnect_window, cleanup, begin_reclaim,
  holds_token, commit, drop_lease, frame_is_live, has_space, push_missed, buffer_message,
  buffer_each, buffer_visible_room_event, sees_room, forget_stashed, forget_each, forget_room,
}

abbrev pub with_token : Option String → StashedAgent → StashedAgent
with_token token s = record s { reclaim_token = token }

-- What a frame that is buffered and a room that is forgotten leave true of a stash.
pub record IsKept (P : String → StashedAgent → Type 0) : Type 0 where
  pub push :
      (k : String) (s : StashedAgent) (f : Frame)
      → P k s
      → has_space s ≡ true
      → P k (push_missed f s)
  pub forget : (k : String) (s : StashedAgent) (r : String) → P k s → P k (forget_stashed r s)

abbrev pub AllStashed : (String → StashedAgent → Type 0) → ReconnectManager → Type 0
AllStashed P m = All P m.stashed

module _ (P : String → StashedAgent → Type 0) (kept : IsKept P) (now : ℕ) where
  pub buffer_message-All :
      (id : String) (f : Frame) (m : ReconnectManager)
      → AllStashed P m
      → AllStashed P (buffer_message now id f m)
  unfolding buffer_message
  buffer_message-All id f m h = elim (Bool-cases (frame_is_live now f m.destroyed_rooms).0) [
    | inr dead ↦ rw (dead, buffer_message) h
    | inl alive ↦ elim (Option-cases (lookup id m.stashed)) [
      | inl e ↦ rw (alive, e, buffer_message) h
      | inr (s, e) ↦ elim (Bool-cases (has_space s)) [
        | inr full ↦ rw (alive, e, full, buffer_message) h
        | inl space ↦
            rw (alive, e, space, buffer_message)
              (insert-All P id (push_missed f s) m.stashed
                (kept.push id s f (lookup-All P id s m.stashed h e) space) h)
      ]
    ]
  ]

  buffer_each-All :
      (sees : StashedAgent → Bool) (f : Frame) (d : Dict StashedAgent) (c : Dict ℕ)
      → All P d
      → All P (buffer_each now sees f d c).1
  unfolding buffer_each
  buffer_each-All sees f [] c h = tt
  buffer_each-All sees f ((key, s) ∷ d) c (p, h) =
      let test : Bool × Dict ℕ = (if sees s then frame_is_live now f c else (false, c)) in
      let rest = buffer_each-All sees f d test.1 h in
      elim (Bool-cases (test.0 && has_space s)) [
        | inl e ↦ rw e (kept.push key s f p (ground (arith, e)), rest)
        | inr e ↦ rw e (p, rest)
      ]

  pub room_event-All :
      (visibility : String) (owner : Option String) (granted : List String) (no_auth : Bool)
      (f : Frame) (m : ReconnectManager)
      → AllStashed P m
      → AllStashed P (buffer_visible_room_event now visibility owner granted no_auth f m).1
  unfolding buffer_visible_room_event
  room_event-All visibility owner granted no_auth f m h =
      buffer_each-All (sees_room visibility owner granted no_auth) f m.stashed m.destroyed_rooms h

  forget_each-All : (r : String) (d : Dict StashedAgent) → All P d → All P (forget_each r d)
  unfolding forget_each
  forget_each-All r [] h = tt
  forget_each-All r ((k, s) ∷ d) (p, h) = (kept.forget k s r p, forget_each-All r d h)

  pub forget_room-All :
      (r : String) (m : ReconnectManager) → AllStashed P m → AllStashed P (forget_room now r m)
  unfolding forget_room
  forget_room-All r m h = forget_each-All r m.stashed h

module _ (P : String → StashedAgent → Type 0) where
  pub cleanup-All : (now : ℕ) (m : ReconnectManager) → AllStashed P m → AllStashed P (cleanup now m)
  unfolding cleanup
  cleanup-All now m h = retain_values-All P _ m.stashed h

  pub commit-All :
      (lease : ReclaimLease) (m : ReconnectManager)
      → AllStashed P m
      → AllStashed P (commit lease m).1
  unfolding commit
  commit-All lease m h = elim (Option-cases (lookup lease.agent_id m.stashed)) [
    | inl e ↦ rw (e, commit) h
    | inr (s, e) ↦ elim (Bool-cases (holds_token lease.token s)) [
      | inl held ↦ rw (e, held, commit) (remove-All P lease.agent_id m.stashed h)
      | inr other ↦ rw (e, other, commit) h
    ]
  ]

  -- A token is set only where none was.
  pub begin_reclaim-All :
      (now : ℕ) (token id key : String) (no_auth : Bool) (m : ReconnectManager)
      → ((s : StashedAgent)
          → P id s
          → is_some s.reclaim_token ≡ false
          → P id (with_token (some token) s))
      → AllStashed P m
      → AllStashed P (begin_reclaim now token id key no_auth m).1
  unfolding begin_reclaim
  begin_reclaim-All now token id key no_auth m set h = elim (Option-cases (lookup id m.stashed)) [
    | inl e ↦ rw (e, begin_reclaim) h
    | inr (s, e) ↦ elim (Bool-cases (leb reconnect_window (now - s.disconnected_at))) [
      | inl late ↦ rw (e, late, begin_reclaim) (remove-All P id m.stashed h)
      | inr timely ↦ elim (Bool-cases (not no_auth && not (s.api_key == key))) [
        | inl wrong ↦ rw (e, timely, wrong, begin_reclaim) h
        | inr right ↦ elim (Bool-cases (is_some s.reclaim_token)) [
          | inl taken ↦ rw (e, timely, right, taken, begin_reclaim) h
          | inr free ↦
              rw (e, timely, right, free, begin_reclaim)
                (insert-All P id (with_token (some token) s) m.stashed
                  (set s (lookup-All P id s m.stashed h e) free) h)
        ]
      ]
    ]
  ]

  -- A token is taken away only by its own lease.
  pub drop_lease-All :
      (lease : ReclaimLease) (m : ReconnectManager)
      → ((s : StashedAgent)
          → P lease.agent_id s
          → holds_token lease.token s ≡ true
          → P lease.agent_id (with_token none s))
      → AllStashed P m
      → AllStashed P (drop_lease lease m)
  unfolding drop_lease
  drop_lease-All lease m clear h = elim (Option-cases (lookup lease.agent_id m.stashed)) [
    | inl e ↦ rw (e, drop_lease) h
    | inr (s, e) ↦ elim (Bool-cases (holds_token lease.token s)) [
      | inl held ↦
          rw (e, held, drop_lease)
            (insert-All P lease.agent_id (with_token none s) m.stashed
              (clear s (lookup-All P lease.agent_id s m.stashed h e) held) h)
      | inr other ↦ rw (e, other, drop_lease) h
    ]
  ]
