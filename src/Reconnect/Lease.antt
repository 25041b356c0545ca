-- ===== src/Reconnect/Lease.antt =====
-- A lease on a stash excludes every other.
use cowchat4win.Base.{
  ℕ, ◌-◌, String, ◌≡◌, ◌≢◌, refl, sym, ap, ◌∙◌, Bool, true, false, not, ◌&&◌, none, some, List, [],
  ◌∷◌, ◌==◌, arith, eq_iff, eq_refl, leb, is_some, Bool-cases, Option-cases, inl, inr,
}
use cowchat4win.Base.Dict.{Dict, IsDict, lookup, insert}
use cowchat4win.Base.DictAll.{All, lookup-All, insert-All}
use cowchat4win.Base.{ok}
use cowchat4win.Reconnect.{
  StashedAgent, ReconnectManager, ReclaimLease, reconnect_window, begin_reclaim, holds_token, stash,
  forget_stashed,
}
use cowchat4win.Reconnect.Calls.{
  Call, stashes, claims, commits, drops, buffers, room_event, forgets, cleans, step, run,
}
use cowchat4win.Reconnect.Entries.{
  IsKept, AllStashed, with_token, buffer_message-All, room_event-All, forget_room-All, cleanup-All,
  commit-All, begin_reclaim-All, drop_lease-All,
}

-- A stash of the agent carries the token.
abbrev pub Locked : String → String → String → StashedAgent → Type 0
Locked id token k s = (k == id) ≡ true → s.reclaim_token ≡ some token

forget-Locked :
    (id token k : String) (s : StashedAgent) (r : String)
    → Locked id token k s
    → Locked id token k (forget_stashed r s)
unfolding forget_stashed
forget-Locked id token k s r p = p

Locked-IsKept : (id token : String) → IsKept (Locked id token)
Locked-IsKept id token = record {
  push = λ k s f p space. p;
  forget = λ k s r p. forget-Locked id token k s r p;
}

-- The call neither stashes the agent anew nor drops the lease.
abbrev pub Respect : ReclaimLease → Call → Type 0
Respect lease (stashes later id name key rooms) = (id == lease.agent_id) ≡ false
Respect lease (drops other) =
    (other.agent_id == lease.agent_id && other.token == lease.token) ≡ false
Respect lease c = Unit

abbrev pub Respects : ReclaimLease → List (ℕ × Call) → Type 0
Respects lease [] = Unit
Respects lease ((now, c) ∷ cs) = Respect lease c × Respects lease cs

absent-Locked :
    (id token : String) (d : Dict StashedAgent) → lookup id d ≡ none → All (Locked id token) d
unfolding lookup
absent-Locked id token [] h = tt
absent-Locked id token ((k, s) ∷ d) h = elim (Bool-cases (k == id)) [
  | inl e ↦ absurd (ground (arith, e, h))
  | inr e ↦ (λ t. absurd (ground (arith, t, e)), absent-Locked id token d (ground (arith, e, h)))
]

insert-Locked :
    (id token : String) (s : StashedAgent) (d : Dict StashedAgent)
    → IsDict d
    → s.reclaim_token ≡ some token
    → All (Locked id token) (insert id s d)
unfolding insert
insert-Locked id token s [] h e = (λ _. e, tt)
insert-Locked id token s ((k, v) ∷ d) (new, h) e = elim (Bool-cases (k == id)) [
  | inl same ↦
      let eq : k ≡ id = (eq_iff k id).0 same in
      rw same (λ _. e, absent-Locked id token d (ap (λ i. lookup i d) (sym eq) ∙ new))
  | inr other ↦ rw other (λ t. absurd (ground (arith, t, other)), insert-Locked id token s d h e)
]

module _ (id token : String) where
  claim-Locked :
      (now : ℕ) (key : String) (no_auth : Bool) (m : ReconnectManager)
      → IsDict m.stashed
      → (begin_reclaim now token id key no_auth m).0
        ≡ ok (some (record { agent_id = id; token = token }))
      → AllStashed (Locked id token) (begin_reclaim now token id key no_auth m).1
  unfolding begin_reclaim
  claim-Locked now key no_auth m d granted = elim (Option-cases (lookup id m.stashed)) [
    | inl e ↦ absurd (ground (arith, e, granted))
    | inr (s, e) ↦ elim (Bool-cases (leb reconnect_window (now - s.disconnected_at))) [
      | inl late ↦ absurd (ground (arith, e, late, granted))
      | inr timely ↦ elim (Bool-cases (not no_auth && not (s.api_key == key))) [
        | inl wrong ↦ absurd (ground (arith, e, timely, wrong, granted))
        | inr right ↦ elim (Bool-cases (is_some s.reclaim_token)) [
          | inl taken ↦ absurd (ground (arith, e, timely, right, taken, granted))
          | inr free ↦
              rw (e, timely, right, free, begin_reclaim)
                (insert-Locked id token (with_token (some token) s) m.stashed d refl)
        ]
      ]
    ]
  ]

  -- Under the lock no claim is granted.
  claim-refused :
      (now : ℕ) (other key : String) (no_auth : Bool) (m : ReconnectManager) (lease : ReclaimLease)
      → AllStashed (Locked id token) m
      → (begin_reclaim now other id key no_auth m).0 ≢ ok (some lease)
  unfolding begin_reclaim
  claim-refused now other key no_auth m lease h granted =
      elim (Option-cases (lookup id m.stashed)) [
        | inl e ↦ ground (arith, e, granted)
        | inr (s, e) ↦
            let taken : s.reclaim_token ≡ some token =
              lookup-All (Locked id token) id s m.stashed h e (eq_refl id) in
            let set : is_some s.reclaim_token ≡ true = ap is_some taken in
            ground (arith, e, set, granted)
      ]

  drop-Locked :
      (other : ReclaimLease) (s : StashedAgent)
      → (other.agent_id == id && other.token == token) ≡ false
      → Locked id token other.agent_id s
      → holds_token other.token s ≡ true
      → Locked id token other.agent_id (with_token none s)
  unfolding holds_token
  drop-Locked other s apart p held same =
      let has : s.reclaim_token ≡ some token = p same in
      absurd
        (ground (arith, has, held, apart, same, eq_iff token other.token, eq_iff other.token token))

  step-Locked :
      (m : ReconnectManager) (now : ℕ) (c : Call)
      → AllStashed (Locked id token) m
      → Respect (record { agent_id = id; token = token }) c
      → AllStashed (Locked id token) (step m now c)
  unfolding stash
  step-Locked m now (stashes later i name key rooms) h r =
      insert-All (Locked id token) i _ m.stashed (λ t. absurd (ground (arith, t, r))) h
  step-Locked m now (claims other i key no_auth) h r =
      begin_reclaim-All (Locked id token) now other i key no_auth m
        (λ s p free t.
          let set : is_some s.reclaim_token ≡ true = ap is_some (p t) in
          absurd (ground (arith, set, free)))
        h
  step-Locked m now (commits lease) h r = commit-All (Locked id token) lease m h
  step-Locked m now (drops lease) h r =
      drop_lease-All (Locked id token) lease m (λ s p held. drop-Locked lease s r p held) h
  step-Locked m now (buffers i f) h r =
      buffer_message-All (Locked id token) (Locked-IsKept id token) now i f m h
  step-Locked m now (room_event visibility owner granted no_auth f) h r =
      room_event-All (Locked id token) (Locked-IsKept id token) now visibility owner granted no_auth
        f m h
  step-Locked m now (forgets room) h r =
      forget_room-All (Locked id token) (Locked-IsKept id token) now room m h
  step-Locked m now cleans h r = cleanup-All (Locked id token) now m h

  run-Locked :
      (m : ReconnectManager) (cs : List (ℕ × Call))
      → AllStashed (Locked id token) m
      → Respects (record { agent_id = id; token = token }) cs
      → AllStashed (Locked id token) (run m cs)
  run-Locked m [] h r = h
  run-Locked m ((now, c) ∷ cs) h (r, rs) = run-Locked (step m now c) cs (step-Locked m now c h r) rs

  -- After a claim of an agent's stash was granted, and whatever calls follow that neither stash the
  -- agent anew nor drop this lease: no other claim of the agent is granted.
  pub lease_is_exclusive :
      (now : ℕ) (key : String) (no_auth : Bool) (m : ReconnectManager) (cs : List (ℕ × Call))
      (at : ℕ) (other key' : String) (no_auth' : Bool) (lease : ReclaimLease)
      → IsDict m.stashed
      → (begin_reclaim now token id key no_auth m).0
        ≡ ok (some (record { agent_id = id; token = token }))
      → Respects (record { agent_id = id; token = token }) cs
      → (begin_reclaim at other id key' no_auth'
          (run (begin_reclaim now token id key no_auth m).1 cs)).0
        ≢ ok (some lease)
  lease_is_exclusive now key no_auth m cs at other key' no_auth' lease d granted r =
      claim-refused at other key' no_auth' (run (begin_reclaim now token id key no_auth m).1 cs)
        lease
        (run-Locked (begin_reclaim now token id key no_auth m).1 cs
          (claim-Locked now key no_auth m d granted) r)
