-- ===== src/RateLimit/Quota.antt =====
-- The counters of one key: what each operation does to them, and that other keys keep theirs.
use cowchat4win.Base.{
  ℕ, ◌+◌, ◌-◌, String, ◌≡◌, none, some, arith, ◌==◌, eq_iff, if◌then◌else◌, ltb, Option-cases, inl,
  inr,
}
use cowchat4win.Base.Dict.{lookup, lookup-insert}
use cowchat4win.RateLimit.{
  RateLimiter, TierLimits, fresh_usage, check_room_limit, add_agent, remove_agent, add_room,
  remove_room,
}

-- The room counter of a key; a key that is not known has made no room.
abbrev pub rooms : String → RateLimiter → ℕ
rooms k r = elim (lookup k r.usage) [ none ↦ 0 | some u ↦ u.room_count ]

abbrev pub agents : String → RateLimiter → ℕ
agents k r = elim (lookup k r.usage) [ none ↦ 0 | some u ↦ u.agent_count ]

module _ (now : ℕ) (key : String) (r : RateLimiter) (k : String) where
  -- Adding counts up the key's own rooms, removing counts down and stops at zero; neither touches
  -- another key, and neither touches the agents.
  pub rooms_count :
      (rooms k (add_room now key r) ≡ (if key == k then rooms k r + 1 else rooms k r))
      × (rooms k (remove_room key r) ≡ (if key == k then rooms k r - 1 else rooms k r))
      × (agents k (add_room now key r) ≡ agents k r)
      × (agents k (remove_room key r) ≡ agents k r)
  unfolding add_room remove_room
  rooms_count = elim (Option-cases (lookup key r.usage)) [
    | inl e ↦ ground (
      arith,
      e,
      eq_iff key k,
      lookup-insert key k (record (fresh_usage now) { room_count = 1 }) r.usage,
    )
    | inr (u, e) ↦ ground (
      arith,
      e,
      eq_iff key k,
      lookup-insert key k (record u { room_count = u.room_count + 1 }) r.usage,
      lookup-insert key k (record u { room_count = u.room_count - 1 }) r.usage,
    )
  ]

  -- The same for agents, with the roles of the counters exchanged.
  pub agents_count :
      (agents k (add_agent now key r) ≡ (if key == k then agents k r + 1 else agents k r))
      × (agents k (remove_agent key r) ≡ (if key == k then agents k r - 1 else agents k r))
      × (rooms k (add_agent now key r) ≡ rooms k r)
      × (rooms k (remove_agent key r) ≡ rooms k r)
  unfolding add_agent remove_agent
  agents_count = elim (Option-cases (lookup key r.usage)) [
    | inl e ↦ ground (
      arith,
      e,
      eq_iff key k,
      lookup-insert key k (record (fresh_usage now) { agent_count = 1 }) r.usage,
    )
    | inr (u, e) ↦ ground (
      arith,
      e,
      eq_iff key k,
      lookup-insert key k (record u { agent_count = u.agent_count + 1 }) r.usage,
      lookup-insert key k (record u { agent_count = u.agent_count - 1 }) r.usage,
    )
  ]

  -- A check answers by the key's own counter and moves no counter of any key.
  pub check_room_limit_lem :
      (limits : TierLimits)
      → ((check_room_limit now key limits r).0 ≡ ltb (rooms key r) limits.max_rooms)
        × (rooms k (check_room_limit now key limits r).1 ≡ rooms k r)
        × (agents k (check_room_limit now key limits r).1 ≡ agents k r)
  unfolding check_room_limit
  check_room_limit_lem limits = elim (Option-cases (lookup key r.usage)) [
    | inl e ↦ ground (arith, e, eq_iff key k, lookup-insert key k (fresh_usage now) r.usage)
    | inr (u, e) ↦ ground (arith, e, eq_iff key k, lookup-insert key k u r.usage)
  ]
