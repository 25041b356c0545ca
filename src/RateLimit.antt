-- ===== src/RateLimit.antt =====
-- crates/cowchat-server/src/rate_limit.rs: tiers, per-key usage and the signup throttle. An
-- `Instant` is a number of nanoseconds, and counters are unbounded: a `u64` that is counted up by
-- one at a time does not wrap in the life of a server, a `u32` of at most ten does not at all.
pub mod Signup
pub mod Messages
pub mod Quota
pub mod Tests
use cowchat4win.Base.{
  ℕ, suc, ◌+◌, ◌-◌, ◌*◌, ◌≤◌, ◌<◌, String, ◌≡◌, refl, Bool, true, false, Option, none, some, List,
  [], ◌∷◌, arith, ◌==◌, eq_iff, eq_refl, if◌then◌else◌, ltb, leb, length, unwrap_or, Bool-cases,
  Option-cases, inl, inr,
}
use cowchat4win.Base.Dict.{Dict, lookup, insert, lookup-insert}
use cowchat4win.Tombstones.{nanos_per_sec}

abbrev pub signup_max_per_window : ℕ
signup_max_per_window = 10

abbrev pub signup_window : ℕ
signup_window = 3600 * nanos_per_sec

pub record SignupWindow : Type 0 where
  pub count : ℕ
  pub window_start : ℕ

pub record KeyUsage : Type 0 where
  pub agent_count : ℕ
  pub msg_count : ℕ
  pub msg_window_start : ℕ
  pub room_count : ℕ

abbrev pub fresh_usage : ℕ → KeyUsage
fresh_usage now = record { agent_count = 0; msg_count = 0; msg_window_start = now; room_count = 0 }

pub record TierLimits : Type 0 where
  pub max_agents : ℕ
  pub max_messages_per_minute : ℕ
  pub max_rooms : ℕ
  pub max_message_bytes : ℕ
  pub history_retention_days : Option ℕ

abbrev pub free : TierLimits
free = record {
  max_agents = 20;
  max_messages_per_minute = 200;
  max_rooms = 50;
  max_message_bytes = 64 * 1024;
  history_retention_days = some 14;
}

abbrev pub pro : TierLimits
pro = record {
  max_agents = 200;
  max_messages_per_minute = 2000;
  max_rooms = 500;
  max_message_bytes = 256 * 1024;
  history_retention_days = some 90;
}

unfoldable pub for_tier : String → TierLimits
for_tier tier = if tier == "pro" then pro else free

pub record RateLimiter : Type 0 where
  pub usage : Dict KeyUsage
  pub signups : Dict SignupWindow

abbrev pub new : RateLimiter
new = record { usage = []; signups = [] }

-- The window after the reset, if it has run out.
unfoldable pub reset_window : ℕ → SignupWindow → SignupWindow
reset_window now w =
    if ltb signup_window (now - w.window_start) then record { count = 0; window_start = now } else w

unfoldable pub try_register_signup : ℕ → String → RateLimiter → Bool × RateLimiter
unfolding reset_window
try_register_signup now ip r =
    let w =
      reset_window now
        (unwrap_or (lookup ip r.signups) (record { count = 0; window_start = now })) in
    if leb signup_max_per_window w.count
    then (false, record r { signups = insert ip w r.signups })
    else (true, record r { signups = insert ip (record w { count = w.count + 1 }) r.signups })

-- The usage of a key, made where it is missing.
unfoldable pub get_or_create : ℕ → String → RateLimiter → KeyUsage
get_or_create now api_key r = unwrap_or (lookup api_key r.usage) (fresh_usage now)

unfoldable pub put_usage : String → KeyUsage → RateLimiter → RateLimiter
put_usage api_key u r = record r { usage = insert api_key u r.usage }

unfoldable pub check_agent_limit : ℕ → String → TierLimits → RateLimiter → Bool × RateLimiter
unfolding get_or_create put_usage
check_agent_limit now api_key limits r =
    let u = get_or_create now api_key r in
    (ltb u.agent_count limits.max_agents, put_usage api_key u r)

unfoldable pub check_message_rate : ℕ → String → TierLimits → RateLimiter → Bool × RateLimiter
unfolding get_or_create put_usage
check_message_rate now api_key limits r =
    let u = get_or_create now api_key r in
    let u' =
      if ltb (60 * nanos_per_sec) (now - u.msg_window_start)
      then record u { msg_count = 0; msg_window_start = now }
      else u in
    (ltb u'.msg_count limits.max_messages_per_minute, put_usage api_key u' r)

unfoldable pub check_room_limit : ℕ → String → TierLimits → RateLimiter → Bool × RateLimiter
unfolding get_or_create put_usage
check_room_limit now api_key limits r =
    let u = get_or_create now api_key r in
    (ltb u.room_count limits.max_rooms, put_usage api_key u r)

unfoldable pub increment_message : ℕ → String → RateLimiter → RateLimiter
unfolding get_or_create put_usage
increment_message now api_key r =
    let u = get_or_create now api_key r in
    put_usage api_key (record u { msg_count = u.msg_count + 1 }) r

unfoldable pub add_agent : ℕ → String → RateLimiter → RateLimiter
unfolding get_or_create put_usage
add_agent now api_key r =
    let u = get_or_create now api_key r in
    put_usage api_key (record u { agent_count = u.agent_count + 1 }) r

unfoldable pub remove_agent : String → RateLimiter → RateLimiter
unfolding put_usage
remove_agent api_key r = elim (lookup api_key r.usage) [
  | none ↦ r
  | some u ↦
      if ltb 0 u.agent_count
      then put_usage api_key (record u { agent_count = u.agent_count - 1 }) r
      else r
]

unfoldable pub add_room : ℕ → String → RateLimiter → RateLimiter
unfolding get_or_create put_usage
add_room now api_key r =
    let u = get_or_create now api_key r in
    put_usage api_key (record u { room_count = u.room_count + 1 }) r

unfoldable pub remove_room : String → RateLimiter → RateLimiter
unfolding put_usage
remove_room api_key r = elim (lookup api_key r.usage) [
  | none ↦ r
  | some u ↦
      if ltb 0 u.room_count
      then put_usage api_key (record u { room_count = u.room_count - 1 }) r
      else r
]
