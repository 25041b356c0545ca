-- ===== src/RateLimit/Tests.antt =====
-- Runs of rate_limit.rs's tests, and the theorems at concrete limiters.
use Prim.Native.Nat.{min}
use cowchat4win.Base.{ℕ, ◌+◌, String, ◌≡◌, refl, true, false, List, [], ◌∷◌, arith}
use cowchat4win.Base.Dict.{lookup, insert}
use cowchat4win.RateLimit.{
  RateLimiter, KeyUsage, TierLimits, free, for_tier, fresh_usage, add_room, remove_room,
  check_room_limit, check_message_rate, add_agent, remove_agent, try_register_signup,
  signup_max_per_window,
}
use cowchat4win.RateLimit
use cowchat4win.RateLimit.Signup.{accepted, attempts, signup_throttle}
use cowchat4win.RateLimit.Messages.{sent, sends, message_rate}

-- `destroyed_room_releases_room_quota`
abbrev one_room : TierLimits
one_room = record free { max_rooms = 1 }

quota_released :
    ((check_room_limit 2 "key" one_room (add_room 1 "key" RateLimit.new)).0 ≡ false)
    × ((check_room_limit 2 "key" one_room (remove_room "key" (add_room 1 "key" RateLimit.new))).0
        ≡ true)
unfolding check_room_limit add_room remove_room lookup insert
quota_released = (refl, refl)

abbrev burst : List (ℕ × String)
burst = (1, "5.6.7.8") ∷ (2, "1.2.3.4") ∷ (3, "1.2.3.4") ∷ []

signup_throttle_example :
    accepted "1.2.3.4" RateLimit.new ((0, "1.2.3.4") ∷ burst)
    ≡ min signup_max_per_window (1 + attempts "1.2.3.4" burst)
unfolding lookup
signup_throttle_example = signup_throttle "1.2.3.4" RateLimit.new 0 burst refl (omega arith)

abbrev usage : KeyUsage
usage = record { agent_count = 0; msg_count = 199; msg_window_start = 0; room_count = 0 }

abbrev busy : RateLimiter
busy = record { usage = ("key", usage) ∷ []; signups = [] }

abbrev two : List (ℕ × String)
two = (5, "key") ∷ (6, "key") ∷ []

message_rate_example : sent "key" (λ k. free) busy two + 199 ≡ min 200 (199 + sends "key" two)
unfolding lookup
message_rate_example =
    message_rate "key" (λ k. free) busy usage two refl (omega arith) (omega arith)
