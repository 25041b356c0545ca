-- ===== src/RateLimit/Messages.antt =====
-- The message rate over a run of sends: `handle_send_message` checks, and counts what it stores.
use Prim.Native.Nat.{min}
use cowchat4win.Base.{
  ℕ, ◌+◌, ◌-◌, ◌*◌, ◌≤◌, ◌<◌, String, ◌≡◌, refl, ◌∙◌, Bool, true, false, ◌&&◌, some, List, [], ◌∷◌,
  arith, ◌==◌, eq_iff, eq_refl, if◌then◌else◌, ltb, Bool-cases, inl, inr,
}
use cowchat4win.Base.Dict.{lookup, insert, lookup-insert}
use cowchat4win.Tombstones.{nanos_per_sec}
use cowchat4win.RateLimit.{RateLimiter, KeyUsage, TierLimits, check_message_rate, increment_message}

-- The two calls of a send that the store accepts, under the sender's own limits.
unfoldable pub send : ℕ → String → TierLimits → RateLimiter → Bool × RateLimiter
send now key limits r =
    let (allowed, r') = check_message_rate now key limits r in
    if allowed then (true, increment_message now key r') else (false, r')

unfoldable pub sent : String → (String → TierLimits) → RateLimiter → List (ℕ × String) → ℕ
sent key limits r [] = 0
sent key limits r ((now, k) ∷ rest) =
    let (allowed, r') = send now k (limits k) r in
    (if allowed && k == key then 1 else 0) + sent key limits r' rest

abbrev pub sends : String → List (ℕ × String) → ℕ
sends key [] = 0
sends key ((now, k) ∷ rest) = (if k == key then 1 else 0) + sends key rest

abbrev pub AllWithin : ℕ → List (ℕ × String) → Type 0
AllWithin start [] = Unit
AllWithin start ((now, k) ∷ rest) = (now - start ≤ 60 * nanos_per_sec) × AllWithin start rest

module _ (key : String) (limits : TierLimits) (r : RateLimiter) (u : KeyUsage)
    (found : lookup key r.usage ≡ some u) (now : ℕ) where
  own_send :
      now - u.msg_window_start ≤ 60 * nanos_per_sec
      → ((send now key limits r).0 ≡ ltb u.msg_count limits.max_messages_per_minute)
        × (lookup key (send now key limits r).1.usage
            ≡ some (
                if ltb u.msg_count limits.max_messages_per_minute
                then record u { msg_count = u.msg_count + 1 }
                else u))
  unfolding send check_message_rate increment_message
  own_send young = ground (
    arith,
    found,
    eq_refl key,
    lookup-insert key key u r.usage,
    lookup-insert key key (record u { msg_count = u.msg_count + 1 }) (insert key u r.usage),
  )

other_check :
    (now : ℕ) (key k : String) (limits : TierLimits) (r : RateLimiter)
    → (k == key) ≡ false
    → lookup key (check_message_rate now k limits r).1.usage ≡ lookup key r.usage
unfolding check_message_rate
other_check now key k limits r e = lookup-insert k key _ r.usage ∙ rw e refl

other_increment :
    (now : ℕ) (key k : String) (r : RateLimiter)
    → (k == key) ≡ false
    → lookup key (increment_message now k r).usage ≡ lookup key r.usage
unfolding increment_message
other_increment now key k r e = lookup-insert k key _ r.usage ∙ rw e refl

other_send :
    (now : ℕ) (key k : String) (limits : TierLimits) (r : RateLimiter)
    → (k == key) ≡ false
    → lookup key (send now k limits r).1.usage ≡ lookup key r.usage
unfolding send
other_send now key k limits r e = ground (
  arith,
  other_check now key k limits r e,
  other_increment now key k (check_message_rate now k limits r).1 e,
)

sent_from :
    (key : String) (limits : String → TierLimits) (r : RateLimiter) (u : KeyUsage)
    (calls : List (ℕ × String))
    → lookup key r.usage ≡ some u
    → AllWithin u.msg_window_start calls
    → sent key limits r calls
      ≡ min ((limits key).max_messages_per_minute - u.msg_count) (sends key calls)
unfolding sent
sent_from key limits r u [] found within = omega arith
sent_from key limits r u ((now, k) ∷ rest) found within = elim (Bool-cases (k == key)) [
  | inr e ↦ rw e (
      ground (
        arith,
        sent_from key limits (send now k (limits k) r).1 u rest
            (other_send now key k (limits k) r e ∙ found) within.1,
      ))
  | inl e ↦ elim (Bool-cases (ltb u.msg_count (limits key).max_messages_per_minute)) [
    | inl room ↦
        let (sure, more) = own_send key (limits key) r u found now within.0 in
        rw ((eq_iff k key).0 e, sure, room)
          (ground (
            arith,
            eq_refl key,
            sent_from key limits (send now key (limits key) r).1
                (record u { msg_count = u.msg_count + 1 }) rest (more ∙ rw room refl) within.1,
          ))
    | inr full ↦
        let (sure, same) = own_send key (limits key) r u found now within.0 in
        rw ((eq_iff k key).0 e, sure, full)
          (ground (
            arith,
            eq_refl key,
            sent_from key limits (send now key (limits key) r).1 u rest (same ∙ rw full refl)
                within.1,
          ))
  ]
]

-- Within a key's minute, as many of its messages pass the check as the tier's limit leaves room
-- for, the first ones, whatever other keys send.
pub message_rate :
    (key : String) (limits : String → TierLimits) (r : RateLimiter) (u : KeyUsage)
    (calls : List (ℕ × String))
    → lookup key r.usage ≡ some u
    → AllWithin u.msg_window_start calls
    → u.msg_count ≤ (limits key).max_messages_per_minute
    → sent key limits r calls + u.msg_count
      ≡ min (limits key).max_messages_per_minute (u.msg_count + sends key calls)
message_rate key limits r u calls found within le =
    omega (arith, sent_from key limits r u calls found within)

-- A minute later the window opens again: the check passes from any count, if the limit is not zero.
pub message_window_reopens :
    (key : String) (limits : TierLimits) (r : RateLimiter) (u : KeyUsage) (now : ℕ)
    → lookup key r.usage ≡ some u
    → 60 * nanos_per_sec < now - u.msg_window_start
    → 0 < limits.max_messages_per_minute
    → (check_message_rate now key limits r).0 ≡ true
unfolding check_message_rate
message_window_reopens key limits r u now found old pos = ground (arith, found)
