-- ===== src/RateLimit/Signup.antt =====
-- The signup throttle over a run of attempts from many addresses.
use Prim.Native.Nat.{min}
use cowchat4win.Base.{
  ℕ, ◌+◌, ◌-◌, ◌≤◌, String, ◌≡◌, true, false, ◌&&◌, none, some, List, [], ◌∷◌, arith, ◌==◌, eq_iff,
  eq_refl, if◌then◌else◌, leb, unwrap_or, ◌<◌, Bool-cases, inl, inr,
}
use cowchat4win.Base.Dict.{lookup, lookup-insert}
use cowchat4win.RateLimit.{
  RateLimiter, SignupWindow, signup_window, signup_max_per_window, reset_window,
  try_register_signup,
}

-- How many of the attempts come from `ip`, and how many of those are let through.
abbrev pub attempts : String → List (ℕ × String) → ℕ
attempts ip [] = 0
attempts ip ((now, j) ∷ rest) = (if j == ip then 1 else 0) + attempts ip rest

unfoldable pub accepted : String → RateLimiter → List (ℕ × String) → ℕ
accepted ip r [] = 0
accepted ip r ((now, j) ∷ rest) =
    let (allowed, r') = try_register_signup now j r in
    (if allowed && j == ip then 1 else 0) + accepted ip r' rest

-- All attempts of the run fall in the window that began at `start`.
abbrev pub AllWithin : ℕ → List (ℕ × String) → Type 0
AllWithin start [] = Unit
AllWithin start ((now, j) ∷ rest) = (now - start ≤ signup_window) × AllWithin start rest

module _ (ip : String) (r : RateLimiter) (w : SignupWindow) (found : lookup ip r.signups ≡ some w)
    (now : ℕ) where
  other_attempt :
      (j : String) → (j == ip) ≡ false → lookup ip (try_register_signup now j r).1.signups ≡ some w
  unfolding try_register_signup
  other_attempt j e =
      let v : SignupWindow =
        reset_window now
          (unwrap_or (lookup j r.signups) (record { count = 0; window_start = now })) in
      ground (
        arith,
        found,
        e,
        lookup-insert j ip v r.signups,
        lookup-insert j ip (record v { count = v.count + 1 }) r.signups,
      )

  refused_attempt :
      now - w.window_start ≤ signup_window
      → signup_max_per_window ≤ w.count
      → ((try_register_signup now ip r).0 ≡ false)
        × (lookup ip (try_register_signup now ip r).1.signups ≡ some w)
  unfolding try_register_signup
  refused_attempt young full = ground (arith, found, eq_refl ip, lookup-insert ip ip w r.signups)

  accepted_attempt :
      now - w.window_start ≤ signup_window
      → w.count < signup_max_per_window
      → ((try_register_signup now ip r).0 ≡ true)
        × (lookup ip (try_register_signup now ip r).1.signups
            ≡ some (record w { count = w.count + 1 }))
  unfolding try_register_signup
  accepted_attempt young room =
      ground
        (arith, found, eq_refl ip, lookup-insert ip ip (record w { count = w.count + 1 }) r.signups)

first_attempt :
    (ip : String) (r : RateLimiter) (now : ℕ)
    → lookup ip r.signups ≡ none
    → ((try_register_signup now ip r).0 ≡ true)
      × (lookup ip (try_register_signup now ip r).1.signups
          ≡ some (record { count = 1; window_start = now }))
unfolding try_register_signup
first_attempt ip r now new = ground (
  arith,
  new,
  eq_refl ip,
  lookup-insert ip ip (record { count = 1; window_start = now }) r.signups,
)

accepted_from :
    (ip : String) (r : RateLimiter) (w : SignupWindow) (calls : List (ℕ × String))
    → lookup ip r.signups ≡ some w
    → AllWithin w.window_start calls
    → w.count ≤ signup_max_per_window
    → accepted ip r calls ≡ min (signup_max_per_window - w.count) (attempts ip calls)
unfolding accepted
accepted_from ip r w [] found within le = omega arith
accepted_from ip r w ((now, j) ∷ rest) found within le = elim (Bool-cases (j == ip)) [
  | inr e ↦ rw e (
      ground (
        arith,
        accepted_from ip (try_register_signup now j r).1 w rest (other_attempt ip r w found now j e)
            within.1 le,
      ))
  | inl e ↦ elim (Bool-cases (leb signup_max_per_window w.count)) [
    | inl full ↦
        let (full', same) = refused_attempt ip r w found now within.0 (ground arith) in
        rw ((eq_iff j ip).0 e, full')
          (ground (
            arith,
            eq_refl ip,
            accepted_from ip (try_register_signup now ip r).1 w rest same within.1 le,
          ))
    | inr room ↦
        let (sure, more) = accepted_attempt ip r w found now within.0 (ground arith) in
        rw ((eq_iff j ip).0 e, sure)
          (ground (
            arith,
            eq_refl ip,
            accepted_from ip (try_register_signup now ip r).1 (record w { count = w.count + 1 })
                rest more within.1 (ground arith),
          ))
  ]
]

-- From the first attempt of an address on, for as long as its window lasts, exactly the first ten
-- of its attempts are let through, whatever other addresses do.
pub signup_throttle :
    (ip : String) (r : RateLimiter) (start : ℕ) (calls : List (ℕ × String))
    → lookup ip r.signups ≡ none
    → AllWithin start calls
    → accepted ip r ((start, ip) ∷ calls) ≡ min signup_max_per_window (1 + attempts ip calls)
unfolding accepted
signup_throttle ip r start calls new within =
    let w : SignupWindow = record { count = 1; window_start = start } in
    let (sure, found) = first_attempt ip r start new in
    rw (sure, eq_refl ip)
      (omega (
        arith,
        accepted_from ip (try_register_signup start ip r).1 w calls found within (omega arith),
      ))
