-- ===== src/Tombstones/Laws.antt =====
-- What a tombstone cache keeps, and for how long.
use cowchat4win.Base.{
  ℕ, zero, suc, ◌+◌, ◌-◌, ◌≤◌, ◌<◌, String, ◌≡◌, refl, ap, Bool, none, some, [], ◌∷◌, arith, eq_iff,
  eq_refl, ltb, leb, if◌then◌else◌, length, Bool-cases, Option-cases, inl, inr,
}
use cowchat4win.Base.Dict.{
  Dict, lookup, insert, remove, retain_values, IsDict, lookup-insert, lookup-remove, insert-IsDict,
  remove-IsDict, retain_values-IsDict, lookup-retain_values, length-remove-lt,
}
use cowchat4win.Tombstones.{oldest, evict, prune, bury}

-- How many entries are as young as `t`, or younger.
abbrev pub count_since : ℕ → Dict ℕ → ℕ
count_since t [] = 0
count_since t ((k, at) ∷ m) = (if leb t at then 1 else 0) + count_since t m

module _ {ℓ} {V : Type ℓ} where
  remove_absent : (k : String) (m : Dict V) → lookup k m ≡ none → remove k m ≡ m
  unfolding remove lookup
  remove_absent k [] h = refl
  remove_absent k ((j, v) ∷ m) h = ground (arith, remove_absent k m)

oldest-lookup :
    (m : Dict ℕ) (k : String) (at : ℕ) → IsDict m → oldest m ≡ some (k, at) → lookup k m ≡ some at
unfolding oldest lookup
oldest-lookup [] k at d h = cc
oldest-lookup ((j, b) ∷ m) k at d h = elim (Option-cases (oldest m)) [
  | inl e ↦ ground (arith, eq_iff j k)
  | inr ((i, c), e) ↦ ground (arith, eq_iff j k, eq_iff j i, oldest-lookup m i c d.1 e)
]

oldest-none : (m : Dict ℕ) → oldest m ≡ none → m ≡ []
unfolding oldest
oldest-none [] h = refl
oldest-none ((j, b) ∷ m) h = ground arith

count_since-le-length : (t : ℕ) (m : Dict ℕ) → count_since t m ≤ length m
count_since-le-length t [] = omega arith
count_since-le-length t ((j, b) ∷ m) = ground (arith, count_since-le-length t m)

-- Where some entry is older than `t`, the oldest one is.
oldest-lt :
    (t : ℕ) (m : Dict ℕ) (k : String) (at : ℕ)
    → oldest m ≡ some (k, at)
    → count_since t m < length m
    → at < t
unfolding oldest
oldest-lt t [] k at h c = cc
oldest-lt t ((j, b) ∷ m) k at h c = elim (Option-cases (oldest m)) [
  | inl e ↦ ground (arith, oldest-none m e, ap length (oldest-none m e))
  | inr ((i, a), e) ↦ ground (arith, oldest-lt t m i a e)
]

count_since-remove :
    (t : ℕ) (k : String) (at : ℕ) (m : Dict ℕ)
    → IsDict m
    → lookup k m ≡ some at
    → at < t
    → count_since t (remove k m) ≡ count_since t m
unfolding remove lookup
count_since-remove t k at [] d h lt = refl
count_since-remove t k at ((j, b) ∷ m) d h lt =
    ground (arith, eq_iff j k, remove_absent k m, count_since-remove t k at m d.1)

count_since-retain_values :
    (t : ℕ) (p : ℕ → Bool) (m : Dict ℕ) → count_since t (retain_values p m) ≤ count_since t m
unfolding retain_values
count_since-retain_values t p [] = omega arith
count_since-retain_values t p ((j, b) ∷ m) = ground (arith, count_since-retain_values t p m)

-- The two ways in which one round of the loop goes.
evict_cases {ℓ} :
    (P : Dict ℕ → Type ℓ) (limit fuel : ℕ) (m : Dict ℕ)
    → (length m ≤ limit → P m)
    → ((k : String) (at : ℕ)
        → oldest m ≡ some (k, at)
        → limit < length m
        → P (evict limit fuel (remove k m)))
    → P (evict limit (suc fuel) m)
unfolding evict
evict_cases P limit fuel m stop again = elim (Bool-cases (ltb limit (length m))) [
  | inl over ↦ elim (Option-cases (oldest m)) [
    | inl e ↦ absurd (ground (arith, ap length (oldest-none m e)))
    | inr ((k, at), e) ↦ rw (over, e, evict) (again k at e (ground arith))
  ]
  | inr under ↦ rw (under, evict) (stop (ground arith))
]

pub evict-IsDict : (limit fuel : ℕ) (m : Dict ℕ) → IsDict m → IsDict (evict limit fuel m)
unfolding evict
evict-IsDict limit zero m d = d
evict-IsDict limit (suc fuel) m d =
    evict_cases IsDict limit fuel m (λ _. d)
      (λ k at _ _. evict-IsDict limit fuel (remove k m) (remove-IsDict k m d))

-- Enough fuel brings the length within the limit.
pub length-evict-le :
    (limit fuel : ℕ) (m : Dict ℕ)
    → IsDict m
    → length m ≤ limit + fuel
    → length (evict limit fuel m) ≤ limit
unfolding evict
length-evict-le limit zero m d h = omega arith
length-evict-le limit (suc fuel) m d h =
    evict_cases (λ r. length r ≤ limit) limit fuel m (λ small. small)
      λ k at e over.
        length-evict-le limit fuel (remove k m) (remove-IsDict k m d)
          (omega (arith, length-remove-lt k m (λ miss. cc (oldest-lookup m k at d e))))

-- An entry stays as long as no more than `limit` entries are as young as it is.
pub evict_keeps :
    (limit fuel : ℕ) (m : Dict ℕ) (j : String) (b : ℕ)
    → IsDict m
    → lookup j m ≡ some b
    → count_since b m ≤ limit
    → lookup j (evict limit fuel m) ≡ some b
unfolding evict
evict_keeps limit zero m j b d h c = h
evict_keeps limit (suc fuel) m j b d h c =
    evict_cases (λ r. lookup j r ≡ some b) limit fuel m (λ _. h)
      λ k at e over.
        let older : at < b = oldest-lt b m k at e (omega arith) in
        let found : lookup k m ≡ some at = oldest-lookup m k at d e in
        evict_keeps limit fuel (remove k m) j b (remove-IsDict k m d)
          (ground (arith, lookup-remove k j m, eq_iff k j))
          (rw (count_since-remove b k at m d found older) c)

lookup-evict :
    (limit fuel : ℕ) (m : Dict ℕ) (j : String) (b : ℕ)
    → lookup j (evict limit fuel m) ≡ some b
    → lookup j m ≡ some b
unfolding evict
lookup-evict limit zero m j b h = h
lookup-evict limit (suc fuel) m j b h =
    evict_cases (λ r. lookup j r ≡ some b → lookup j m ≡ some b) limit fuel m (λ _ q. q)
      (λ k at e over q.
        ground (arith, lookup-remove k j m, lookup-evict limit fuel (remove k m) j b q))
      h

module _ (ttl limit now : ℕ) (m : Dict ℕ) where
  pub prune-IsDict : IsDict m → IsDict (prune ttl limit now m)
  unfolding prune
  prune-IsDict d = evict-IsDict limit _ _ (retain_values-IsDict _ m d)

  -- A pruned cache is within its limit.
  pub length-prune-le : IsDict m → length (prune ttl limit now m) ≤ limit
  unfolding prune
  length-prune-le d = length-evict-le limit _ _ (retain_values-IsDict _ m d) (omega arith)

  -- What is left was there before, and is younger than the time to live.
  pub lookup-prune :
      (j : String) (b : ℕ)
      → IsDict m
      → lookup j (prune ttl limit now m) ≡ some b
      → (lookup j m ≡ some b) × (now - b < ttl)
  unfolding prune
  lookup-prune j b d h = ground (
    arith,
    lookup-evict limit _ (retain_values (λ at. ltb (now - at) ttl) m) j b h,
    lookup-retain_values (λ at. ltb (now - at) ttl) j m d,
  )

  -- A live entry stays, as long as no more than `limit` entries are as young as it is.
  pub prune_keeps :
      (j : String) (b : ℕ)
      → IsDict m
      → lookup j m ≡ some b
      → now - b < ttl
      → count_since b m ≤ limit
      → lookup j (prune ttl limit now m) ≡ some b
  unfolding prune
  prune_keeps j b d h live few =
      evict_keeps limit _ _ j b (retain_values-IsDict _ m d)
        (ground (arith, lookup-retain_values (λ at. ltb (now - at) ttl) j m d))
        (omega (arith, count_since-retain_values b (λ at. ltb (now - at) ttl) m))

module _ (ttl limit now : ℕ) (k : String) (m : Dict ℕ) where
  pub bury-IsDict : IsDict m → IsDict (bury ttl limit now k m)
  unfolding bury
  bury-IsDict d =
      prune-IsDict ttl limit now _ (insert-IsDict k now _ (prune-IsDict ttl limit now m d))

  pub length-bury-le : IsDict m → length (bury ttl limit now k m) ≤ limit
  unfolding bury
  length-bury-le d =
      length-prune-le ttl limit now _ (insert-IsDict k now _ (prune-IsDict ttl limit now m d))

  -- The room that was buried is found, unless `limit` others carry the same instant or a later one.
  pub lookup-bury_self :
      IsDict m
      → 0 < ttl
      → count_since now (insert k now (prune ttl limit now m)) ≤ limit
      → lookup k (bury ttl limit now k m) ≡ some now
  unfolding bury
  lookup-bury_self d pos few =
      prune_keeps ttl limit now _ k now (insert-IsDict k now _ (prune-IsDict ttl limit now m d))
        (rw (lookup-insert k k now (prune ttl limit now m), eq_refl k)) (omega arith) few

-- How the count of young entries moves.
pub count_since_mono : (t u : ℕ) (m : Dict ℕ) → t ≤ u → count_since u m ≤ count_since t m
count_since_mono t u [] h = omega arith
count_since_mono t u ((j, b) ∷ m) h = ground (arith, count_since_mono t u m h)

count_since-remove-le :
    (t : ℕ) (k : String) (m : Dict ℕ) → count_since t (remove k m) ≤ count_since t m
unfolding remove
count_since-remove-le t k [] = omega arith
count_since-remove-le t k ((j, b) ∷ m) = ground (arith, count_since-remove-le t k m)

count_since-evict :
    (t limit fuel : ℕ) (m : Dict ℕ) → count_since t (evict limit fuel m) ≤ count_since t m
unfolding evict
count_since-evict t limit zero m = omega arith
count_since-evict t limit (suc fuel) m =
    evict_cases (λ r. count_since t r ≤ count_since t m) limit fuel m (λ _. omega arith)
      λ k at _ _.
        omega (arith, count_since-evict t limit fuel (remove k m), count_since-remove-le t k m)

pub count_since-prune :
    (t ttl limit now : ℕ) (m : Dict ℕ) → count_since t (prune ttl limit now m) ≤ count_since t m
unfolding prune
count_since-prune t ttl limit now m = omega (
  arith,
  count_since-evict t limit _ (retain_values (λ at. ltb (now - at) ttl) m),
  count_since-retain_values t (λ at. ltb (now - at) ttl) m,
)

pub count_since-insert :
    (t : ℕ) (k : String) (at : ℕ) (m : Dict ℕ) → count_since t (insert k at m) ≤ count_since t m + 1
unfolding insert
count_since-insert t k at [] = ground arith
count_since-insert t k at ((j, b) ∷ m) = ground (arith, count_since-insert t k at m)
