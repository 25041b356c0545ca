-- ===== src/Base/Lists.antt =====
-- The list operations of Rust's `Vec` and iterators, measured by native numbers.
use Prim.Native.Nat.{ℕ, zero, suc, ◌+◌, ◌≤◌, ◌<◌}
use Prim.Native.String.{String}
use mathlib.Core.Path.{◌≡◌, refl}
use mathlib.Core.Logic.{◌⊎◌, inl, inr}
use mathlib.Core.Bool.{Bool, true, false, not, ◌||◌}
use mathlib.Core.List.{List, [], ◌∷◌, ◌++◌}
use mathlib.Core.Option.{Option, none, some}
use native.Mathlib.Omega.{arith}
use text.Mathlib.Text.{◌==◌}
use text.Mathlib.TextEquality.{eq_iff}
use cowchat4win.Base.Tests.{if◌then◌else◌, Bool-cases}

module _ {ℓ} {A : Type ℓ} where
  abbrev pub length : List A → ℕ
  length [] = 0
  length (x ∷ xs) = suc (length xs)

  abbrev pub get_elem? : List A → ℕ → Option A
  get_elem? [] i = none
  get_elem? (x ∷ xs) zero = some x
  get_elem? (x ∷ xs) (suc i) = get_elem? xs i

  -- `Vec::first`
  abbrev pub head? : List A → Option A
  head? [] = none
  head? (x ∷ xs) = some x

  abbrev pub is_empty : List A → Bool
  is_empty [] = true
  is_empty (x ∷ xs) = false

  -- `Iterator::any`
  abbrev pub any : (A → Bool) → List A → Bool
  any p [] = false
  any p (x ∷ xs) = p x || any p xs

  -- `Vec::retain`, and `Iterator::filter` with `collect`
  abbrev pub retain : (A → Bool) → List A → List A
  retain p [] = []
  retain p (x ∷ xs) = let rest = retain p xs in if p x then x ∷ rest else rest

  -- `Iterator::position`
  abbrev pub position_from : ℕ → (A → Bool) → List A → Option ℕ
  position_from i p [] = none
  position_from i p (x ∷ xs) = let rest = position_from (suc i) p xs in if p x then some i else rest

  pub length-append : (xs ys : List A) → length (xs ++ ys) ≡ length xs + length ys
  length-append [] ys = omega arith
  length-append (x ∷ xs) ys = omega (arith, length-append xs ys)

  pub length-retain-le : (p : A → Bool) (xs : List A) → length (retain p xs) ≤ length xs
  length-retain-le p [] = omega arith
  length-retain-le p (x ∷ xs) = ground (arith, length-retain-le p xs)

pub List-cases {ℓ} :
    {A : Type ℓ} (xs : List A) → (xs ≡ []) ⊎ ((x : A) × (ys : List A) × (xs ≡ x ∷ ys))
List-cases [] = inl refl
List-cases (x ∷ xs) = inr (x, xs, refl)

-- `iter().any(|m| m == id)` on a list of ids
abbrev pub contains : String → List String → Bool
contains a [] = false
contains a (x ∷ xs) = x == a || contains a xs

-- Every id stands once.
abbrev pub Distinct : List String → Type 0
Distinct [] = Unit
Distinct (x ∷ xs) = (contains x xs ≡ false) × Distinct xs

pub contains-append :
    (a : String) (xs ys : List String) → contains a (xs ++ ys) ≡ (contains a xs || contains a ys)
contains-append a [] ys = refl
contains-append a (x ∷ xs) ys = ground (arith, contains-append a xs ys)

module _ {ℓ} {A : Type ℓ} where
  pub get_elem?_total : (xs : List A) (i : ℕ) → i < length xs → (a : A) × (get_elem? xs i ≡ some a)
  get_elem?_total [] i h = elim h [ ]
  get_elem?_total (x ∷ xs) zero h = (x, refl)
  get_elem?_total (x ∷ xs) (suc i) h = get_elem?_total xs i (omega arith)

  pub get_elem?-lt : (xs : List A) (i : ℕ) (a : A) → get_elem? xs i ≡ some a → i < length xs
  get_elem?-lt [] i a h = cc
  get_elem?-lt (x ∷ xs) zero a h = omega arith
  get_elem?-lt (x ∷ xs) (suc i) a h = omega (arith, get_elem?-lt xs i a h)

  -- A position that was found lies in the list.
  pub position_from_bounds :
      (k : ℕ) (p : A → Bool) (xs : List A) (i : ℕ)
      → position_from k p xs ≡ some i
      → (k ≤ i) × (i < k + length xs)
  position_from_bounds k p [] i h = cc
  position_from_bounds k p (x ∷ xs) i h = ground (arith, position_from_bounds (suc k) p xs i)

pub contains_of_get_elem? :
    (a : String) (xs : List String) (i : ℕ) → get_elem? xs i ≡ some a → contains a xs ≡ true
contains_of_get_elem? a [] i h = cc
contains_of_get_elem? a (x ∷ xs) zero h = ground (arith, eq_iff x a)
contains_of_get_elem? a (x ∷ xs) (suc i) h = ground (arith, contains_of_get_elem? a xs i h)

-- In a list of distinct ids the position of an id is where it stands.
pub position_of_get_elem? :
    (k : ℕ) (a : String) (xs : List String) (i : ℕ)
    → Distinct xs
    → get_elem? xs i ≡ some a
    → position_from k (λ m. m == a) xs ≡ some (k + i)
position_of_get_elem? k a [] i d h = cc
position_of_get_elem? k a (x ∷ xs) zero d h = ground (arith, eq_iff x a)
position_of_get_elem? k a (x ∷ xs) (suc i) d h =
    ground (
      arith,
      eq_iff x a,
      contains_of_get_elem? a xs i h,
      position_of_get_elem? (suc k) a xs i d.1 h,
    )

-- Every id of a list has a position.
pub get_elem?_of_contains :
    (a : String) (xs : List String)
    → contains a xs ≡ true
    → (i : ℕ) × (i < length xs) × (get_elem? xs i ≡ some a)
get_elem?_of_contains a [] h = cc
get_elem?_of_contains a (x ∷ xs) h = elim (Bool-cases (x == a)) [
  | inl e ↦ (0, omega arith, ground (arith, eq_iff x a))
  | inr e ↦ let (i, lt, g) = get_elem?_of_contains a xs (ground arith) in (suc i, omega arith, g)
]

abbrev pub without : String → List String → List String
without a = retain (λ m. not (m == a))

pub contains-without :
    (a b : String) (xs : List String)
    → contains b (without a xs) ≡ (if a == b then false else contains b xs)
contains-without a b [] = ground arith
contains-without a b (x ∷ xs) =
    ground (arith, eq_iff a b, eq_iff x a, eq_iff x b, contains-without a b xs)

pub without-Distinct : (a : String) (xs : List String) → Distinct xs → Distinct (without a xs)
without-Distinct a [] d = tt
without-Distinct a (x ∷ xs) d = ground (arith, contains-without a x xs, without-Distinct a xs d.1)

pub append-Distinct :
    (a : String) (xs : List String) → Distinct xs → contains a xs ≡ false → Distinct (xs ++ a ∷ [])
append-Distinct a [] d h = (refl, tt)
append-Distinct a (x ∷ xs) d h =
    ground (arith, eq_iff x a, eq_iff a x, contains-append x xs (a ∷ []), append-Distinct a xs d.1)
