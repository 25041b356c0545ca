-- ===== src/Base/Dict.antt =====
-- `DashMap` and `HashMap` with `String` keys, as association lists. Iteration follows the list;
-- that order is unspecified in the source, and a theorem that rests on it says so.
use cowchat4win.Base.{
  ◌≤◌, ◌<◌, String, ◌≡◌, ◌≢◌, refl, Bool, Option, none, some, List, [], ◌∷◌, arith, ◌==◌, eq_iff,
  if◌then◌else◌, length, is_some,
}

abbrev pub Dict {ℓ} : Type ℓ → Type ℓ
Dict V = List (String × V)

module _ {ℓ} {V : Type ℓ} where
  -- `get`
  unfoldable pub lookup : String → Dict V → Option V
  lookup key [] = none
  lookup key ((k, found) ∷ rest) = if k == key then some found else lookup key rest

  unfoldable pub remove : String → Dict V → Dict V
  remove k [] = []
  remove k ((j, v) ∷ m) = let rest = remove k m in if j == k then rest else (j, v) ∷ rest

  -- A new value under an old key stands where the old one stood; a new key comes last.
  unfoldable pub insert : String → V → Dict V → Dict V
  insert key new [] = (key, new) ∷ []
  insert key new ((k, old) ∷ rest) =
      let tail = insert key new rest in if k == key then (key, new) ∷ rest else (k, old) ∷ tail

  -- `DashMap::retain` on the values; the keys stay where they are.
  unfoldable pub retain_values : (V → Bool) → Dict V → Dict V
  retain_values p [] = []
  retain_values p ((j, v) ∷ m) = let rest = retain_values p m in if p v then (j, v) ∷ rest else rest

  abbrev pub contains_key : String → Dict V → Bool
  contains_key k m = is_some (lookup k m)

  unfoldable pub keys : Dict V → List String
  keys [] = []
  keys ((j, v) ∷ m) = j ∷ keys m

  -- Every key stands once, as in a hash map.
  abbrev pub IsDict : Dict V → Type ℓ
  IsDict [] = Unit
  IsDict ((j, v) ∷ m) = (lookup j m ≡ none) × IsDict m

  pub lookup-insert :
      (key asked : String) (new : V) (m : Dict V)
      → lookup asked (insert key new m) ≡ (if key == asked then some new else lookup asked m)
  unfolding insert lookup
  lookup-insert key asked new [] = refl
  lookup-insert key asked new ((k, old) ∷ rest) =
      let ih = lookup-insert key asked new rest in
      ground (arith, ih, eq_iff k asked, eq_iff key asked, eq_iff k key)

  pub lookup-remove :
      (k j : String) (m : Dict V) → lookup j (remove k m) ≡ (if k == j then none else lookup j m)
  unfolding lookup remove
  lookup-remove k j [] = ground arith
  lookup-remove k j ((i, w) ∷ m) =
      ground (arith, eq_iff k j, eq_iff i k, eq_iff i j, lookup-remove k j m)

  pub insert-IsDict : (k : String) (v : V) (m : Dict V) → IsDict m → IsDict (insert k v m)
  unfolding insert lookup
  insert-IsDict k v [] h = (refl, tt)
  insert-IsDict k v ((i, w) ∷ m) h =
      ground (arith, eq_iff i k, eq_iff k i, lookup-insert k i v m, insert-IsDict k v m h.1)

  pub remove-IsDict : (k : String) (m : Dict V) → IsDict m → IsDict (remove k m)
  unfolding remove
  remove-IsDict k [] h = tt
  remove-IsDict k ((i, w) ∷ m) h = ground (arith, lookup-remove k i m, remove-IsDict k m h.1)

  pub lookup-retain_values-none :
      (p : V → Bool) (j : String) (m : Dict V)
      → lookup j m ≡ none
      → lookup j (retain_values p m) ≡ none
  unfolding lookup retain_values
  lookup-retain_values-none p j [] h = refl
  lookup-retain_values-none p j ((i, w) ∷ m) h = ground (arith, lookup-retain_values-none p j m)

  pub retain_values-IsDict : (p : V → Bool) (m : Dict V) → IsDict m → IsDict (retain_values p m)
  unfolding retain_values
  retain_values-IsDict p [] h = tt
  retain_values-IsDict p ((i, w) ∷ m) h =
      ground (arith, lookup-retain_values-none p i m, retain_values-IsDict p m h.1)

  -- What `retain` leaves of one entry.
  abbrev pub keep_if : (V → Bool) → Option V → Option V
  keep_if p none = none
  keep_if p (some v) = if p v then some v else none

  pub lookup-retain_values :
      (p : V → Bool) (j : String) (m : Dict V)
      → IsDict m
      → lookup j (retain_values p m) ≡ keep_if p (lookup j m)
  unfolding lookup retain_values
  lookup-retain_values p j [] h = refl
  lookup-retain_values p j ((i, w) ∷ m) h =
      ground (arith, eq_iff i j, lookup-retain_values p j m h.1, lookup-retain_values-none p j m)

  pub length-remove-lt :
      (k : String) (m : Dict V) → lookup k m ≢ none → length (remove k m) < length m
  unfolding lookup remove
  length-remove-lt k [] h = absurd (h refl)
  length-remove-lt k ((i, w) ∷ m) h = ground (arith, length-remove-lt k m, length-remove-le k m)
    where
      length-remove-le : (k : String) (m : Dict V) → length (remove k m) ≤ length m
      length-remove-le k [] = omega arith
      length-remove-le k ((i, w) ∷ m) = ground (arith, length-remove-le k m)
