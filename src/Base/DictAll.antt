-- ===== src/Base/DictAll.antt =====
-- A predicate that holds of every entry of a dictionary.
use cowchat4win.Base.{
  String, ◌≡◌, Bool, some, [], ◌∷◌, ◌==◌, arith, eq_iff, Bool-cases, inl, inr, subst,
}
use cowchat4win.Base.Dict.{Dict, lookup, insert, remove, retain_values}

module _ {V : Type 0} (P : String → V → Type 0) where
  abbrev pub All : Dict V → Type 0
  All [] = Unit
  All ((k, v) ∷ m) = P k v × All m

  pub lookup-All : (k : String) (v : V) (m : Dict V) → All m → lookup k m ≡ some v → P k v
  unfolding lookup
  lookup-All k v [] h e = cc
  lookup-All k v ((j, w) ∷ m) (p, rest) e = elim (Bool-cases (j == k)) [
    | inl t ↦
        let same : some w ≡ some v = ground (arith, e, t) in
        let eq : w ≡ v = cc in
        let key : j ≡ k = (eq_iff j k).0 t in subst (λ i. P i v) key (subst (P j) eq p)
    | inr f ↦ lookup-All k v m rest (ground (arith, e, f))
  ]

  pub insert-All : (k : String) (v : V) (m : Dict V) → P k v → All m → All (insert k v m)
  unfolding insert
  insert-All k v [] p h = (p, tt)
  insert-All k v ((j, w) ∷ m) p (q, r) = elim (Bool-cases (j == k)) [
    | inl t ↦ rw t (p, r)
    | inr t ↦ rw t (q, insert-All k v m p r)
  ]

  pub remove-All : (k : String) (m : Dict V) → All m → All (remove k m)
  unfolding remove
  remove-All k [] h = tt
  remove-All k ((j, w) ∷ m) (q, r) = elim (Bool-cases (j == k)) [
    | inl t ↦ rw t (remove-All k m r)
    | inr t ↦ rw t (q, remove-All k m r)
  ]

  pub retain_values-All : (p : V → Bool) (m : Dict V) → All m → All (retain_values p m)
  unfolding retain_values
  retain_values-All p [] h = tt
  retain_values-All p ((j, w) ∷ m) (q, r) = elim (Bool-cases (p w)) [
    | inl t ↦ rw t (q, retain_values-All p m r)
    | inr t ↦ rw t (retain_values-All p m r)
  ]
