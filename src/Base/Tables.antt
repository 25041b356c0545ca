-- ===== src/Base/Tables.antt =====
-- SQL statements over a table, which is the list of its rows in rowid order.
use Prim.Native.Nat.{ℕ, zero, suc}
use mathlib.Core.Path.{◌≡◌, refl}
use mathlib.Core.Bool.{Bool, true, false}
use mathlib.Core.List.{List, [], ◌∷◌, ◌++◌}
use mathlib.Core.Option.{Option, none, some}
use native.Mathlib.Omega.{arith}
use cowchat4win.Base.Tests.{if◌then◌else◌}
use cowchat4win.Base.Lists.{any}

module _ {ℓ} {A : Type ℓ} where
  -- `SELECT … WHERE p`, where a key makes it one row at most.
  unfoldable pub find_row : (A → Bool) → List A → Option A
  find_row p [] = none
  find_row p (r ∷ rs) = if p r then some r else find_row p rs

  -- `UPDATE … SET f WHERE p`
  unfoldable pub update_where : (A → Bool) → (A → A) → List A → List A
  update_where p f [] = []
  update_where p f (r ∷ rs) = let rest = update_where p f rs in (if p r then f r else r) ∷ rest

  -- `DELETE … WHERE p`
  unfoldable pub delete_where : (A → Bool) → List A → List A
  delete_where p [] = []
  delete_where p (r ∷ rs) = let rest = delete_where p rs in if p r then rest else r ∷ rest

  -- `COUNT(*) … WHERE p`
  unfoldable pub count_where : (A → Bool) → List A → ℕ
  count_where p [] = 0
  count_where p (r ∷ rs) = let rest = count_where p rs in if p r then suc rest else rest

  abbrev pub take : ℕ → List A → List A
  take zero rs = []
  take (suc n) [] = []
  take (suc n) (r ∷ rs) = r ∷ take n rs

  abbrev pub reverse_onto : List A → List A → List A
  reverse_onto acc [] = acc
  reverse_onto acc (r ∷ rs) = reverse_onto (r ∷ acc) rs

  abbrev pub reverse : List A → List A
  reverse rs = reverse_onto [] rs

  -- `ORDER BY`, where `before r s` says that `r` may stand before `s`; equal rows keep their order.
  unfoldable pub insert_ordered : (A → A → Bool) → A → List A → List A
  insert_ordered before r [] = r ∷ []
  insert_ordered before r (s ∷ ss) =
      let rest = insert_ordered before r ss in if before r s then r ∷ s ∷ ss else s ∷ rest

  unfoldable pub order_by : (A → A → Bool) → List A → List A
  unfolding insert_ordered
  order_by before [] = []
  order_by before (r ∷ rs) = insert_ordered before r (order_by before rs)

  pub any-insert_ordered :
      (p : A → Bool) (before : A → A → Bool) (r : A) (rs : List A)
      → any p (insert_ordered before r rs) ≡ (if p r then true else any p rs)
  unfolding insert_ordered
  any-insert_ordered p before r [] = ground arith
  any-insert_ordered p before r (s ∷ ss) = ground (arith, any-insert_ordered p before r ss)

  pub any-order_by :
      (p : A → Bool) (before : A → A → Bool) (rs : List A) → any p (order_by before rs) ≡ any p rs
  unfolding order_by
  any-order_by p before [] = refl
  any-order_by p before (r ∷ rs) =
      ground (arith, any-insert_ordered p before r (order_by before rs), any-order_by p before rs)

  pub any-take : (p : A → Bool) (n : ℕ) (rs : List A) → any p rs ≡ false → any p (take n rs) ≡ false
  any-take p zero rs h = refl
  any-take p (suc n) [] h = refl
  any-take p (suc n) (r ∷ rs) h = ground (arith, h, any-take p n rs (ground (arith, h)))

  pub any-deleted :
      (p q : A → Bool) (rs : List A) → any p rs ≡ false → any p (delete_where q rs) ≡ false
  unfolding delete_where
  any-deleted p q [] h = refl
  any-deleted p q (r ∷ rs) h = ground (arith, h, any-deleted p q rs)

  pub any-delete_where : (p : A → Bool) (rs : List A) → any p (delete_where p rs) ≡ false
  unfolding delete_where
  any-delete_where p [] = refl
  any-delete_where p (r ∷ rs) = ground (arith, any-delete_where p rs)

  pub any-append :
      (p : A → Bool) (rs ss : List A) → any p (rs ++ ss) ≡ (if any p rs then true else any p ss)
  any-append p [] ss = refl
  any-append p (r ∷ rs) ss = ground (arith, any-append p rs ss)
