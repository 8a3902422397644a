-- ===== src/Base/Order.antt =====
-- `ORDER BY` and Python's `sorted`, both stable here: an insertion sort by a strict comparison.
use Prim.Native.Nat.{ℕ, zero, suc}
use mathlib.Core.Path.{◌≡◌, refl, ap, ◌∙◌}
use mathlib.Core.Logic.{inl, inr}
use mathlib.Core.Bool.{Bool, true, false, ◌&&◌, ◌||◌}
use mathlib.Core.Option.{Option, none, some}
use mathlib.Core.List.{List, [], ◌∷◌}
use native.Mathlib.Omega.{arith}
use dewflow.Base.Tests.{ltb, ◌==◌, if◌then◌else◌, Bool-cases}
use dewflow.Base.Lists.{length, take, All, take-All}

-- The order by a time that may be NULL, NULL last, and then by `earlier_id`.
abbrev pub precedes_at : Option ℕ → Option ℕ → Bool → Bool
precedes_at none none earlier_id = earlier_id
precedes_at none (some b) earlier_id = false
precedes_at (some a) none earlier_id = true
precedes_at (some a) (some b) earlier_id = ltb a b || a == b && earlier_id

module _ {ℓ} {A : Type ℓ} (before : A → A → Bool) where
  unfoldable pub insert : A → List A → List A
  insert r [] = r ∷ []
  insert r (x ∷ xs) = if before x r then x ∷ insert r xs else r ∷ x ∷ xs

  unfoldable pub order_by : List A → List A
  unfolding insert
  order_by [] = []
  order_by (r ∷ rs) = insert r (order_by rs)

  -- No later element comes strictly before an earlier one.
  abbrev pub IsOrdered : List A → Type ℓ
  IsOrdered [] = Unit
  IsOrdered (r ∷ rs) = All (λ x. before x r ≡ false) rs × IsOrdered rs

  insert-All {κ} : (P : A → Type κ) (r : A) (rs : List A) → P r → All P rs → All P (insert r rs)
  unfolding insert
  insert-All P r [] p h = (p, tt)
  insert-All P r (x ∷ rs) p h = elim (Bool-cases (before x r)) [
    | inl e ↦ rw e (h.0, insert-All P r rs p h.1)
    | inr e ↦ rw e (p, h)
  ]

  pub order_by-All {κ} : (P : A → Type κ) (rs : List A) → All P rs → All P (order_by rs)
  unfolding order_by
  order_by-All P [] h = tt
  order_by-All P (r ∷ rs) h = insert-All P r (order_by rs) h.0 (order_by-All P rs h.1)

  length-insert : (r : A) (rs : List A) → length (insert r rs) ≡ suc (length rs)
  unfolding insert
  length-insert r [] = refl
  length-insert r (x ∷ rs) = ground (arith, length-insert r rs)

  pub length-order_by : (rs : List A) → length (order_by rs) ≡ length rs
  unfolding order_by
  length-order_by [] = refl
  length-order_by (r ∷ rs) = length-insert r (order_by rs) ∙ ap suc (length-order_by rs)

  pub take-IsOrdered : (n : ℕ) (rs : List A) → IsOrdered rs → IsOrdered (take n rs)
  take-IsOrdered zero rs h = tt
  take-IsOrdered (suc n) [] h = tt
  take-IsOrdered (suc n) (r ∷ rs) h =
      (take-All (λ x. before x r ≡ false) n rs h.0, take-IsOrdered n rs h.1)

-- Of a strict weak order, sorting makes an ordered list.
module _ {ℓ} {A : Type ℓ} (before : A → A → Bool)
    (asym : (a b : A) → before a b ≡ true → before b a ≡ false)
    (later : (a b c : A) → before a b ≡ false → before b c ≡ false → before a c ≡ false) where
  All-later :
      (r x : A) (rs : List A)
      → before x r ≡ false
      → All (λ y. before y x ≡ false) rs
      → All (λ y. before y r ≡ false) rs
  All-later r x [] e h = tt
  All-later r x (y ∷ rs) e h = (later y x r h.0 e, All-later r x rs e h.1)

  insert-IsOrdered :
      (r : A) (rs : List A) → IsOrdered before rs → IsOrdered before (insert before r rs)
  unfolding insert
  insert-IsOrdered r [] h = (tt, tt)
  insert-IsOrdered r (x ∷ rs) h = elim (Bool-cases (before x r)) [
    | inl e ↦ rw e (
      insert-All before (λ y. before y x ≡ false) r rs (asym x r e) h.0,
      insert-IsOrdered r rs h.1,
    )
    | inr e ↦ rw e ((e, All-later r x rs e h.0), h)
  ]

  pub order_by-IsOrdered : (rs : List A) → IsOrdered before (order_by before rs)
  unfolding order_by
  order_by-IsOrdered [] = tt
  order_by-IsOrdered (r ∷ rs) = insert-IsOrdered r (order_by before rs) (order_by-IsOrdered rs)
