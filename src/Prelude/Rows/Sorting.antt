-- ===== src/Prelude/Rows/Sorting.antt =====
-- `ORDER BY`: the rows of a table in an order, as an insertion sort.
use Prim.Native.Nat.{◌≤◌}
use mathlib.Core.Path.{◌≡◌, refl, ◌∙◌}
use mathlib.Core.Logic.{inl, inr}
use mathlib.Core.Bool.{Bool, true, false}
use mathlib.Core.Option.{none, some}
use mathlib.Core.List.{List, [], ◌∷◌}
use native.Mathlib.Omega.{arith}
use unishop_china.Prelude.Tests.{if◌then◌else◌, Bool-cases}
use unishop_china.Prelude.Rows.{first?, count, All}

module _ {ℓ} {A : Type ℓ} where
  -- Before the first row that it precedes.
  unfoldable pub insert : (A → A → Bool) → A → List A → List A
  insert precedes x [] = x ∷ []
  insert precedes x (y ∷ ys) = if precedes x y then x ∷ y ∷ ys else y ∷ insert precedes x ys

  unfoldable pub order_by : (A → A → Bool) → List A → List A
  order_by precedes [] = []
  order_by precedes (x ∷ xs) = insert precedes x (order_by precedes xs)

module _ {ℓ} {A : Type ℓ} (precedes : A → A → Bool) where
  count-insert :
      (q : A → Bool) (x : A) (xs : List A) → count q (insert precedes x xs) ≡ count q (x ∷ xs)
  unfolding count insert
  count-insert q x [] = refl
  count-insert q x (y ∷ ys) = ground (arith, count-insert q x ys)

  -- Ordering neither loses nor repeats a row.
  pub count-order_by : (q : A → Bool) (xs : List A) → count q (order_by precedes xs) ≡ count q xs
  unfolding count order_by
  count-order_by q [] = refl
  count-order_by q (x ∷ xs) =
      ground (arith, count-insert q x (order_by precedes xs), count-order_by q xs)

  first?-insert_hit :
      (q : A → Bool) (x : A) (xs : List A)
      → q x ≡ true
      → first? q xs ≡ none
      → first? q (insert precedes x xs) ≡ some x
  unfolding first? insert
  first?-insert_hit q x [] h n = ground arith
  first?-insert_hit q x (y ∷ ys) h n = ground (arith, first?-insert_hit q x ys)

  first?-insert_miss :
      (q : A → Bool) (x : A) (xs : List A)
      → q x ≡ false
      → first? q (insert precedes x xs) ≡ first? q xs
  unfolding first? insert
  first?-insert_miss q x [] h = ground arith
  first?-insert_miss q x (y ∷ ys) h = ground (arith, first?-insert_miss q x ys)

  first?-zero : (q : A → Bool) (xs : List A) → count q xs ≡ 0 → first? q xs ≡ none
  unfolding first? count
  first?-zero q [] h = refl
  first?-zero q (x ∷ xs) h = ground (arith, first?-zero q xs)

  -- The one row that satisfies a condition is found in any order.
  pub first?-order_by :
      (q : A → Bool) (xs : List A) → count q xs ≤ 1 → first? q (order_by precedes xs) ≡ first? q xs
  unfolding first? order_by count
  first?-order_by q [] one = refl
  first?-order_by q (x ∷ xs) one = elim (Bool-cases (q x)) [
    | inl hit ↦
        let zero_left : count q (order_by precedes xs) ≡ 0 = count-order_by q xs ∙ ground arith in
        rw
          (
            hit,
            first?-insert_hit q x (order_by precedes xs) hit
                (first?-zero q (order_by precedes xs) zero_left),
          )
          refl
    | inr miss ↦
        rw (miss, first?-insert_miss q x (order_by precedes xs) miss)
          (first?-order_by q xs (ground arith))
  ]

  pub All-insert {κ} :
      (P : A → Type κ) (x : A) (xs : List A) → P x → All P xs → All P (insert precedes x xs)
  unfolding insert
  All-insert P x [] p a = (p, tt)
  All-insert P x (y ∷ ys) p a = elim (Bool-cases (precedes x y)) [
    | inl before ↦ rw before (p, a)
    | inr after ↦ rw after (a.0, All-insert P x ys p a.1)
  ]

  pub All-order_by {κ} : (P : A → Type κ) (xs : List A) → All P xs → All P (order_by precedes xs)
  unfolding order_by
  All-order_by P [] a = tt
  All-order_by P (x ∷ xs) a = All-insert P x (order_by precedes xs) a.0 (All-order_by P xs a.1)
