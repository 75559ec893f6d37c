-- ===== src/Prelude/Rows/Selecting.antt =====
-- What a filter leaves of a table.
use Prim.Native.Nat.{◌≤◌}
use mathlib.Core.Path.{◌≡◌, refl}
use mathlib.Core.Logic.{inl, inr}
use mathlib.Core.Bool.{Bool, true, false}
use mathlib.Core.Option.{none, some}
use mathlib.Core.List.{List, [], ◌∷◌}
use native.Mathlib.Omega.{arith}
use unishop_china.Prelude.Tests.{Bool-cases}
use unishop_china.Prelude.Rows.{update, select, first?, count, All}
use unishop_china.Prelude.Rows.Counting.{count-zero-first}

module _ {ℓ} {A : Type ℓ} where
  pub count-select_le : (q p : A → Bool) (xs : List A) → count q (select p xs) ≤ count q xs
  unfolding count select
  count-select_le q p [] = omega arith
  count-select_le q p (x ∷ xs) = ground (arith, count-select_le q p xs)

  -- An update of other rows leaves the rows of a condition as they are.
  pub select-update_other :
      (p q : A → Bool) (f : A → A) (xs : List A)
      → ((x : A) → q x ≡ true → p x ≡ false)
      → ((x : A) → q x ≡ true → p (f x) ≡ false)
      → select p (update q f xs) ≡ select p xs
  unfolding select update
  select-update_other p q f [] out stay = refl
  select-update_other p q f (x ∷ xs) out stay =
      ground (arith, out x, stay x, select-update_other p q f xs out stay)

  pub All-select {κ} :
      (P : A → Type κ) (p : A → Bool) (xs : List A) → All P xs → All P (select p xs)
  unfolding select
  All-select P p [] a = tt
  All-select P p (x ∷ xs) a = elim (Bool-cases (p x)) [
    | inl kept ↦ rw kept (a.0, All-select P p xs a.1)
    | inr gone ↦ rw gone (All-select P p xs a.1)
  ]

  -- A row that was not found is not found in less.
  pub first?-select-none :
      (q p : A → Bool) (xs : List A) → first? q xs ≡ none → first? q (select p xs) ≡ none
  unfolding first? select
  first?-select-none q p [] e = refl
  first?-select-none q p (x ∷ xs) e = ground (arith, first?-select-none q p xs)

  -- The one row that satisfies a condition is found if the filter keeps it.
  pub first?-select_kept :
      (q p : A → Bool) (xs : List A) (y : A)
      → first? q xs ≡ some y
      → p y ≡ true
      → first? q (select p xs) ≡ some y
  unfolding first? select
  first?-select_kept q p [] y e h = absurd (ground arith)
  first?-select_kept q p (x ∷ xs) y e h = ground (arith, first?-select_kept q p xs y)

  pub first?-select_gone :
      (q p : A → Bool) (xs : List A) (y : A)
      → count q xs ≤ 1
      → first? q xs ≡ some y
      → p y ≡ false
      → first? q (select p xs) ≡ none
  unfolding first? select count
  first?-select_gone q p [] y one e h = refl
  first?-select_gone q p (x ∷ xs) y one e h = elim (Bool-cases (q x)) [
    | inl hit ↦ ground (arith, first?-select-none q p xs, count-zero-first q xs)
    | inr miss ↦ ground (arith, first?-select_gone q p xs y)
  ]

  -- Conditions that agree find the same row.
  pub first?-eq : (p q : A → Bool) (xs : List A) → ((x : A) → p x ≡ q x) → first? p xs ≡ first? q xs
  unfolding first?
  first?-eq p q [] h = refl
  first?-eq p q (x ∷ xs) h = ground (arith, h x, first?-eq p q xs h)

  -- Where no row was found, no row satisfies the condition.
  pub All-not_found : (q : A → Bool) (xs : List A) → first? q xs ≡ none → All (λ x. q x ≡ false) xs
  unfolding first?
  All-not_found q [] e = tt
  All-not_found q (x ∷ xs) e = elim (Bool-cases (q x)) [
    | inl hit ↦ absurd (ground arith)
    | inr miss ↦ (miss, All-not_found q xs (ground arith))
  ]

  pub All-zip {κ ν μ} :
      (P : A → Type κ) (Q : A → Type ν) (R : A → Type μ) (xs : List A)
      → ((x : A) → P x → Q x → R x)
      → All P xs
      → All Q xs
      → All R xs
  All-zip P Q R [] h p q = tt
  All-zip P Q R (x ∷ xs) h p q = (h x p.0 q.0, All-zip P Q R xs h p.1 q.1)

  pub All-map {κ μ} :
      (P : A → Type κ) (R : A → Type μ) (xs : List A) → ((x : A) → P x → R x) → All P xs → All R xs
  All-map P R [] h p = tt
  All-map P R (x ∷ xs) h p = (h x p.0, All-map P R xs h p.1)
