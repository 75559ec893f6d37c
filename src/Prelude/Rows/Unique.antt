-- ===== src/Prelude/Rows/Unique.antt =====
-- Statements on the one row that satisfies a condition, as on a primary key.
use Prim.Native.Nat.{◌≤◌}
use mathlib.Core.Path.{◌≡◌, sym, subst}
use mathlib.Core.Logic.{inl, inr}
use mathlib.Core.Bool.{Bool, true}
use mathlib.Core.Option.{some}
use mathlib.Core.List.{List, [], ◌∷◌}
use native.Mathlib.Omega.{arith}
use unishop_china.Prelude.Tests.{Bool-cases, Option-cases}
use unishop_china.Prelude.Rows.{select, first?, update, count, top?, All}
use unishop_china.Prelude.Rows.Counting.{count-pos}
use unishop_china.Prelude.Rows.Searching.{count-pos-top}

module _ {ℓ} {A : Type ℓ} where
  -- Every row that satisfies the condition is this one.
  abbrev pub Only : (A → Bool) → A → List A → Type ℓ
  Only q x xs = All (λ y. q y ≡ true → y ≡ x) xs

module _ {ℓ} {A : Type ℓ} where
  count-zero-Only : (q : A → Bool) (x : A) (xs : List A) → count q xs ≡ 0 → Only q x xs
  unfolding count
  count-zero-Only q x [] z = tt
  count-zero-Only q x (y ∷ xs) z =
      ((λ h. absurd (ground arith)), count-zero-Only q x xs (ground arith))

  pub first?-Only :
      (q r : A → Bool) (xs : List A) (x : A)
      → count q xs ≤ 1
      → first? r xs ≡ some x
      → q x ≡ true
      → Only q x xs
  unfolding count first?
  first?-Only q r [] x one e h = tt
  first?-Only q r (y ∷ xs) x one e h = elim (Bool-cases (r y)) [
    | inl hit ↦
        let same : y ≡ x = ground arith in
        (
          (λ g. same),
          count-zero-Only q x xs
              (subst (λ z. q z ≡ true → count q xs ≡ 0) same (λ g. ground arith) h),
        )
    | inr miss ↦ (
      (λ g. absurd (ground (arith, count-pos q r xs x))),
      first?-Only q r xs x (ground arith) (ground arith) h,
    )
  ]

  pub top?-Only :
      (precedes : A → A → Bool) (q r : A → Bool) (xs : List A) (x : A)
      → count q xs ≤ 1
      → top? precedes (select r xs) ≡ some x
      → q x ≡ true
      → Only q x xs
  unfolding count top? select
  top?-Only precedes q r [] x one e h = tt
  top?-Only precedes q r (y ∷ xs) x one e h = elim (Bool-cases (r y)) [
    | inr miss ↦ (
      (λ g. absurd (ground (arith, count-pos-top precedes q r xs x))),
      top?-Only precedes q r xs x (ground arith) (ground arith) h,
    )
    | inl hit ↦ elim (Option-cases (top? precedes (select r xs))) [
      | inl single ↦
          let same : y ≡ x = ground arith in
          (
            (λ g. same),
            count-zero-Only q x xs
                (subst (λ z. q z ≡ true → count q xs ≡ 0) same (λ g. ground arith) h),
          )
      | inr (z, e') ↦ elim (Bool-cases (precedes z y)) [
        | inr after ↦
            let same : y ≡ x = ground arith in
            (
              (λ g. same),
              count-zero-Only q x xs
                  (subst (λ w. q w ≡ true → count q xs ≡ 0) same (λ g. ground arith) h),
            )
        | inl before ↦
            let found : top? precedes (select r xs) ≡ some x = ground arith in
            (
              (λ g. absurd (ground (arith, count-pos-top precedes q r xs x found h))),
              top?-Only precedes q r xs x (ground arith) found h,
            )
      ]
    ]
  ]

  pub count-update-Only :
      (p q : A → Bool) (f : A → A) (x : A) (xs : List A)
      → Only q x xs
      → (p (f x) ≡ true → p x ≡ true)
      → count p (update q f xs) ≤ count p xs
  unfolding count update
  count-update-Only p q f x [] o h = omega arith
  count-update-Only p q f x (y ∷ xs) o h = elim (Bool-cases (q y)) [
    | inl hit ↦
        let g : p (f y) ≡ true → p y ≡ true =
          subst (λ z. p (f z) ≡ true → p z ≡ true) (sym (o.0 hit)) h in
        ground (arith, g, count-update-Only p q f x xs o.1 h)
    | inr miss ↦ ground (arith, count-update-Only p q f x xs o.1 h)
  ]

  pub All-update-Only {κ} :
      (P : A → Type κ) (q : A → Bool) (f : A → A) (x : A) (xs : List A)
      → Only q x xs
      → (P x → P (f x))
      → All P xs
      → All P (update q f xs)
  unfolding update
  All-update-Only P q f x [] o h a = tt
  All-update-Only P q f x (y ∷ xs) o h a = elim (Bool-cases (q y)) [
    | inl hit ↦
        rw hit
          (subst (λ z. P z → P (f z)) (sym (o.0 hit)) h a.0, All-update-Only P q f x xs o.1 h a.1)
    | inr miss ↦ rw miss (a.0, All-update-Only P q f x xs o.1 h a.1)
  ]

  -- Found by one condition, a row is found by another that it alone satisfies.
  pub first?-own :
      (q r : A → Bool) (xs : List A) (x : A)
      → count q xs ≤ 1
      → first? r xs ≡ some x
      → q x ≡ true
      → first? q xs ≡ some x
  unfolding count first?
  first?-own q r [] x one e h = absurd (ground arith)
  first?-own q r (y ∷ xs) x one e h = elim (Bool-cases (r y)) [
    | inl hit ↦
        let same : y ≡ x = ground arith in
        let holds : q y ≡ true = subst (λ z. q z ≡ true) (sym same) h in ground arith
    | inr miss ↦ elim (Bool-cases (q y)) [
      | inl twice ↦ absurd (ground (arith, count-pos q r xs x))
      | inr other ↦ ground (arith, first?-own q r xs x)
    ]
  ]
