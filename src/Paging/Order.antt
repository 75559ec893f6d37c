-- ===== src/Paging/Order.antt =====
-- Rows in strict order, and what a filter and a cut make of them.
use unishop_china.Prelude.{
  ◌≡◌, ◌∙◌, refl, sym, ap, Bool, true, false, ◌||◌, List, [], ◌∷◌, ◌++◌, arith, inl, inr,
  Bool-cases,
}
use unishop_china.Prelude.Rows.{select, All}
use unishop_china.Prelude.Rows.Selecting.{All-select, All-map}
use unishop_china.Prelude.Rows.Sorting.{insert, order_by, All-insert, All-order_by}

-- A strict order.
pub record IsStrict {A : Type 0} (lt : A → A → Bool) : Type 0 where
  pub trans : (x y z : A) → lt x y ≡ true → lt y z ≡ true → lt x z ≡ true
  pub irrefl : (x : A) → lt x x ≡ false

module _ {A : Type 0} (lt : A → A → Bool) where
  abbrev pub Sorted : List A → Type 0
  Sorted [] = Unit {0}
  Sorted (x ∷ xs) = All (λ y. lt x y ≡ true) xs × Sorted xs

  -- Any two rows are comparable.
  abbrev pub Apart : List A → Type 0
  Apart [] = Unit {0}
  Apart (x ∷ xs) = All (λ y. (lt x y || lt y x) ≡ true) xs × Apart xs

module _ {A : Type 0} (lt : A → A → Bool) (strict : IsStrict lt) where
  below_head :
      (x y : A) (ys : List A)
      → lt x y ≡ true
      → All (λ z. lt y z ≡ true) ys
      → All (λ z. lt x z ≡ true) ys
  below_head x y ys h a =
      All-map (λ z. lt y z ≡ true) (λ z. lt x z ≡ true) ys (λ z k. strict.trans x y z h k) a

  insert-Sorted :
      (x : A) (ys : List A)
      → All (λ y. (lt x y || lt y x) ≡ true) ys
      → Sorted lt ys
      → Sorted lt (insert lt x ys)
  unfolding insert
  insert-Sorted x [] a s = (tt, tt)
  insert-Sorted x (y ∷ ys) a s = elim (Bool-cases (lt x y)) [
    | inl first ↦ rw first ((first, below_head x y ys first s.0), s)
    | inr later ↦
        let after : lt y x ≡ true = ground arith in
        rw later (All-insert lt (λ z. lt y z ≡ true) x ys after s.0, insert-Sorted x ys a.1 s.1)
  ]

  pub order_by-Sorted : (xs : List A) → Apart lt xs → Sorted lt (order_by lt xs)
  unfolding order_by
  order_by-Sorted [] a = tt
  order_by-Sorted (x ∷ xs) a =
      insert-Sorted x (order_by lt xs) (All-order_by lt _ xs a.0) (order_by-Sorted xs a.1)

  select_gone :
      (q : A → Bool) (x : A) (ys : List A) → q x ≡ false → select q (insert lt x ys) ≡ select q ys
  unfolding select insert
  select_gone q x [] h = rw h
  select_gone q x (y ∷ ys) h = ground (arith, select_gone q x ys h)

  insert_first : (x : A) (ys : List A) → All (λ y. lt x y ≡ true) ys → insert lt x ys ≡ x ∷ ys
  unfolding insert
  insert_first x [] a = refl
  insert_first x (y ∷ ys) a = rw a.0

  select_kept :
      (q : A → Bool) (x : A) (ys : List A)
      → q x ≡ true
      → Sorted lt ys
      → select q (insert lt x ys) ≡ insert lt x (select q ys)
  unfolding select insert
  select_kept q x [] h s = rw h
  select_kept q x (y ∷ ys) h s = elim (Bool-cases (lt x y)) [
    | inl first ↦
        let front =
          insert_first x (select q ys) (All-select _ q ys (below_head x y ys first s.0)) in
        ground (arith, front)
    | inr later ↦ ground (arith, select_kept q x ys h s.1)
  ]

  -- A filter and an order commute.
  pub select-order_by :
      (q : A → Bool) (xs : List A)
      → Apart lt xs
      → order_by lt (select q xs) ≡ select q (order_by lt xs)
  unfolding order_by select
  select-order_by q [] a = refl
  select-order_by q (x ∷ xs) a = elim (Bool-cases (q x)) [
    | inl kept ↦ rw kept (
        ap (insert lt x) (select-order_by q xs a.1)
        ∙ sym (select_kept q x (order_by lt xs) kept (order_by-Sorted xs a.1)))
    | inr gone ↦ rw gone (select-order_by q xs a.1 ∙ sym (select_gone q x (order_by lt xs) gone))
  ]

  pub select-Sorted : (q : A → Bool) (xs : List A) → Sorted lt xs → Sorted lt (select q xs)
  unfolding select
  select-Sorted q [] s = tt
  select-Sorted q (x ∷ xs) s = elim (Bool-cases (q x)) [
    | inl kept ↦ rw kept (All-select _ q xs s.0, select-Sorted q xs s.1)
    | inr gone ↦ rw gone (select-Sorted q xs s.1)
  ]

  select-All : (q : A → Bool) (xs : List A) → All (λ x. q x ≡ true) xs → select q xs ≡ xs
  unfolding select
  select-All q [] a = refl
  select-All q (x ∷ xs) a = rw a.0 (ap (λ ys. x ∷ ys) (select-All q xs a.1))

  pub All-mid {κ} :
      (P : A → Type κ) (front : List A) (x : A) (back : List A) → All P (front ++ (x ∷ back)) → P x
  All-mid P [] x back a = a.0
  All-mid P (y ∷ front) x back a = All-mid P front x back a.1

  not_below : (x y : A) → lt y x ≡ true → lt x y ≡ false
  not_below x y h = elim (Bool-cases (lt x y)) [
    | inr no_lt ↦ no_lt
    | inl k ↦ absurd (ground (arith, strict.trans x y x k h, strict.irrefl x))
  ]

  -- The rows after a row of a sorted list are those behind it.
  pub select_after :
      (front : List A) (x : A) (back : List A)
      → Sorted lt (front ++ (x ∷ back))
      → select (lt x) (front ++ (x ∷ back)) ≡ back
  unfolding select
  select_after [] x back s = rw (strict.irrefl x) (select-All (lt x) back s.0)
  select_after (y ∷ front) x back s = ground (
    arith,
    not_below x y (All-mid (λ z. lt y z ≡ true) front x back s.0),
    select_after front x back s.1,
  )

  pub Apart-select : (q : A → Bool) (xs : List A) → Apart lt xs → Apart lt (select q xs)
  unfolding select
  Apart-select q [] a = tt
  Apart-select q (x ∷ xs) a = elim (Bool-cases (q x)) [
    | inl kept ↦ rw kept (All-select _ q xs a.0, Apart-select q xs a.1)
    | inr gone ↦ rw gone (Apart-select q xs a.1)
  ]

module _ {A : Type 0} where
  pub All-selected : (q : A → Bool) (xs : List A) → All (λ x. q x ≡ true) (select q xs)
  unfolding select
  All-selected q [] = tt
  All-selected q (x ∷ xs) = elim (Bool-cases (q x)) [
    | inl kept ↦ rw kept (kept, All-selected q xs)
    | inr gone ↦ rw gone (All-selected q xs)
  ]

  pub select-select :
      (p q : A → Bool) (xs : List A)
      → ((x : A) → q x ≡ true → p x ≡ true)
      → select q (select p xs) ≡ select q xs
  unfolding select
  select-select p q [] h = refl
  select-select p q (x ∷ xs) h = ground (arith, h x, select-select p q xs h)

  pub select-true : (xs : List A) → select (λ _. true) xs ≡ xs
  unfolding select
  select-true [] = refl
  select-true (x ∷ xs) = ap (λ ys. x ∷ ys) (select-true xs)
