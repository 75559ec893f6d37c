-- ===== src/Prelude/Rows/Lengths.antt =====
-- The lengths of filtered, ordered and cut tables, and rows that are found because they are counted.
use Prim.Native.Nat.{ℕ, zero, suc, ◌≤◌, ◌<◌}
use mathlib.Core.Path.{◌≡◌, refl, ap}
use mathlib.Core.Logic.{inl, inr}
use mathlib.Core.Bool.{Bool, true, ◌&&◌}
use mathlib.Core.List.{List, [], ◌∷◌}
use native.Mathlib.Omega.{arith}
use unishop_china.Prelude.Tests.{is_some, length, take, Option-cases}
use unishop_china.Prelude.Rows.{select, first?, count}
use unishop_china.Prelude.Rows.Counting.{count-pos, first?-holds}
use unishop_china.Prelude.Rows.Sorting.{insert, order_by}

module _ {ℓ} {A : Type ℓ} where
  pub length-select : (q : A → Bool) (xs : List A) → length (select q xs) ≡ count q xs
  unfolding select count
  length-select q [] = refl
  length-select q (x ∷ xs) = ground (arith, length-select q xs)

  pub length-take_lt : (n m : ℕ) (xs : List A) → m ≤ n → length (take n xs) < m → length xs < m
  length-take_lt zero m xs h k = absurd (omega arith)
  length-take_lt (suc n) m [] h k = k
  length-take_lt (suc n) zero (x ∷ xs) h k = absurd (omega arith)
  length-take_lt (suc n) (suc m) (x ∷ xs) h k =
      omega (arith, length-take_lt n m xs (omega arith) (omega arith))

  pub take_whole : (n : ℕ) (xs : List A) → length xs ≤ n → take n xs ≡ xs
  take_whole zero [] h = refl
  take_whole zero (x ∷ xs) h = absurd (omega arith)
  take_whole (suc n) [] h = refl
  take_whole (suc n) (x ∷ xs) h = ap (λ ys. x ∷ ys) (take_whole n xs (omega arith))

  pub take-found :
      (q : A → Bool) (n : ℕ) (xs : List A) → is_some (first? q (take n xs)) ≡ true → 1 ≤ count q xs
  unfolding first? count
  take-found q zero xs h = absurd (cc)
  take-found q (suc n) [] h = absurd (cc)
  take-found q (suc n) (x ∷ xs) h = ground (arith, take-found q n xs)

  pub count-both :
      (p q : A → Bool) (xs : List A) → count q (select p xs) ≡ count (λ x. p x && q x) xs
  unfolding select count
  count-both p q [] = refl
  count-both p q (x ∷ xs) = ground (arith, count-both p q xs)

  pub found-count : (q : A → Bool) (xs : List A) → 1 ≤ count q xs → is_some (first? q xs) ≡ true
  unfolding first? count
  found-count q [] h = absurd (omega arith)
  found-count q (x ∷ xs) h = ground (arith, found-count q xs)

  pub length-insert :
      (lt : A → A → Bool) (x : A) (xs : List A) → length (insert lt x xs) ≡ suc (length xs)
  unfolding insert
  length-insert lt x [] = refl
  length-insert lt x (y ∷ ys) = ground (arith, length-insert lt x ys)

  pub length-order_by : (lt : A → A → Bool) (xs : List A) → length (order_by lt xs) ≡ length xs
  unfolding order_by
  length-order_by lt [] = refl
  length-order_by lt (x ∷ xs) =
      omega (arith, length-insert lt x (order_by lt xs), length-order_by lt xs)

  -- A row that is found is counted.
  pub is_some-count : (q : A → Bool) (xs : List A) → is_some (first? q xs) ≡ true → 1 ≤ count q xs
  is_some-count q xs e = elim (Option-cases (first? q xs)) [
    | inl missing ↦ absurd (ground (arith, e))
    | inr (x, f) ↦ count-pos q q xs x f (first?-holds q xs x f)
  ]
