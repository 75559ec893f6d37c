-- ===== src/Prelude/Rows.antt =====
-- A table as the list of its rows, and the statements that the repositories write on it, read as
-- SQL: a filter, an update of the rows that a condition selects, a count, and the first row of an
-- order. A condition is a Boolean function of a row, and a statement's `rowcount` is a count.
pub mod Counting
pub mod Searching
pub mod Selecting
pub mod Sorting
pub mod Lengths
pub mod Unique
use Prim.Native.Nat.{ℕ, ◌+◌}
use mathlib.Core.Bool.{Bool}
use mathlib.Core.Option.{Option, none, some}
use mathlib.Core.List.{List, [], ◌∷◌}
use unishop_china.Prelude.Tests.{if◌then◌else◌}

module _ {ℓ} {A : Type ℓ} where
  -- `select(...).where(p)`
  unfoldable pub select : (A → Bool) → List A → List A
  select p [] = []
  select p (x ∷ xs) = if p x then x ∷ select p xs else select p xs

  -- `session.scalar(select(...).where(p))`
  unfoldable pub first? : (A → Bool) → List A → Option A
  first? p [] = none
  first? p (x ∷ xs) = if p x then some x else first? p xs

  -- `update(...).where(p).values(...)`
  unfoldable pub update : (A → Bool) → (A → A) → List A → List A
  update p f [] = []
  update p f (x ∷ xs) = (if p x then f x else x) ∷ update p f xs

  -- `select(func.count()).where(p)`, and the `rowcount` of an update
  unfoldable pub count : (A → Bool) → List A → ℕ
  count p [] = 0
  count p (x ∷ xs) = (if p x then 1 else 0) + count p xs

  -- `order_by(...).limit(1)`: the row that no other row precedes
  unfoldable pub top? : (A → A → Bool) → List A → Option A
  top? precedes [] = none
  top? precedes (x ∷ xs) = elim (top? precedes xs) [
    | none ↦ some x
    | some y ↦ some (if precedes y x then y else x)
  ]

  -- A predicate that holds of every row.
  abbrev pub All {κ} : (A → Type κ) → List A → Type κ
  All P [] = Unit
  All P (x ∷ xs) = P x × All P xs
