-- ===== src/Prelude/Rows/Counting.antt =====
-- How the count of the rows that satisfy a condition moves under the statements of Rows.
use Prim.Native.Nat.{◌≤◌, ◌<◌}
use mathlib.Core.Path.{◌≡◌, refl, subst}
use mathlib.Core.Logic.{inl, inr}
use mathlib.Core.Bool.{Bool, true, false}
use mathlib.Core.Option.{none, some}
use mathlib.Core.List.{List, [], ◌∷◌}
use native.Mathlib.Omega.{arith}
use unishop_china.Prelude.Tests.{if◌then◌else◌, Bool-cases}
use unishop_china.Prelude.Rows.{first?, update, count, All}

module _ {ℓ} {A : Type ℓ} where
  -- What an update does to one row.
  abbrev pub updated : (A → Bool) → (A → A) → A → A
  updated p f x = if p x then f x else x

module _ {ℓ} {A : Type ℓ} where
  pub count-le :
      (p q : A → Bool) (xs : List A) → ((x : A) → p x ≡ true → q x ≡ true) → count p xs ≤ count q xs
  unfolding count
  count-le p q [] h = omega arith
  count-le p q (x ∷ xs) h = ground (arith, h x, count-le p q xs h)

  pub count-eq : (p q : A → Bool) (xs : List A) → ((x : A) → p x ≡ q x) → count p xs ≡ count q xs
  unfolding count
  count-eq p q [] h = refl
  count-eq p q (x ∷ xs) h = ground (arith, h x, count-eq p q xs h)

  pub count-update_eq :
      (p q : A → Bool) (f : A → A) (xs : List A)
      → ((x : A) → p (updated q f x) ≡ p x)
      → count p (update q f xs) ≡ count p xs
  unfolding count update
  count-update_eq p q f [] h = refl
  count-update_eq p q f (x ∷ xs) h = ground (arith, h x, count-update_eq p q f xs h)

  pub count-update_le :
      (p q : A → Bool) (f : A → A) (xs : List A)
      → ((x : A) → p (updated q f x) ≡ true → p x ≡ true)
      → count p (update q f xs) ≤ count p xs
  unfolding count update
  count-update_le p q f [] h = omega arith
  count-update_le p q f (x ∷ xs) h = ground (arith, h x, count-update_le p q f xs h)

  pub count-update_zero :
      (p q : A → Bool) (f : A → A) (xs : List A)
      → ((x : A) → p (updated q f x) ≡ false)
      → count p (update q f xs) ≡ 0
  unfolding count update
  count-update_zero p q f [] h = refl
  count-update_zero p q f (x ∷ xs) h = ground (arith, h x, count-update_zero p q f xs h)

  -- A row that was found counts.
  pub count-pos :
      (p q : A → Bool) (xs : List A) (x : A) → first? q xs ≡ some x → p x ≡ true → 1 ≤ count p xs
  unfolding count first?
  count-pos p q [] x e h = absurd (ground arith)
  count-pos p q (y ∷ xs) x e h = ground (arith, count-pos p q xs x)

  -- The row found satisfies the condition that it was found by.
  pub first?-holds : (q : A → Bool) (xs : List A) (x : A) → first? q xs ≡ some x → q x ≡ true
  unfolding first?
  first?-holds q [] x e = absurd (ground arith)
  first?-holds q (y ∷ xs) x e = ground (arith, first?-holds q xs x)

  -- An update that takes the row found out of the count lowers the count.
  pub count-update_lt :
      (p q r : A → Bool) (f : A → A) (xs : List A) (x : A)
      → ((y : A) → p (updated q f y) ≡ true → p y ≡ true)
      → first? r xs ≡ some x
      → p x ≡ true
      → p (updated q f x) ≡ false
      → count p (update q f xs) < count p xs
  unfolding count update first?
  count-update_lt p q r f [] x mono e h g = absurd (ground arith)
  count-update_lt p q r f (y ∷ xs) x mono e h g = elim (Bool-cases (r y)) [
    | inl hit ↦ ground (arith, mono y, count-update_le p q f xs mono)
    | inr miss ↦ ground (arith, mono y, count-update_lt p q r f xs x mono)
  ]

  pub count-zero-first : (q : A → Bool) (xs : List A) → count q xs ≡ 0 → first? q xs ≡ none
  unfolding count first?
  count-zero-first q [] h = refl
  count-zero-first q (x ∷ xs) h = ground (arith, count-zero-first q xs)

  -- What every row satisfies, a row found satisfies.
  pub All-first? {κ} :
      (P : A → Type κ) (q : A → Bool) (xs : List A) (x : A) → All P xs → first? q xs ≡ some x → P x
  unfolding first?
  All-first? P q [] x h e = absurd (ground arith)
  All-first? P q (y ∷ xs) x h e = elim (Bool-cases (q y)) [
    | inl hit ↦ subst P (ground arith) h.0
    | inr miss ↦ All-first? P q xs x h.1 (ground arith)
  ]

  pub All-update {κ} :
      (P : A → Type κ) (q : A → Bool) (f : A → A) (xs : List A)
      → ((x : A) → P x → P (f x))
      → All P xs
      → All P (update q f xs)
  unfolding update
  All-update P q f [] keep h = tt
  All-update P q f (x ∷ xs) keep h = (go (q x), All-update P q f xs keep h.1)
    where
      go : (b : Bool) → P (if b then f x else x)
      go true = keep x h.0
      go false = h.0

  pub count-none : (q : A → Bool) (xs : List A) → first? q xs ≡ none → count q xs ≡ 0
  unfolding count first?
  count-none q [] h = refl
  count-none q (x ∷ xs) h = ground (arith, count-none q xs)

  -- An update that leaves a condition as it is moves the row found along.
  pub first?-update :
      (q p : A → Bool) (f : A → A) (xs : List A) (y : A)
      → ((x : A) → q (updated p f x) ≡ q x)
      → first? q xs ≡ some y
      → first? q (update p f xs) ≡ some (updated p f y)
  unfolding first? update
  first?-update q p f [] y h e = absurd (ground arith)
  first?-update q p f (x ∷ xs) y h e = ground (arith, h x, first?-update q p f xs y h)

  -- An update of other rows leaves the row found.
  pub first?-update_other :
      (q p : A → Bool) (f : A → A) (xs : List A)
      → ((x : A) → q (updated p f x) ≡ q x)
      → ((x : A) → q x ≡ true → p x ≡ false)
      → first? q (update p f xs) ≡ first? q xs
  unfolding first? update
  first?-update_other q p f [] h d = refl
  first?-update_other q p f (x ∷ xs) h d =
      ground (arith, h x, d x, first?-update_other q p f xs h d)
