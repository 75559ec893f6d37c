-- ===== src/Prelude/Rows/Searching.antt =====
-- The first row of an order, disjoint conditions, and updates that select nothing.
use Prim.Native.Nat.{◌+◌, ◌≤◌}
use mathlib.Core.Path.{◌≡◌, refl}
use mathlib.Core.Logic.{◌⊎◌, inl, inr}
use mathlib.Core.Bool.{Bool, true, false}
use mathlib.Core.Option.{none, some}
use mathlib.Core.List.{List, [], ◌∷◌}
use native.Mathlib.Omega.{arith}
use unishop_china.Prelude.Tests.{if◌then◌else◌, Bool-cases, Option-cases}
use unishop_china.Prelude.Rows.{update, count, top?, select, All}
use unishop_china.Prelude.Rows.Counting.{updated}

module _ {ℓ} {A : Type ℓ} where
  -- The first row satisfies the condition that it was selected by.
  pub top?-holds :
      (precedes : A → A → Bool) (q : A → Bool) (xs : List A) (x : A)
      → top? precedes (select q xs) ≡ some x
      → q x ≡ true
  unfolding top? select
  top?-holds precedes q [] x e = absurd (ground arith)
  top?-holds precedes q (y ∷ xs) x e = elim (Option-cases (top? precedes (select q xs))) [
    | inl last ↦ ground arith
    | inr (z, e') ↦ ground (arith, top?-holds precedes q xs z e')
  ]

  -- It is a row of the table.
  pub count-pos-top :
      (precedes : A → A → Bool) (p q : A → Bool) (xs : List A) (x : A)
      → top? precedes (select q xs) ≡ some x
      → p x ≡ true
      → 1 ≤ count p xs
  unfolding top? select count
  count-pos-top precedes p q [] x e h = absurd (ground arith)
  count-pos-top precedes p q (y ∷ xs) x e h = elim (Option-cases (top? precedes (select q xs))) [
    | inl last ↦ ground (arith, h)
    | inr (z, e') ↦ ground (arith, h, count-pos-top precedes p q xs z e')
  ]

  pub top?-none :
      (precedes : A → A → Bool) (q : A → Bool) (xs : List A)
      → count q xs ≡ 0
      → top? precedes (select q xs) ≡ none
  unfolding top? select count
  top?-none precedes q [] e = refl
  top?-none precedes q (x ∷ xs) e = ground (arith, top?-none precedes q xs)

  pub count-update_imp :
      (p q r : A → Bool) (f : A → A) (xs : List A)
      → ((x : A) → p (updated q f x) ≡ true → r x ≡ true)
      → count p (update q f xs) ≤ count r xs
  unfolding count update
  count-update_imp p q r f [] h = omega arith
  count-update_imp p q r f (x ∷ xs) h = ground (arith, h x, count-update_imp p q r f xs h)

  pub update-none : (q : A → Bool) (f : A → A) (xs : List A) → count q xs ≡ 0 → update q f xs ≡ xs
  unfolding count update
  update-none q f [] h = refl
  update-none q f (x ∷ xs) h = ground (arith, update-none q f xs)

  -- Conditions that exclude each other and imply a third.
  pub count-add-le :
      (p q r : A → Bool) (xs : List A)
      → ((x : A) → p x ≡ true → q x ≡ false)
      → ((x : A) → p x ≡ true → r x ≡ true)
      → ((x : A) → q x ≡ true → r x ≡ true)
      → count p xs + count q xs ≤ count r xs
  unfolding count
  count-add-le p q r [] d hp hq = omega arith
  count-add-le p q r (x ∷ xs) d hp hq =
      ground (arith, d x, hp x, hq x, count-add-le p q r xs d hp hq)

  pub All-update_if {κ} :
      (P : A → Type κ) (q : A → Bool) (f : A → A) (xs : List A)
      → ((x : A) → q x ≡ true → P x → P (f x))
      → All P xs
      → All P (update q f xs)
  unfolding update
  All-update_if P q f [] keep h = tt
  All-update_if P q f (x ∷ xs) keep h = (go (Bool-cases (q x)), All-update_if P q f xs keep h.1)
    where
      go : (q x ≡ true) ⊎ (q x ≡ false) → P (if q x then f x else x)
      go (inl e) = rw e (keep x e h.0)
      go (inr e) = rw e h.0

  -- An update that leaves the condition and the order as they are moves the first row along.
  pub top?-update :
      (precedes : A → A → Bool) (q p : A → Bool) (f : A → A) (xs : List A)
      → ((x : A) → q (updated p f x) ≡ q x)
      → ((x y : A) → precedes (updated p f x) (updated p f y) ≡ precedes x y)
      → (top? precedes (select q xs) ≡ none → top? precedes (select q (update p f xs)) ≡ none)
        × ((y : A)
            → top? precedes (select q xs) ≡ some y
            → top? precedes (select q (update p f xs)) ≡ some (updated p f y))
  unfolding top? select update
  top?-update precedes q p f [] h g = (λ e. refl, λ y e. absurd (ground arith))
  top?-update precedes q p f (x ∷ xs) h g =
      let (empty, first) = top?-update precedes q p f xs h g in
      elim (Option-cases (top? precedes (select q xs))) [
        | inl last ↦ (λ e. ground (arith, h x, empty last), λ y e. ground (arith, h x, empty last))
        | inr (z, e') ↦
            (λ e. ground (arith, h x, first z e'), λ y e. ground (arith, h x, first z e', g z x))
      ]
