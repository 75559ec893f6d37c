-- ===== src/Paging/Walk.antt =====
-- A client that follows the cursors of its pages.
use unishop_china.Prelude.{
  ℕ, zero, suc, ◌+◌, ◌≤◌, ◌<◌, ◌≡◌, ◌∙◌, refl, sym, subst, ap, Bool, true, false, Option, none,
  some, List, [], ◌∷◌, ◌++◌, arith, inl, inr, Bool-cases, length, ltb, take,
}
use mathlib.Core.List.{append_assoc}
use unishop_china.Prelude.Rows.{select, All}
use unishop_china.Prelude.Rows.Sorting.{order_by}
use unishop_china.Prelude.Rows.Lengths.{length-order_by}
use unishop_china.Paging.Keyset.{
  Position, before, last?, precedes, is_after, page, Page, cut, list_page, walk,
}
use unishop_china.Paging.Order.{
  IsStrict, Sorted, Apart, order_by-Sorted, select-order_by, select_after, All-mid, Apart-select,
  All-selected, select-select, select-true,
}

pub before-IsStrict :
    {A : Type 0} (position : A → Position) (ascending : Bool)
    → IsStrict (precedes position ascending)
unfolding precedes before
before-IsStrict position true = record {
  trans = λ x y z h k. ground arith;
  irrefl = λ x. ground arith;
}
before-IsStrict position false = record {
  trans = λ x y z h k. ground arith;
  irrefl = λ x. ground arith;
}

module _ {A : Type 0} where
  take-take : (n : ℕ) (xs : List A) → take n (take (suc n) xs) ≡ take n xs
  take-take zero xs = refl
  take-take (suc n) [] = refl
  take-take (suc n) (x ∷ xs) = ap (λ ys. x ∷ ys) (take-take n xs)

  ltb-take : (n : ℕ) (xs : List A) → ltb n (length (take (suc n) xs)) ≡ ltb n (length xs)
  ltb-take zero [] = refl
  ltb-take zero (x ∷ xs) = ground arith
  ltb-take (suc n) [] = refl
  ltb-take (suc n) (x ∷ xs) = ground (arith, ltb-take n xs)

  take_all : (n : ℕ) (xs : List A) → length xs ≤ n → take n xs ≡ xs
  take_all zero [] h = refl
  take_all zero (x ∷ xs) h = absurd (omega arith)
  take_all (suc n) [] h = refl
  take_all (suc n) (x ∷ xs) h = ap (λ ys. x ∷ ys) (take_all n xs (omega arith))

  -- A list that is longer than a page: the page, its last row, and what is behind it.
  record IsCut (n : ℕ) (xs : List A) : Type 0 where
    front : List A
    last : A
    back : List A
    whole : xs ≡ front ++ (last ∷ back)
    head : take n xs ≡ front ++ (last ∷ [])
    found : last? (take n xs) ≡ some last
    shorter : length back < length xs

  cut_lem : (n : ℕ) (xs : List A) → suc n ≤ length xs → IsCut (suc n) xs
  cut_lem n [] h = absurd (omega arith)
  cut_lem zero (x ∷ xs) h = record {
    front = [];
    last = x;
    back = xs;
    whole = refl;
    head = refl;
    found = refl;
    shorter = omega arith;
  }
  cut_lem (suc n) (x ∷ xs) h =
      let c = cut_lem n xs (omega arith) in
      record {
        front = x ∷ c.front;
        last = c.last;
        back = c.back;
        whole = ap (λ ys. x ∷ ys) c.whole;
        head = ap (λ ys. x ∷ ys) c.head;
        found = ground (arith, c.found);
        shorter = omega (arith, c.shorter);
      }

module _ {A : Type 0} (position : A → Position) (ascending : Bool) (rows : List A)
    (apart : Apart (precedes position ascending) rows) where
  -- The rows that a walk from a position still has to show.
  rest : Option Position → List A
  rest start =
      order_by (precedes position ascending) (select (is_after position ascending start) rows)

  rest-Sorted : (start : Option Position) → Sorted (precedes position ascending) (rest start)
  unfolding rest
  rest-Sorted start =
      order_by-Sorted (precedes position ascending) (before-IsStrict position ascending) _ (
        Apart-select (precedes position ascending) (before-IsStrict position ascending)
          (is_after position ascending start) rows apart)

  rest-select :
      (start : Option Position)
      → rest start
        ≡ select (is_after position ascending start) (order_by (precedes position ascending) rows)
  unfolding rest
  rest-select start =
      select-order_by (precedes position ascending) (before-IsStrict position ascending)
        (is_after position ascending start) rows apart

  after_lem :
      (start : Option Position) (a x : A)
      → is_after position ascending start a ≡ true
      → precedes position ascending a x ≡ true
      → is_after position ascending start x ≡ true
  unfolding is_after precedes before
  after_lem none a x h k = refl
  after_lem (some p) a x h k = go ascending h k
    where
      go :
          (up : Bool)
          → before up p (position a) ≡ true
          → before up (position a) (position x) ≡ true
          → before up p (position x) ≡ true
      go true h k = ground arith
      go false h k = ground arith

  -- The next page starts behind the last row of this one.
  next_rest :
      (start : Option Position) (front : List A) (a : A) (back : List A)
      → rest start ≡ front ++ (a ∷ back)
      → rest (some (position a)) ≡ back
  next_rest start front a back e =
      let whole = order_by (precedes position ascending) rows in
      let chosen =
        All-mid (precedes position ascending) (before-IsStrict position ascending)
          (λ x. is_after position ascending start x ≡ true) front a back
          (subst (All (λ x. is_after position ascending start x ≡ true))
            (sym (rest-select start) ∙ e)
            (All-selected (is_after position ascending start) whole)) in
      rest-select (some (position a))
      ∙ after_row a whole
      ∙ sym (
          select-select (is_after position ascending start) (precedes position ascending a) whole
            (λ x k. after_lem start a x chosen k))
      ∙ ap (select (precedes position ascending a)) (sym (rest-select start) ∙ e)
      ∙ select_after (precedes position ascending) (before-IsStrict position ascending) front a back
          (subst (Sorted (precedes position ascending)) e (rest-Sorted start))
    where
      after_row :
          (a : A) (xs : List A)
          → select (is_after position ascending (some (position a))) xs
            ≡ select (precedes position ascending a) xs
      after_row a xs = unfold is_after precedes in refl

  page_lem :
      (limit : ℕ) (start : Option Position)
      → list_page position ascending limit start rows
        ≡ cut position ascending limit (take (suc limit) (rest start))
  unfolding list_page page rest
  page_lem limit start =
      let next : limit + 1 ≡ suc limit = omega arith in
      ap (λ k. cut position ascending limit (take k (rest start))) next

  cut_short :
      (m : ℕ) (r : List A)
      → ltb m (length r) ≡ false
      → cut position ascending m (take (suc m) r) ≡ record { emitted = r; next = none }
  unfolding cut
  cut_short m r h = ground (arith, take-take m r, ltb-take m r, take_all m r (ground arith))

  cut_long :
      (m : ℕ) (r : List A) (c : IsCut m r)
      → ltb m (length r) ≡ true
      → cut position ascending m (take (suc m) r)
        ≡ record { emitted = c.front ++ (c.last ∷ []); next = some (position c.last) }
  unfolding cut
  cut_long m r c h = ground (arith, take-take m r, ltb-take m r, c.head, c.found)

  walk_step :
      (n limit : ℕ) (start : Option Position) (p : Page position ascending)
      → list_page position ascending limit start rows ≡ p
      → walk position ascending (suc n) limit start rows ≡ (elim p.next [
        | none ↦ p.emitted
        | some q ↦ p.emitted ++ walk position ascending n limit (some q) rows
      ])
  unfolding walk
  walk_step n limit start p e =
      ap
        (λ (r : Page position ascending). elim r.next as (λ o. List A) [
          | none ↦ r.emitted
          | some q ↦ r.emitted ++ walk position ascending n limit (some q) rows
        ])
        e

  walk_lem :
      (n limit : ℕ) (start : Option Position)
      → length (rest start) < n
      → walk position ascending n (suc limit) start rows ≡ rest start
  walk_lem zero limit start h = absurd (omega arith)
  walk_lem (suc n) limit start h = elim (Bool-cases (ltb (suc limit) (length (rest start)))) [
    | inr short ↦
        walk_step n (suc limit) start _
          (page_lem (suc limit) start ∙ cut_short (suc limit) (rest start) short)
    | inl long ↦
        let c = cut_lem limit (rest start) (ground arith) in
        let next = next_rest start c.front c.last c.back c.whole in
        walk_step n (suc limit) start _
          (page_lem (suc limit) start ∙ cut_long (suc limit) (rest start) c long)
        ∙ ap (λ ys. (c.front ++ (c.last ∷ [])) ++ ys)
            (walk_lem n limit (some (position c.last))
                (subst (λ ys. length ys < n) (sym next) (omega (arith, c.shorter)))
              ∙ next)
        ∙ append_assoc c.front (c.last ∷ []) c.back
        ∙ sym c.whole
  ]

  -- A client that follows the cursors, with any page size that is not 0, is shown every row exactly
  -- once and in the order of the query, and needs at most one page more than there are rows: the
  -- pages put together are the ordered table, if no two rows have both their value and slug equal.
  pub walk-eq-order_by :
      (limit : ℕ)
      → 1 ≤ limit
      → walk position ascending (suc (length rows)) limit none rows
        ≡ order_by (precedes position ascending) rows
  walk-eq-order_by zero h = absurd (omega arith)
  walk-eq-order_by (suc limit) h =
      walk_lem (suc (length rows)) limit none
        (rw whole_lem (omega (arith, length-order_by (precedes position ascending) rows)))
      ∙ whole_lem
    where
      whole_lem : rest none ≡ order_by (precedes position ascending) rows
      whole_lem =
          unfold rest is_after in ap (order_by (precedes position ascending)) (select-true rows)
