-- ===== src/Paging/Keyset.antt =====
-- A page of rows in the order of a value and a slug.
use unishop_china.Prelude.{
  ℕ, zero, suc, ◌+◌, Bool, true, false, ◌&&◌, ◌||◌, Option, none, some, List, [], ◌∷◌, ◌++◌, ltb,
  ◌==◌, if◌then◌else◌, length, take,
}
use unishop_china.Prelude.Rows.{select}
use unishop_china.Prelude.Rows.Sorting.{order_by}

-- `PersonalizationPosition` and `BrowsePosition`
pub record Position : Type 0 where
  pub value : ℕ
  pub slug : ℕ

-- The order of a query: by the value, then by the slug, both ascending or both descending.
unfoldable pub before : Bool → Position → Position → Bool
before true p q = ltb p.value q.value || (p.value == q.value && ltb p.slug q.slug)
before false p q = ltb q.value p.value || (p.value == q.value && ltb q.slug p.slug)

abbrev pub last? {ℓ} : {A : Type ℓ} → List A → Option A
last? [] = none
last? (x ∷ xs) = elim (last? xs) [ none ↦ some x | some y ↦ some y ]

module _ {A : Type 0} (position : A → Position) (ascending : Bool) where
  unfoldable pub precedes : A → A → Bool
  precedes a b = before ascending (position a) (position b)

  -- The condition that a cursor adds.
  unfoldable pub is_after : Option Position → A → Bool
  is_after none a = true
  is_after (some p) a = before ascending p (position a)

  -- `page`: one row more than the limit says whether there is a next page.
  unfoldable pub page : ℕ → Option Position → List A → List A
  unfolding precedes is_after
  page limit start rows = take (limit + 1) (order_by precedes (select (is_after start) rows))

  -- What a service answers: the emitted rows and the position of the next page.
  pub record Page : Type 0 where
    pub emitted : List A
    pub next : Option Position

  position_of : Option A → Option Position
  position_of none = none
  position_of (some a) = some (position a)

  unfoldable pub cut : ℕ → List A → Page
  unfolding position_of
  cut limit rows =
      let emitted = take limit rows in
      record {
        emitted = emitted;
        next = if ltb limit (length rows) then position_of (last? emitted) else none;
      }

  unfoldable pub list_page : ℕ → Option Position → List A → Page
  unfolding cut page
  list_page limit start rows = cut limit (page limit start rows)

  -- A client that follows the cursors, for at most so many pages.
  unfoldable pub walk : ℕ → ℕ → Option Position → List A → List A
  walk zero limit start rows = []
  walk (suc n) limit start rows =
      let p = list_page limit start rows in
      elim p.next [ none ↦ p.emitted | some q ↦ p.emitted ++ walk n limit (some q) rows ]
