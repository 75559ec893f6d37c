-- ===== src/Catalog/Visible.antt =====
-- The two readings of "publicly active": the one by which a listing may take a category, and the one
-- by which the public catalog shows it.
use unishop_china.Prelude.{
  ap, ◌∷◌, ℕ, ◌≤◌, ◌≡◌, ◌∙◌, refl, true, false, Option, none, some, List, [], ◌∷◌, ap, arith,
  Bool-cases, Option-cases, inl, inr, ◌==◌, is_some, if◌then◌else◌,
}
use unishop_china.Prelude.Rows.{first?, count}
use unishop_china.Prelude.Rows.Counting.{All-first?}
use unishop_china.Prelude.Rows.Selecting.{
  first?-select_kept, first?-select_gone, first?-select-none,
}
use unishop_china.Prelude.Rows.Sorting.{first?-order_by, count-order_by, order_by}
use unishop_china.Market.Tables.{Category, MarketDb}
use unishop_china.Market.Call.{Fault, Outcome, found, gets, load, pure, ◌>>=◌}
use unishop_china.Catalog.Repository
use unishop_china.Catalog.Repository.{has_id, has_slug, refers_to, precedes}
use unishop_china.Catalog.Categories
use unishop_china.Catalog.Categories.{
  CategoryResponse, response, is_publicly_active, is_active_root, parent_of, is_open, is_visible,
  is_root_id, visible_rows,
}
use unishop_china.Catalog.Tree.{HasParent, Levelled, IsNested, IsTree}

no_root :
    (rows : List Category) (id : ℕ)
    → count (has_id id) rows ≡ 0
    → first? (is_root_id (some id)) rows ≡ none
unfolding first? count is_root_id
no_root [] id e = refl
no_root (c ∷ rows) id e = ground (arith, no_root rows id)

-- The root that `visible_rows` looks for, as a condition on the row of that key.
root_found :
    (rows : List Category) (id : ℕ) (parent : Category)
    → count (has_id id) rows ≤ 1
    → first? (has_id id) rows ≡ some parent
    → parent.parent_id ≡ none
    → is_some (first? (is_root_id (some id)) rows) ≡ parent.is_active
unfolding first? count is_root_id
root_found [] id parent one e root = absurd (ground arith)
root_found (c ∷ rows) id parent one e root = elim (Bool-cases (has_id id c)) [
  | inl hit ↦
      let same : c ≡ parent = ground arith in
      let root' : c.parent_id ≡ none = ap (λ (z : Category). z.parent_id) same ∙ root in
      ground (arith, no_root rows id)
  | inr miss ↦ ground (arith, root_found rows id parent)
]

module _ (slug : ℕ) (db : MarketDb) (v : IsTree db.categories) where
  ordered_count : (id : ℕ) → count (has_id id) (Repository.list_categories db) ≤ 1
  unfolding Repository.list_categories
  ordered_count id = rw (count-order_by precedes (has_id id) db.categories) (v.unique_id id)

  ordered_find :
      (id : ℕ)
      → first? (has_id id) (Repository.list_categories db) ≡ first? (has_id id) db.categories
  unfolding Repository.list_categories
  ordered_find id = first?-order_by precedes (has_id id) db.categories (v.unique_id id)

  root_level :
      (c : Category) → IsNested db.categories c → c.parent_id ≡ none → (c.level == 1) ≡ true
  root_level c n e = go c.parent_id n.0 e
    where
      go : (p : Option ℕ) → Levelled p c.parent_level c.level → p ≡ none → (c.level == 1) ≡ true
      go none l q = ground arith
      go (some i) l q = absurd (cc)

  same_test :
      (row : Category)
      → IsNested db.categories row
      → is_visible (Repository.list_categories db) row ≡ is_publicly_active row (parent_of row db)
  unfolding is_visible is_publicly_active parent_of Repository.by_id is_active_root
  same_test row n = go row.parent_id refl n.1
    where
      go :
          (p : Option ℕ)
          → row.parent_id ≡ p
          → HasParent db.categories row.is_active p
          → is_visible (Repository.list_categories db) row
            ≡ is_publicly_active row (parent_of row db)
      go none e h = rw e (refl)
      go (some id) e (parent, own, root, act) =
          let shown =
            root_found (Repository.list_categories db) id parent (ordered_count id)
              (ordered_find id ∙ own) root in
          let level =
            root_level parent
              (All-first? (IsNested db.categories) (has_id id) db.categories parent v.nested own)
              root in
          ground (arith, e, shown, level, own)

  shown_row :
      (row : Category)
      → Repository.get slug db ≡ some row
      → first? (has_slug slug) (visible_rows db)
        ≡ (if is_open (some row) db then some row else none)
  unfolding visible_rows Repository.get is_open
  shown_row row e =
      let rows = Repository.list_categories db in
      let same =
        same_test row
          (All-first? (IsNested db.categories) (has_slug slug) db.categories row v.nested e) in
      let found : first? (has_slug slug) rows ≡ some row = listed ∙ e in
      elim (Bool-cases (is_visible rows row)) [
        | inl seen ↦
            first?-select_kept (has_slug slug) (is_visible rows) rows row found seen
            ∙ ground (arith, same)
        | inr hidden ↦
            first?-select_gone (has_slug slug) (is_visible rows) rows row slug_count found hidden
            ∙ ground (arith, same)
      ]
    where
      listed :
          first? (has_slug slug) (Repository.list_categories db)
          ≡ first? (has_slug slug) db.categories
      listed =
          unfold Repository.list_categories in
          first?-order_by precedes (has_slug slug) db.categories (v.unique_slug slug)

      slug_count : count (has_slug slug) (Repository.list_categories db) ≤ 1
      slug_count =
          unfold Repository.list_categories in
          rw (count-order_by precedes (has_slug slug) db.categories) (v.unique_slug slug)

  hidden_row : Repository.get slug db ≡ none → first? (has_slug slug) (visible_rows db) ≡ none
  unfolding visible_rows Repository.get Repository.list_categories
  hidden_row e =
      first?-select-none (has_slug slug) (is_visible (Repository.list_categories db))
        (order_by precedes db.categories)
        (first?-order_by precedes (has_slug slug) db.categories (v.unique_slug slug) ∙ e)

  -- The public answer for a row that a listing may take.
  abbrev pub shown : Outcome Category → Outcome CategoryResponse
  shown (Outcome.done row) = Outcome.done (response row (visible_rows db))
  shown (Outcome.failed e) = Outcome.failed (Fault.catalog 404)

  -- In a tree of categories the two readings of "publicly active" agree: the public catalog answers
  -- for a slug exactly where a listing may take that category, with the same row, and with 404
  -- otherwise. Neither call changes anything.
  pub get_public-resolve_active :
      (Categories.get_public slug db ≡ (shown (Categories.resolve_active slug db).0, db))
      × ((Categories.resolve_active slug db).1 ≡ db)
  unfolding Categories.get_public Categories.resolve_active gets ◌>>=◌ found load pure
  get_public-resolve_active = elim (Option-cases (Repository.get slug db)) [
    | inl missing ↦ (ground (arith, hidden_row missing, closed_lem), ground (arith, closed_lem))
    | inr (row, e) ↦ (ground (arith, shown_row row e), resolved_lem row e)
  ]
    where
      resolved_lem :
          (row : Category)
          → Repository.get slug db ≡ some row
          → (Categories.resolve_active slug db).1 ≡ db
      resolved_lem row e = elim (Bool-cases (is_open (some row) db)) [
        | inl seen ↦ ground (arith, e, seen)
        | inr hidden ↦ ground (arith, e, hidden)
      ]

      closed_lem : is_open none db ≡ false
      closed_lem = unfold is_open in refl
