-- ===== src/Catalog/Parents.antt =====
-- What the checks of a parent tell, in a tree.
use unishop_china.Prelude.{
  ℕ, ◌≡◌, refl, true, false, Bool, not, ◌||◌, Option, none, some, List, arith, ◌==◌, ==_refl,
}
use unishop_china.Prelude.Rows.{first?, All}
use unishop_china.Prelude.Rows.Counting.{All-first?}
use unishop_china.Prelude.Rows.Selecting.{All-map, All-not_found}
use unishop_china.Prelude.Rows.Unique.{Only, first?-Only, first?-own}
use unishop_china.Market.Tables.{Category, MarketDb}
use unishop_china.Market.Call.{Ensures}
use unishop_china.Market.Rules.{Ensures-pure, Ensures-load, Ensures-unless}
use unishop_china.Catalog.Repository
use unishop_china.Catalog.Repository.{has_id, has_slug, refers_to, is_child_of, precedes}
use unishop_china.Catalog.Categories.{validate_parent, check_parent, has_children_of}
use unishop_china.Catalog.Tree.{Levelled, HasParent, IsNested, IsTree, Supports}

-- The parent that `validate_parent` returns.
abbrev pub IsChosen : Option ℕ → ℕ → MarketDb → Option Category → Type 0
IsChosen row_id slug db none = Unit {0}
IsChosen row_id slug db (some parent) =
    (parent_slug : ℕ) × (Repository.get parent_slug db ≡ some parent)
    × ((slug == parent_slug) ≡ false)
    × (parent.is_active ≡ true)
    × (parent.level ≡ 1)
    × (has_children_of row_id db ≡ false)

pub validate_parent-Ensures :
    (row_id : Option ℕ) (slug : ℕ) (parent_slug : Option ℕ) (db : MarketDb)
    → Ensures
        (λ parent db'. (db' ≡ db) × IsChosen row_id slug db parent)
        (validate_parent row_id slug parent_slug db)
unfolding validate_parent check_parent
validate_parent-Ensures row_id slug none db = Ensures-pure none db (refl, tt)
validate_parent-Ensures row_id slug (some parent_slug) db =
    Ensures-unless _ db (λ _. slug == parent_slug) _
      λ other. Ensures-load _ db (Repository.get parent_slug) _ λ parent found.
        Ensures-unless _ db (λ _. not parent.is_active || not (parent.level == 1)) _
          λ root. Ensures-unless _ db (has_children_of row_id) _ λ leaf.
            Ensures-pure (some parent) db
              (refl, (parent_slug, found, other, ground arith, ground arith, leaf))

-- A category of level 1 is a root.
root_lem :
    (rows : List Category) (c : Category) → IsNested rows c → c.level ≡ 1 → c.parent_id ≡ none
root_lem rows c n e = go c.parent_id n.0 refl
  where
    go : (p : Option ℕ) → Levelled p c.parent_level c.level → c.parent_id ≡ p → c.parent_id ≡ none
    go none l q = q
    go (some i) (a, l) q = absurd (omega arith)

-- A row found by a unique condition is the row of its key.
pub only_lem :
    (rows : List Category) (s : ℕ) (row : Category)
    → IsTree rows
    → first? (has_slug s) rows ≡ some row
    → Only (has_id row.id) row rows
only_lem rows s row v found =
    first?-Only (has_id row.id) (has_slug s) rows row (v.unique_id row.id) found (==_refl row.id)

pub own_lem :
    (rows : List Category) (s : ℕ) (row : Category)
    → IsTree rows
    → first? (has_slug s) rows ≡ some row
    → first? (has_id row.id) rows ≡ some row
own_lem rows s row v found =
    first?-own (has_id row.id) (has_slug s) rows row (v.unique_id row.id) found (==_refl row.id)

pub row-IsNested :
    (rows : List Category) (s : ℕ) (row : Category)
    → IsTree rows
    → first? (has_slug s) rows ≡ some row
    → IsNested rows row
row-IsNested rows s row v found = All-first? (IsNested rows) (has_slug s) rows row v.nested found

-- A chosen parent is a parent that a tree allows.
pub chosen-HasParent :
    (active : Bool) (row_id : Option ℕ) (slug : ℕ) (db : MarketDb) (parent : Category)
    → IsTree db.categories
    → IsChosen row_id slug db (some parent)
    → HasParent db.categories active (some parent.id)
unfolding Repository.get
chosen-HasParent active row_id slug db parent v (s, found, other, act, level, leaf) = (
  parent,
  own_lem db.categories s parent v found,
  root_lem db.categories parent (row-IsNested db.categories s parent v found) level,
  λ _. act,
)

-- The children of a row have it as their parent.
pub child_lem :
    (rows : List Category) (row c : Category)
    → first? (has_id row.id) rows ≡ some row
    → IsNested rows c
    → refers_to c.parent_id row.id ≡ true
    → (row.parent_id ≡ none) × (c.is_active ≡ true → row.is_active ≡ true)
child_lem rows row c own n e = go c.parent_id n.1 e
  where
    go :
        (p : Option ℕ)
        → HasParent rows c.is_active p
        → refers_to p row.id ≡ true
        → (row.parent_id ≡ none) × (c.is_active ≡ true → row.is_active ≡ true)
    go none h q = absurd (ground arith)
    go (some i) (parent, found, root, act) q =
        let same_key : i ≡ row.id = ground arith in
        let same : parent ≡ row = ground (arith, own, found) in rw (← same) (root, act)

pub keeps-Supports :
    (rows : List Category) (row : Category) (f : Category → Category)
    → first? (has_id row.id) rows ≡ some row
    → All (IsNested rows) rows
    → ((row.parent_id ≡ none) → (f row).parent_id ≡ none)
    → (row.is_active ≡ true → (f row).is_active ≡ true)
    → All (Supports row f) rows
keeps-Supports rows row f own n keep act =
    All-map (IsNested rows) (Supports row f) rows
      (λ c nested e.
        let (root, active) = child_lem rows row c own nested e in (keep root, λ a. act (active a)))
      n

pub leaf-Supports :
    (row : Category) (f : Category → Category) (db : MarketDb)
    → Repository.has_children row.id false db ≡ false
    → All (Supports row f) db.categories
unfolding Repository.has_children Repository.is_child_of
leaf-Supports row f db leaf =
    All-map (λ c. is_child_of row.id false c ≡ false) (Supports row f) db.categories
      (λ c no e. absurd (ground arith))
      (All-not_found (is_child_of row.id false) db.categories (ground arith))
