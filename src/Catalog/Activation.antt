-- ===== src/Catalog/Activation.antt =====
-- Switching a category on and off keeps the tree.
use unishop_china.Prelude.{
  ℕ, ◌≡◌, ◌∙◌, refl, true, false, Bool, not, ◌&&◌, Option, none, some, arith, Bool-cases, inl, inr,
  is_some,
}
use unishop_china.Prelude.Rows.{first?, All}
use unishop_china.Prelude.Rows.Selecting.{All-zip, All-not_found, first?-eq}
use unishop_china.Prelude.Rows.Sorting.{order_by, first?-order_by}
use unishop_china.Market.Tables.{Category, MarketDb}
use unishop_china.Market.Rules.{Ensures-load, Ensures-unless, Ensures-get, Ensures-modify}
use unishop_china.Catalog.Repository
use unishop_china.Catalog.Repository.{
  has_id, has_slug, refers_to, precedes, is_child_of, catalog_mutation,
}
use unishop_china.Catalog.Categories
use unishop_china.Catalog.Categories.{
  CategoryCreate, CategoryUpdate, CategoryResponse, assign_parent, new_category, activated, patched,
  reparented, new_parent, parent_in, is_closed, validate_parent, has_children_of,
}
use unishop_china.Catalog.Tree.{HasParent, IsNested, Supports, assigned-IsTree}
use unishop_china.Catalog.Parents.{keeps-Supports, child_lem}
use unishop_china.Catalog.Keeps.{Valid}
use unishop_china.Catalog.CityTable.{mutation-keeps}
use unishop_china.Catalog.Loaded.{row_Only, row_own, row_IsNested, own-HasParent, not_own_parent}

module _ (slug : ℕ) (row : Category) (active : Bool) (db : MarketDb) (v : Valid db)
    (found : Repository.get slug db ≡ some row)
    (unblocked : (active && is_closed (parent_in row (Repository.list_categories db))) ≡ false)
    (leaf : (not active && Repository.has_children row.id true db) ≡ false) where
  -- The parent that the check read is the row of that key.
  parent_lem :
      (id : ℕ)
      → row.parent_id ≡ some id
      → parent_in row (Repository.list_categories db) ≡ first? (has_id id) db.categories
  unfolding parent_in Repository.list_categories
  parent_lem id e =
      first?-eq (λ item. refers_to row.parent_id item.id) (has_id id)
        (order_by precedes db.categories) (λ x. ground (arith, e))
      ∙ first?-order_by precedes (has_id id) db.categories (v.unique_id id)

  activated-HasParent :
      (parent : Option ℕ)
      → row.parent_id ≡ parent
      → HasParent db.categories row.is_active parent
      → HasParent db.categories active parent
  activated-HasParent none e h = tt
  activated-HasParent (some id) e (parent, own, root, act) =
      (parent, own, root, λ on. ground (arith, unblocked, parent_lem id e, is_closed_lem parent))
    where
      is_closed_lem : (p : Category) → is_closed (some p) ≡ not p.is_active
      is_closed_lem p = unfold is_closed in refl

  activated-Supports : All (Supports row (activated active)) db.categories
  unfolding activated
  activated-Supports = elim (Bool-cases active) [
    | inl on ↦
        keeps-Supports db.categories row (activated active) (row_own slug row db v found) v.nested
          (λ e. e) (λ e. on)
    | inr off ↦
        All-zip (IsNested db.categories) (λ c. is_child_of row.id true c ≡ false)
          (Supports row (activated active)) db.categories
          (λ c n no e. (
            (child_lem db.categories row c (row_own slug row db v found) n e).0,
            λ on. absurd (ground (arith, inactive_lem c)),
          ))
          v.nested
          (All-not_found (is_child_of row.id true) db.categories (ground (arith, leaf_lem)))
  ]
    where
      leaf_lem :
          Repository.has_children row.id true db
          ≡ is_some (first? (is_child_of row.id true) db.categories)
      leaf_lem = unfold Repository.has_children in refl

      inactive_lem :
          (c : Category) → is_child_of row.id true c ≡ (refers_to c.parent_id row.id && c.is_active)
      inactive_lem c = unfold is_child_of in refl

  pub activated-Valid : Valid (Categories.assign row.id (activated active) db)
  unfolding Categories.assign activated
  activated-Valid =
      assigned-IsTree row (activated active) db.categories (λ c. refl)
        (row_Only slug row db v found) (λ c. refl) activated-Supports
        (
          (row_IsNested slug row db v found).0,
          own-HasParent slug row db v found (activated active) active row.parent_id (λ c. refl)
              (not_own_parent slug row db v found)
              (activated-HasParent row.parent_id refl (row_IsNested slug row db v found).1),
        )
        v

pub set_active-Valid :
    (actor_id slug : ℕ) (active : Bool) (db : MarketDb)
    → Valid db
    → Valid (Categories.set_active actor_id slug active db).1
unfolding Categories.set_active Repository.record_audit
set_active-Valid actor_id slug active db v = mutation-keeps Valid actor_id _ db v (
    Ensures-load _ db (Repository.get slug) _ λ row found.
      Ensures-unless _ db (λ d. active && is_closed (parent_in row (Repository.list_categories d)))
        _
        λ unblocked.
          Ensures-unless _ db (λ d. not active && Repository.has_children row.id true d) _
            λ leaf. Ensures-modify _ db _ (
              Ensures-modify _ _ _
                (Ensures-get _ _ (activated-Valid slug row active db v found unblocked leaf))))
