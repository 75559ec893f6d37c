-- ===== src/Catalog/Keeps.antt =====
-- The administration of the catalog keeps the tree.
use unishop_china.Prelude.{ℕ, ◌≡◌, refl, true, false, Option, none, some, arith, is_some, leb}
use unishop_china.Prelude.Rows.{count}
use unishop_china.Prelude.Rows.Sorting.{count-order_by}
use unishop_china.Market.Tables.{Category, MarketDb}
use unishop_china.Market.Rules.{Ensures-unless, Ensures-check, Ensures-get, Ensures-modify}
use unishop_china.Catalog.Repository
use unishop_china.Catalog.Repository.{
  has_id, has_slug, refers_to, precedes, is_child_of, catalog_mutation,
}
use unishop_china.Catalog.Categories
use unishop_china.Catalog.Categories.{
  CategoryCreate, CategoryUpdate, CategoryResponse, assign_parent, new_category, activated, patched,
  reparented, new_parent, parent_in, is_closed, validate_parent, has_children_of,
}
use unishop_china.Catalog.CityTable.{mutation-keeps}
use unishop_china.Catalog.Tree.{Levelled, HasParent, IsTree, added-IsTree}
use unishop_china.Catalog.Parents.{IsChosen, validate_parent-Ensures, chosen-HasParent}

abbrev pub Valid : MarketDb → Type 0
Valid db = IsTree db.categories

new_Levelled :
    (id : ℕ) (body : CategoryCreate) (parent : Option Category)
    → let row = new_category id body parent in Levelled row.parent_id row.parent_level row.level
unfolding new_category assign_parent
new_Levelled id body none = (refl, refl)
new_Levelled id body (some parent) = (refl, refl)

new_HasParent :
    (id : ℕ) (body : CategoryCreate) (db : MarketDb) (parent : Option Category)
    → Valid db
    → IsChosen none body.slug db parent
    → HasParent db.categories
        (new_category id body parent).is_active
        (new_category id body parent).parent_id
unfolding new_category assign_parent
new_HasParent id body db none v c = tt
new_HasParent id body db (some parent) v c = chosen-HasParent true none body.slug db parent v c

new_key :
    (id : ℕ) (body : CategoryCreate) (parent : Option Category)
    → ((new_category id body parent).id ≡ id) × ((new_category id body parent).slug ≡ body.slug)
unfolding new_category assign_parent
new_key id body none = (refl, refl)
new_key id body (some parent) = (refl, refl)

created_lem :
    (id : ℕ) (body : CategoryCreate) (db : MarketDb) (parent : Option Category)
    → Valid db
    → is_some (Repository.get body.slug db) ≡ false
    → leb 500 (count (λ _. true) (Repository.list_categories db)) ≡ false
    → is_some (Repository.by_id id db) ≡ false
    → IsChosen none body.slug db parent
    → Valid (Categories.add (new_category id body parent) db)
unfolding Repository.get Repository.by_id Repository.list_categories Categories.add
created_lem id body db parent v free room fresh chosen =
    let (same_id, same_slug) = new_key id body parent in
    added-IsTree (new_category id body parent) db.categories (rw same_id (ground arith))
      (rw same_slug (ground arith))
      (ground (arith, count-order_by precedes (λ _. true) db.categories))
      (new_Levelled id body parent) (new_HasParent id body db parent v chosen) v

pub create-Valid :
    (actor_id id : ℕ) (body : CategoryCreate) (db : MarketDb)
    → Valid db
    → Valid (Categories.create actor_id id body db).1
unfolding Categories.create Repository.record_audit
create-Valid actor_id id body db v = mutation-keeps Valid actor_id _ db v (
    Ensures-unless _ db (λ d. is_some (Repository.get body.slug d)) _
      λ free.
        Ensures-unless _ db (λ d. leb 500 (count (λ _. true) (Repository.list_categories d))) _
          λ room.
            Ensures-check _ db _ _ (validate_parent-Ensures none body.slug _ db) λ parent chosen.
              Ensures-unless _ db (λ d. is_some (Repository.by_id id d)) _
                λ fresh. Ensures-modify _ db _ (
                  Ensures-modify _ _ _
                    (Ensures-get _ _ (created_lem id body db parent v free room fresh chosen))))
