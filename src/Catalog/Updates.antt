-- ===== src/Catalog/Updates.antt =====
-- An update of a category keeps the tree.
use unishop_china.Prelude.{
  ℕ, ◌≡◌, refl, true, false, Option, none, some, arith, Bool-cases, inl, inr, ◌==◌,
}
use unishop_china.Prelude.Rows.{update, All}
use unishop_china.Prelude.Rows.Counting.{first?-holds, All-first?}
use unishop_china.Market.Tables.{Category, MarketDb}
use unishop_china.Market.Call.{Ensures}
use unishop_china.Market.Rules.{
  Ensures-pure, Ensures-load, Ensures-check, Ensures-get, Ensures-modify,
}
use unishop_china.Catalog.Repository
use unishop_china.Catalog.Repository.{
  has_id, has_slug, refers_to, precedes, is_child_of, catalog_mutation,
}
use unishop_china.Catalog.Categories
use unishop_china.Catalog.Categories.{
  CategoryCreate, CategoryUpdate, CategoryResponse, assign_parent, new_category, activated, patched,
  reparented, new_parent, parent_in, is_closed, validate_parent, has_children_of,
}
use unishop_china.Catalog.Tree.{IsNested, Supports, assigned-IsTree}
use unishop_china.Catalog.Parents.{
  IsChosen, validate_parent-Ensures, chosen-HasParent, keeps-Supports, leaf-Supports,
}
use unishop_china.Catalog.Keeps.{Valid}
use unishop_china.Catalog.CityTable.{mutation-keeps}
use unishop_china.Catalog.Loaded.{row_Only, row_own, row_IsNested, own-HasParent, not_own_parent}

patched_key :
    (body : CategoryUpdate) (parent : Option (Option Category)) (c : Category)
    → ((patched body parent c).id ≡ c.id)
      × ((patched body parent c).slug ≡ c.slug)
      × ((patched body parent c).is_active ≡ c.is_active)
unfolding patched reparented assign_parent
patched_key body none c = (refl, refl, refl)
patched_key body (some none) c = (refl, refl, refl)
patched_key body (some (some parent)) c = (refl, refl, refl)

-- What an update of the parent was checked for.
abbrev pub IsNewParent : Category → MarketDb → Option (Option Category) → Type 0
IsNewParent row db none = Unit {0}
IsNewParent row db (some parent) = IsChosen (some row.id) row.slug db parent

pub new_parent-Ensures :
    (row : Category) (parent_slug : Option (Option ℕ)) (db : MarketDb)
    → Ensures
        (λ parent db'. (db' ≡ db) × IsNewParent row db parent)
        (new_parent row.id row.slug parent_slug db)
unfolding new_parent
new_parent-Ensures row none db = Ensures-pure none db (refl, tt)
new_parent-Ensures row (some parent_slug) db =
    Ensures-check _ db _ _ (validate_parent-Ensures (some row.id) row.slug parent_slug db)
      λ parent chosen. Ensures-pure (some parent) db (refl, chosen)

module _ (slug : ℕ) (row : Category) (db : MarketDb) (v : Valid db)
    (found : Repository.get slug db ≡ some row) where
  patched-Supports :
      (body : CategoryUpdate) (parent : Option (Option Category))
      → IsNewParent row db parent
      → All (Supports row (patched body parent)) db.categories
  unfolding patched reparented assign_parent has_children_of
  patched-Supports body none c =
      keeps-Supports db.categories row (patched body none) (row_own slug row db v found) v.nested
        (λ e. e) (λ e. e)
  patched-Supports body (some none) c =
      keeps-Supports db.categories row (patched body (some none)) (row_own slug row db v found)
        v.nested (λ e. refl) (λ e. e)
  patched-Supports body (some (some parent)) (s, e, other, act, level, leaf) =
      leaf-Supports row (patched body (some (some parent))) db leaf

  patched-IsNested :
      (body : CategoryUpdate) (parent : Option (Option Category))
      → IsNewParent row db parent
      → IsNested
          (update (has_id row.id) (patched body parent) db.categories)
          (patched body parent row)
  unfolding patched reparented assign_parent Repository.get
  patched-IsNested body none c = (
    (row_IsNested slug row db v found).0,
    own-HasParent slug row db v found _ row.is_active row.parent_id (λ c. refl)
        (not_own_parent slug row db v found) (row_IsNested slug row db v found).1,
  )
  patched-IsNested body (some none) c = ((refl, refl), tt)
  patched-IsNested body (some (some parent)) (s, e, other, act, level, leaf) = (
    (refl, refl),
    own-HasParent slug row db v found _ row.is_active (some parent.id) (λ c. refl) apart
        (chosen-HasParent row.is_active (some row.id) row.slug db parent v
          (s, e, other, act, level, leaf)),
  )
    where
      apart : (parent.id == row.id) ≡ false
      apart = elim (Bool-cases (parent.id == row.id)) [
        | inr no_key ↦ no_key
        | inl same_id ↦
            let same : parent ≡ row =
              All-first? (λ y. has_id row.id y ≡ true → y ≡ row) (has_slug s) db.categories parent
                (row_Only slug row db v found) e same_id in
            absurd (ground (arith, first?-holds (has_slug s) db.categories parent e))
      ]

  patched-Valid :
      (body : CategoryUpdate) (parent : Option (Option Category))
      → IsNewParent row db parent
      → Valid (Categories.assign row.id (patched body parent) db)
  unfolding Categories.assign
  patched-Valid body parent c =
      assigned-IsTree row (patched body parent) db.categories (λ c. (patched_key body parent c).0)
        (row_Only slug row db v found) (λ c. (patched_key body parent c).1)
        (patched-Supports body parent c) (patched-IsNested body parent c) v

pub update-Valid :
    (actor_id slug : ℕ) (body : CategoryUpdate) (db : MarketDb)
    → Valid db
    → Valid (Categories.update_category actor_id slug body db).1
unfolding Categories.update_category Repository.record_audit
update-Valid actor_id slug body db v = mutation-keeps Valid actor_id _ db v (
    Ensures-load _ db (Repository.get slug) _ λ row found.
      Ensures-check _ db _ _ (new_parent-Ensures row body.parent_slug db) λ parent chosen.
        Ensures-modify _ db _ (
          Ensures-modify _ _ _
            (Ensures-get _ _ (patched-Valid slug row db v found body parent chosen))))
