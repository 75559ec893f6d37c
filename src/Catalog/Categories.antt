-- ===== src/Catalog/Categories.antt =====
-- `CategoryService`, method by method.
use unishop_china.Prelude.{
  ℕ, Bool, true, false, not, ◌&&◌, ◌||◌, Option, none, some, List, [], ◌∷◌, map, is_some, is_none,
  leb, ◌==◌, if◌then◌else◌,
}
use unishop_china.Prelude.Rows.{select, first?, update, count}
use unishop_china.Accounts.Service.{lock_active_user, require_db_admin}
use unishop_china.Market.Tables.{Category, CatalogEvent, CatalogField, MarketDb}
use unishop_china.Market.Call.{
  Fault, Call, pure, gets, found, load, authorize, transaction, ◌>>=◌, ◌>>◌, modify, fail_if,
}
use unishop_china.Catalog.Repository
use unishop_china.Catalog.Repository.{has_id, refers_to, field_if, catalog_mutation}
use unishop_china.Catalog.Cities.{or_default}

pub record CategoryCreate : Type 0 where
  pub slug : ℕ
  pub name_en : ℕ
  pub name_zh : ℕ
  pub description : Option (Option ℕ)
  pub parent_slug : Option (Option ℕ)
  pub sort_order : Option ℕ

pub record CategoryUpdate : Type 0 where
  pub name_en : Option ℕ
  pub name_zh : Option ℕ
  pub description : Option (Option ℕ)
  pub parent_slug : Option (Option ℕ)
  pub sort_order : Option ℕ

-- `PublicCategory`; `AdminCategory` shows two more columns of the row.
pub record CategoryResponse : Type 0 where
  pub slug : ℕ
  pub name_en : ℕ
  pub name_zh : ℕ
  pub description : Option ℕ
  pub parent_slug : Option ℕ

unfoldable pub slug_of : Option Category → Option ℕ
slug_of none = none
slug_of (some parent) = some parent.slug

-- The parent among `rows`.
unfoldable pub parent_in : Category → List Category → Option Category
parent_in row rows = first? (λ item. refers_to row.parent_id item.id) rows

unfoldable pub response : Category → List Category → CategoryResponse
unfolding slug_of parent_in
response row rows = record {
  slug = row.slug;
  name_en = row.name_en;
  name_zh = row.name_zh;
  description = row.description;
  parent_slug = slug_of (parent_in row rows);
}

-- The parent is loaded, active, and a root.
unfoldable pub is_active_root : Option Category → Bool
is_active_root none = false
is_active_root (some parent) = parent.is_active && parent.level == 1

unfoldable pub is_publicly_active : Category → Option Category → Bool
unfolding is_active_root
is_publicly_active row parent = row.is_active && (is_none row.parent_id || is_active_root parent)

-- `self.repo.by_id(db, row.parent_id)`, where there is one.
unfoldable pub parent_of : Category → MarketDb → Option Category
parent_of row db = elim row.parent_id [ none ↦ none | some id ↦ Repository.by_id id db ]

unfoldable pub is_open : Option Category → MarketDb → Bool
unfolding is_publicly_active parent_of
is_open none db = false
is_open (some row) db = is_publicly_active row (parent_of row db)

unfoldable pub resolve_active : ℕ → Call Category
unfolding is_open
resolve_active slug =
    load (λ db. if is_open (Repository.get slug db) db then Repository.get slug db else none)
      (Fault.catalog 422)

-- `{row.id for row in rows if row.is_active and row.parent_id is None}` has the key.
unfoldable pub is_root_id : Option ℕ → Category → Bool
is_root_id parent row = row.is_active && is_none row.parent_id && refers_to parent row.id

unfoldable pub is_visible : List Category → Category → Bool
unfolding is_root_id
is_visible rows row =
    row.is_active && (is_none row.parent_id || is_some (first? (is_root_id row.parent_id) rows))

unfoldable pub visible_rows : MarketDb → List Category
unfolding is_visible
visible_rows db = let rows = Repository.list_categories db in select (is_visible rows) rows

unfoldable pub get_public : ℕ → Call CategoryResponse
get_public slug = do
  rows ← gets visible_rows
  row ← found (Fault.catalog 404) (first? (Repository.has_slug slug) rows)
  pure (response row rows)

-- `CategoryTree`
pub record CategoryTree : Type 0 where
  pub root : CategoryResponse
  pub children : List CategoryResponse

unfoldable pub subtree : List Category → Category → CategoryTree
unfolding response
subtree rows row = record {
  root = response row rows;
  children = map (λ c. response c rows) (select (λ c. refers_to c.parent_id row.id) rows);
}

unfoldable pub list_public : MarketDb → List CategoryTree
unfolding subtree
list_public db =
    let rows = visible_rows db in map (subtree rows) (select (λ row. is_none row.parent_id) rows)

unfoldable pub list_admin : ℕ → Call (List CategoryResponse)
list_admin actor_id = transaction (do
  authorize (λ db. lock_active_user actor_id false db.sellers.accounts)
  authorize (λ db. require_db_admin actor_id db.sellers.accounts)
  rows ← gets Repository.list_categories
  pure (map (λ row. response row rows) rows))

-- `row_id` is `none` before the row has a key.
unfoldable pub has_children_of : Option ℕ → MarketDb → Bool
has_children_of none db = false
has_children_of (some id) db = Repository.has_children id false db

unfoldable pub check_parent : Option ℕ → ℕ → ℕ → Call (Option Category)
check_parent row_id slug parent_slug = do
  fail_if (λ _. slug == parent_slug) (Fault.catalog 409)
  parent ← load (Repository.get parent_slug) (Fault.catalog 404)
  fail_if (λ _. not parent.is_active || not (parent.level == 1)) (Fault.catalog 409)
  fail_if (has_children_of row_id) (Fault.catalog 409)
  pure (some parent)

unfoldable pub validate_parent : Option ℕ → ℕ → Option ℕ → Call (Option Category)
validate_parent row_id slug none = pure none
validate_parent row_id slug (some parent_slug) = check_parent row_id slug parent_slug

unfoldable pub assign_parent : Option Category → Category → Category
assign_parent none row = record row { parent_id = none; parent_level = none; level = 1 }
assign_parent (some parent) row = record row {
  parent_id = some parent.id;
  parent_level = some 1;
  level = 2;
}

unfoldable pub new_category : ℕ → CategoryCreate → Option Category → Category
unfolding assign_parent or_default
new_category id body parent = assign_parent parent (record {
  id = id;
  slug = body.slug;
  name_en = body.name_en;
  name_zh = body.name_zh;
  description = or_default body.description none;
  parent_id = none;
  parent_level = none;
  level = 1;
  is_active = true;
  sort_order = or_default body.sort_order 0;
})

-- `sorted(body.model_fields_set)`
unfoldable pub created_fields : CategoryCreate → List CatalogField
unfolding field_if
created_fields body = field_if (is_some body.description) CatalogField.description_field (
    CatalogField.name_en_field
    ∷ CatalogField.name_zh_field
    ∷ field_if (is_some body.parent_slug) CatalogField.parent_slug_field (
        CatalogField.slug_field
        ∷ field_if (is_some body.sort_order) CatalogField.sort_order_field []))

unfoldable pub updated_fields : CategoryUpdate → List CatalogField
unfolding field_if
updated_fields body = field_if (is_some body.description) CatalogField.description_field (
    field_if (is_some body.name_en) CatalogField.name_en_field (
      field_if (is_some body.name_zh) CatalogField.name_zh_field (
        field_if (is_some body.parent_slug) CatalogField.parent_slug_field
          (field_if (is_some body.sort_order) CatalogField.sort_order_field []))))

unfoldable pub assign : ℕ → (Category → Category) → MarketDb → MarketDb
assign id f db = record db { categories = update (has_id id) f db.categories }

unfoldable pub add : Category → MarketDb → MarketDb
add row db = record db { categories = row ∷ db.categories }

unfoldable pub create : ℕ → ℕ → CategoryCreate → Call CategoryResponse
create actor_id id body = catalog_mutation actor_id (do
  fail_if (λ db. is_some (Repository.get body.slug db)) (Fault.catalog 409)
  fail_if (λ db. leb 500 (count (λ _. true) (Repository.list_categories db))) (Fault.catalog 409)
  parent ← validate_parent none body.slug (or_default body.parent_slug none)
  fail_if (λ db. is_some (Repository.by_id id db)) Fault.integrity_error
  modify (add (new_category id body parent))
  modify (
      Repository.record_audit actor_id CatalogEvent.category_created body.slug
        (created_fields body))
  gets (λ db. response (new_category id body parent) (Repository.list_categories db)))

-- The assignments of an update: the parent, where the body names one, and the other columns.
unfoldable pub reparented : Option (Option Category) → Category → Category
reparented none row = row
reparented (some parent) row = assign_parent parent row

unfoldable pub patched : CategoryUpdate → Option (Option Category) → Category → Category
unfolding or_default
patched body parent row = record (reparented parent row) {
  name_en = or_default body.name_en row.name_en;
  name_zh = or_default body.name_zh row.name_zh;
  description = or_default body.description row.description;
  sort_order = or_default body.sort_order row.sort_order;
}

-- The parent that an update assigns.
unfoldable pub new_parent : ℕ → ℕ → Option (Option ℕ) → Call (Option (Option Category))
new_parent id slug none = pure none
new_parent id slug (some parent_slug) = do
  parent ← validate_parent (some id) slug parent_slug
  pure (some parent)

abbrev same_key : Option ℕ → Option ℕ → Bool
same_key none none = true
same_key none (some j) = false
same_key (some i) none = false
same_key (some i) (some j) = i == j

unfoldable pub update_event : Category → Category → CatalogEvent
update_event old new =
    if same_key new.parent_id old.parent_id
    then CatalogEvent.category_updated
    else CatalogEvent.category_reparented

unfoldable pub update_category : ℕ → ℕ → CategoryUpdate → Call CategoryResponse
update_category actor_id slug body = catalog_mutation actor_id (do
  row ← load (Repository.get slug) (Fault.catalog 404)
  parent ← new_parent row.id row.slug body.parent_slug
  modify (assign row.id (patched body parent))
  modify (
      Repository.record_audit actor_id (update_event row (patched body parent row)) slug
        (updated_fields body))
  gets (λ db. response (patched body parent row) (Repository.list_categories db)))

unfoldable pub activated : Bool → Category → Category
activated active row = record row { is_active = active }

-- A loaded parent that is not active.
unfoldable pub is_closed : Option Category → Bool
is_closed none = false
is_closed (some parent) = not parent.is_active

unfoldable pub set_active : ℕ → ℕ → Bool → Call CategoryResponse
set_active actor_id slug active = catalog_mutation actor_id (do
  row ← load (Repository.get slug) (Fault.catalog 404)
  fail_if (λ db. active && is_closed (parent_in row (Repository.list_categories db)))
      (Fault.catalog 409)
  fail_if (λ db. not active && Repository.has_children row.id true db) (Fault.catalog 409)
  modify (assign row.id (activated active))
  modify (
      Repository.record_audit actor_id
        (if active then CatalogEvent.category_activated else CatalogEvent.category_deactivated) slug
        (CatalogField.is_active_field ∷ []))
  gets (λ db. response (activated active row) (Repository.list_categories db)))
