-- ===== src/Catalog/Repository.antt =====
-- `CityRepository`, `CategoryRepository` and `CatalogAuditRepository`, statement by statement.
use unishop_china.Prelude.{
  ℕ, Bool, true, false, not, ◌&&◌, ◌||◌, Option, none, some, List, ◌∷◌, is_some, ltb, ◌==◌,
  if◌then◌else◌,
}
use unishop_china.Prelude.Rows.{select, first?, count}
use unishop_china.Prelude.Rows.Sorting.{order_by}
use unishop_china.Accounts.Service.{lock_active_user, require_db_admin}
use unishop_china.Market.Tables.{City, Category, CatalogEvent, CatalogField, MarketDb}
use unishop_china.Market.Call.{Call, authorize, transaction, ◌>>◌}

abbrev pub city_has_slug : ℕ → City → Bool
city_has_slug slug c = c.slug == slug

abbrev pub city_has_id : ℕ → City → Bool
city_has_id id c = c.id == id

unfoldable pub get_city : ℕ → MarketDb → Option City
get_city slug db = first? (city_has_slug slug) db.cities

-- `CityRepository.by_id`; no city has the key NULL.
unfoldable pub city_by_id : Option ℕ → MarketDb → Option City
city_by_id none db = none
city_by_id (some id) db = first? (city_has_id id) db.cities

-- `order_by(City.sort_order, City.slug)`
unfoldable pub city_precedes : City → City → Bool
city_precedes c d =
    ltb c.sort_order d.sort_order || (c.sort_order == d.sort_order && ltb c.slug d.slug)

unfoldable pub list_cities : Bool → MarketDb → List City
list_cities include_inactive db =
    order_by city_precedes
      (if include_inactive then db.cities else select (λ c. c.is_active) db.cities)

unfoldable pub count_cities : MarketDb → ℕ
count_cities db = count (λ _. true) db.cities

abbrev pub has_slug : ℕ → Category → Bool
has_slug slug c = c.slug == slug

abbrev pub has_id : ℕ → Category → Bool
has_id id c = c.id == id

unfoldable pub get : ℕ → MarketDb → Option Category
get slug db = first? (has_slug slug) db.categories

unfoldable pub by_id : ℕ → MarketDb → Option Category
by_id id db = first? (has_id id) db.categories

-- `order_by(Category.sort_order, Category.slug)`
unfoldable pub precedes : Category → Category → Bool
precedes c d = ltb c.sort_order d.sort_order || (c.sort_order == d.sort_order && ltb c.slug d.slug)

unfoldable pub list_categories : MarketDb → List Category
list_categories db = order_by precedes db.categories

-- A nullable foreign key against a key: NULL equals nothing.
abbrev pub refers_to : Option ℕ → ℕ → Bool
refers_to none id = false
refers_to (some parent) id = parent == id

unfoldable pub is_child_of : ℕ → Bool → Category → Bool
is_child_of id active_only c = refers_to c.parent_id id && (not active_only || c.is_active)

unfoldable pub has_children : ℕ → Bool → MarketDb → Bool
has_children id active_only db = is_some (first? (is_child_of id active_only) db.categories)

unfoldable pub record_audit : ℕ → CatalogEvent → ℕ → List CatalogField → MarketDb → MarketDb
record_audit actor_id action slug fields db = record db {
  catalog_audits =
      record { actor_id = actor_id; action = action; resource_slug = slug; fields = fields }
      ∷ db.catalog_audits;
}

-- A member of `model_fields_set`.
unfoldable pub field_if : Bool → CatalogField → List CatalogField → List CatalogField
field_if present field rest = if present then field ∷ rest else rest

-- `catalog_mutation`. The row that `lock_writes` locks is seeded by a migration.
unfoldable pub catalog_mutation : {A : Type 0} → ℕ → Call A → Call A
catalog_mutation actor_id body = transaction (do
  authorize (λ db. lock_active_user actor_id false db.sellers.accounts)
  authorize (λ db. require_db_admin actor_id db.sellers.accounts)
  body)
