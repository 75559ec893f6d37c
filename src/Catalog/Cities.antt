-- ===== src/Catalog/Cities.antt =====
-- `CityService`, method by method. The answer is the row, of which `response` shows the columns.
use unishop_china.Prelude.{
  ℕ, Bool, true, false, Option, none, some, List, [], ◌∷◌, is_some, leb, if◌then◌else◌,
}
use unishop_china.Prelude.Rows.{first?, update}
use unishop_china.Accounts.Service.{lock_active_user, require_db_admin}
use unishop_china.Market.Tables.{City, CatalogEvent, CatalogField, MarketDb}
use unishop_china.Market.Call.{
  Fault, Call, pure, gets, load, authorize, transaction, ◌>>=◌, ◌>>◌, modify, fail_if,
}
use unishop_china.Catalog.Repository
use unishop_china.Catalog.Repository.{city_has_id, field_if, catalog_mutation}

-- A body; an absent optional field is `none`.
pub record CityCreate : Type 0 where
  pub slug : ℕ
  pub name_en : ℕ
  pub name_zh : ℕ
  pub province_en : ℕ
  pub province_zh : Option (Option ℕ)
  pub country_code : Bool
  pub sort_order : Option ℕ

pub record CityUpdate : Type 0 where
  pub name_en : Option ℕ
  pub name_zh : Option ℕ
  pub province_en : Option ℕ
  pub province_zh : Option (Option ℕ)
  pub sort_order : Option ℕ

-- A field of a body with a default, and a column that a body may set.
unfoldable pub or_default : {A : Type 0} → Option A → A → A
or_default none d = d
or_default (some a) d = a

-- `sorted(body.model_fields_set)`
unfoldable pub created_fields : CityCreate → List CatalogField
unfolding field_if
created_fields body = field_if body.country_code CatalogField.country_code_field (
    CatalogField.name_en_field
    ∷ CatalogField.name_zh_field
    ∷ CatalogField.province_en_field
    ∷ field_if (is_some body.province_zh) CatalogField.province_zh_field (
        CatalogField.slug_field
        ∷ field_if (is_some body.sort_order) CatalogField.sort_order_field []))

unfoldable pub updated_fields : CityUpdate → List CatalogField
unfolding field_if
updated_fields body = field_if (is_some body.name_en) CatalogField.name_en_field (
    field_if (is_some body.name_zh) CatalogField.name_zh_field (
      field_if (is_some body.province_en) CatalogField.province_en_field (
        field_if (is_some body.province_zh) CatalogField.province_zh_field
          (field_if (is_some body.sort_order) CatalogField.sort_order_field []))))

unfoldable pub new_city : ℕ → CityCreate → City
unfolding or_default
new_city id body = record {
  id = id;
  slug = body.slug;
  name_en = body.name_en;
  name_zh = body.name_zh;
  province_en = body.province_en;
  province_zh = or_default body.province_zh none;
  is_active = true;
  sort_order = or_default body.sort_order 0;
}

unfoldable pub patched_city : CityUpdate → City → City
unfolding or_default
patched_city body c = record c {
  name_en = or_default body.name_en c.name_en;
  name_zh = or_default body.name_zh c.name_zh;
  province_en = or_default body.province_en c.province_en;
  province_zh = or_default body.province_zh c.province_zh;
  sort_order = or_default body.sort_order c.sort_order;
}

unfoldable pub activated_city : Bool → City → City
activated_city active c = record c { is_active = active }

-- Assignments to the loaded row.
unfoldable pub assign_city : ℕ → (City → City) → MarketDb → MarketDb
assign_city id f db = record db { cities = update (city_has_id id) f db.cities }

unfoldable pub add_city : City → MarketDb → MarketDb
add_city row db = record db { cities = row ∷ db.cities }

-- `id` is the key drawn for the row.
unfoldable pub create_city : ℕ → ℕ → CityCreate → Call City
unfolding new_city
create_city actor_id id body = catalog_mutation actor_id (do
  fail_if (λ db. is_some (Repository.get_city body.slug db)) (Fault.catalog 409)
  fail_if (λ db. leb 200 (Repository.count_cities db)) (Fault.catalog 409)
  fail_if (λ db. is_some (first? (city_has_id id) db.cities)) Fault.integrity_error
  modify (add_city (new_city id body))
  modify
      (Repository.record_audit actor_id CatalogEvent.city_created body.slug (created_fields body))
  pure (new_city id body))

unfoldable pub update_city : ℕ → ℕ → CityUpdate → Call City
update_city actor_id slug body = catalog_mutation actor_id (do
  row ← load (Repository.get_city slug) (Fault.catalog 404)
  modify (assign_city row.id (patched_city body))
  modify (Repository.record_audit actor_id CatalogEvent.city_updated slug (updated_fields body))
  pure (patched_city body row))

unfoldable pub set_city_active : ℕ → ℕ → Bool → Call City
set_city_active actor_id slug active = catalog_mutation actor_id (do
  row ← load (Repository.get_city slug) (Fault.catalog 404)
  modify (assign_city row.id (activated_city active))
  modify (
      Repository.record_audit actor_id
        (if active then CatalogEvent.city_activated else CatalogEvent.city_deactivated) slug
        (CatalogField.is_active_field ∷ []))
  pure (activated_city active row))

unfoldable pub is_open_city : Option City → Bool
is_open_city none = false
is_open_city (some row) = row.is_active

-- The loaded city, if it is active.
unfoldable pub active_city : ℕ → MarketDb → Option City
unfolding is_open_city
active_city slug db =
    let row = Repository.get_city slug db in if is_open_city row then row else none

unfoldable pub get_public_city : ℕ → Call City
get_public_city slug = load (active_city slug) (Fault.catalog 404)

unfoldable pub resolve_active_city : ℕ → Call City
resolve_active_city slug = load (active_city slug) (Fault.catalog 422)

unfoldable pub list_public_cities : MarketDb → List City
list_public_cities = Repository.list_cities false

unfoldable pub list_admin_cities : ℕ → Call (List City)
list_admin_cities actor_id = transaction (do
  authorize (λ db. lock_active_user actor_id false db.sellers.accounts)
  authorize (λ db. require_db_admin actor_id db.sellers.accounts)
  gets (Repository.list_cities true))
