-- ===== src/Catalog/CityTable.antt =====
-- The administration of the cities keeps their table.
use unishop_china.Prelude.{
  ℕ, ◌≤◌, ◌≡◌, refl, true, false, Bool, none, List, ◌∷◌, arith, is_some, leb,
}
use unishop_china.Prelude.Rows.{first?, update, count}
use unishop_china.Prelude.Rows.Counting.{count-update_eq, count-none}
use unishop_china.Accounts.Service.{lock_active_user, require_db_admin}
use unishop_china.Market.Tables.{City, MarketDb}
use unishop_china.Market.Call.{Call, Ensures}
use unishop_china.Market.Rules.{
  Ensures-pure, Ensures-load, Ensures-unless, Ensures-authorize, Ensures-modify, transaction-Done,
  Done-keeps,
}
use unishop_china.Catalog.Repository
use unishop_china.Catalog.Repository.{city_has_id, city_has_slug, catalog_mutation}
use unishop_china.Catalog.Cities
use unishop_china.Catalog.Cities.{CityCreate, CityUpdate, new_city, patched_city, activated_city}

-- Keys and slugs are unique, and there are at most 200 cities.
pub record IsTable (rows : List City) : Type 0 where
  pub unique_id : (i : ℕ) → count (city_has_id i) rows ≤ 1
  pub unique_slug : (s : ℕ) → count (city_has_slug s) rows ≤ 1
  pub bounded : count (λ _. true) rows ≤ 200

-- A mutation keeps what its body keeps.
pub mutation-keeps :
    {A : Type 0} (P : MarketDb → Type 0) (actor_id : ℕ) (body : Call A) (db : MarketDb)
    → P db
    → Ensures (λ _ db'. P db') (body db)
    → P (catalog_mutation actor_id body db).1
unfolding catalog_mutation
mutation-keeps P actor_id body db v e =
    Done-keeps P db _ (λ a db' q. q) v
      (transaction-Done _ db (
        Ensures-authorize _ db (λ d. lock_active_user actor_id false d.sellers.accounts)
          λ user locked.
            Ensures-authorize _ db (λ d. require_db_admin actor_id d.sellers.accounts)
              λ u admin. e))

assigned-IsTable :
    (f : City → City) (id : ℕ) (rows : List City)
    → ((c : City) → ((f c).id ≡ c.id) × ((f c).slug ≡ c.slug))
    → IsTable rows
    → IsTable (update (city_has_id id) f rows)
assigned-IsTable f id rows same v = record {
  unique_id = λ i.
      rw (count-update_eq (city_has_id i) (city_has_id id) f rows (λ x. ground (arith, same x)))
        (v.unique_id i);
  unique_slug = λ s.
      rw (count-update_eq (city_has_slug s) (city_has_id id) f rows (λ x. ground (arith, same x)))
        (v.unique_slug s);
  bounded = rw (count-update_eq (λ _. true) (city_has_id id) f rows (λ x. refl)) v.bounded;
}

added-IsTable :
    (row : City) (rows : List City)
    → first? (city_has_id row.id) rows ≡ none
    → first? (city_has_slug row.slug) rows ≡ none
    → count (λ _. true) rows ≤ 199
    → IsTable rows
    → IsTable (row ∷ rows)
unfolding count
added-IsTable row rows fresh_id fresh_slug room v = record {
  unique_id = λ i. ground (arith, v.unique_id i, count-none (city_has_id row.id) rows fresh_id);
  unique_slug =
      λ s. ground (arith, v.unique_slug s, count-none (city_has_slug row.slug) rows fresh_slug);
  bounded = ground arith;
}

abbrev pub CitiesValid : MarketDb → Type 0
CitiesValid db = IsTable db.cities

pub create_city-Valid :
    (actor_id id : ℕ) (body : CityCreate) (db : MarketDb)
    → CitiesValid db
    → CitiesValid (Cities.create_city actor_id id body db).1
unfolding Cities.create_city Cities.add_city Repository.record_audit Repository.get_city
    Repository.count_cities new_city
create_city-Valid actor_id id body db v = mutation-keeps CitiesValid actor_id _ db v (
    Ensures-unless _ db (λ d. is_some (Repository.get_city body.slug d)) _
      λ free.
        Ensures-unless _ db (λ d. leb 200 (Repository.count_cities d)) _
          λ room.
            Ensures-unless _ db (λ d. is_some (first? (city_has_id id) d.cities)) _
              λ fresh. Ensures-modify _ db _ (
                Ensures-modify _ _ _ (
                  Ensures-pure _ _ (
                    added-IsTable (new_city id body) db.cities (ground arith) (ground arith)
                      (ground arith) v))))

pub update_city-Valid :
    (actor_id slug : ℕ) (body : CityUpdate) (db : MarketDb)
    → CitiesValid db
    → CitiesValid (Cities.update_city actor_id slug body db).1
unfolding Cities.update_city Cities.assign_city Repository.record_audit patched_city
update_city-Valid actor_id slug body db v = mutation-keeps CitiesValid actor_id _ db v (
    Ensures-load _ db (Repository.get_city slug) _ λ row found. Ensures-modify _ db _ (
      Ensures-modify _ _ _ (
        Ensures-pure _ _
          (assigned-IsTable (patched_city body) row.id db.cities (λ c. (refl, refl)) v))))

pub set_city_active-Valid :
    (actor_id slug : ℕ) (active : Bool) (db : MarketDb)
    → CitiesValid db
    → CitiesValid (Cities.set_city_active actor_id slug active db).1
unfolding Cities.set_city_active Cities.assign_city Repository.record_audit activated_city
set_city_active-Valid actor_id slug active db v = mutation-keeps CitiesValid actor_id _ db v (
    Ensures-load _ db (Repository.get_city slug) _ λ row found. Ensures-modify _ db _ (
      Ensures-modify _ _ _ (
        Ensures-pure _ _
          (assigned-IsTable (activated_city active) row.id db.cities (λ c. (refl, refl)) v))))
