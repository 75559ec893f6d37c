-- ===== src/Catalog/Frames.antt =====
-- The calls on the categories leave the cities as they are, and the other way round.
use unishop_china.Prelude.{ℕ, Bool}
use unishop_china.Market.Tables.{MarketDb}
use unishop_china.Market.Rules.{
  Ensures-pure, Ensures-get, Ensures-load, Ensures-unless, Ensures-check, Ensures-modify,
}
use unishop_china.Catalog.Repository
use unishop_china.Catalog.Categories
use unishop_china.Catalog.Categories.{CategoryCreate, CategoryUpdate}
use unishop_china.Catalog.Cities
use unishop_china.Catalog.Cities.{CityCreate, CityUpdate}
use unishop_china.Catalog.Parents.{validate_parent-Ensures}
use unishop_china.Catalog.Updates.{new_parent-Ensures}
use unishop_china.Catalog.CityTable.{CitiesValid, mutation-keeps}
use unishop_china.Catalog.Keeps.{Valid}

pub create-cities :
    (actor_id id : ℕ) (body : CategoryCreate) (db : MarketDb)
    → CitiesValid db
    → CitiesValid (Categories.create actor_id id body db).1
unfolding Categories.create Categories.add Repository.record_audit
create-cities actor_id id body db v = mutation-keeps CitiesValid actor_id _ db v (
    Ensures-unless _ db _ _ λ free. Ensures-unless _ db _ _ λ room.
      Ensures-check _ db _ _ (validate_parent-Ensures _ _ _ db) λ parent chosen.
        Ensures-unless _ db _ _
          λ fresh. Ensures-modify _ db _ (Ensures-modify _ _ _ (Ensures-get _ _ v)))

pub update-cities :
    (actor_id slug : ℕ) (body : CategoryUpdate) (db : MarketDb)
    → CitiesValid db
    → CitiesValid (Categories.update_category actor_id slug body db).1
unfolding Categories.update_category Categories.assign Repository.record_audit
update-cities actor_id slug body db v = mutation-keeps CitiesValid actor_id _ db v (
    Ensures-load _ db _ _ λ row found.
      Ensures-check _ db _ _ (new_parent-Ensures row body.parent_slug db)
        λ parent chosen. Ensures-modify _ db _ (Ensures-modify _ _ _ (Ensures-get _ _ v)))

pub set_active-cities :
    (actor_id slug : ℕ) (active : Bool) (db : MarketDb)
    → CitiesValid db
    → CitiesValid (Categories.set_active actor_id slug active db).1
unfolding Categories.set_active Categories.assign Repository.record_audit
set_active-cities actor_id slug active db v = mutation-keeps CitiesValid actor_id _ db v (
    Ensures-load _ db _ _ λ row found. Ensures-unless _ db _ _ λ unblocked.
      Ensures-unless _ db _ _
        λ leaf. Ensures-modify _ db _ (Ensures-modify _ _ _ (Ensures-get _ _ v)))

pub create_city-categories :
    (actor_id id : ℕ) (body : CityCreate) (db : MarketDb)
    → Valid db
    → Valid (Cities.create_city actor_id id body db).1
unfolding Cities.create_city Cities.add_city Repository.record_audit
create_city-categories actor_id id body db v = mutation-keeps Valid actor_id _ db v (
    Ensures-unless _ db _ _ λ free. Ensures-unless _ db _ _ λ room.
      Ensures-unless _ db _ _
        λ fresh. Ensures-modify _ db _ (Ensures-modify _ _ _ (Ensures-pure _ _ v)))

pub update_city-categories :
    (actor_id slug : ℕ) (body : CityUpdate) (db : MarketDb)
    → Valid db
    → Valid (Cities.update_city actor_id slug body db).1
unfolding Cities.update_city Cities.assign_city Repository.record_audit
update_city-categories actor_id slug body db v = mutation-keeps Valid actor_id _ db v (
    Ensures-load _ db _ _
      λ row found. Ensures-modify _ db _ (Ensures-modify _ _ _ (Ensures-pure _ _ v)))

pub set_city_active-categories :
    (actor_id slug : ℕ) (active : Bool) (db : MarketDb)
    → Valid db
    → Valid (Cities.set_city_active actor_id slug active db).1
unfolding Cities.set_city_active Cities.assign_city Repository.record_audit
set_city_active-categories actor_id slug active db v = mutation-keeps Valid actor_id _ db v (
    Ensures-load _ db _ _
      λ row found. Ensures-modify _ db _ (Ensures-modify _ _ _ (Ensures-pure _ _ v)))
