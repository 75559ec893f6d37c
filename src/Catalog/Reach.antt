-- ===== src/Catalog/Reach.antt =====
-- The history of the catalog under its administration.
use unishop_china.Prelude.{ℕ, Bool}
use unishop_china.Market.Tables.{MarketDb}
use unishop_china.Catalog.Categories
use unishop_china.Catalog.Categories.{CategoryCreate, CategoryUpdate}
use unishop_china.Catalog.Cities
use unishop_china.Catalog.Cities.{CityCreate, CityUpdate}
use unishop_china.Catalog.Tree.{IsTree}
use unishop_china.Catalog.CityTable.{
  IsTable, create_city-Valid, update_city-Valid, set_city_active-Valid,
}
use unishop_china.Catalog.Frames.{
  create-cities, update-cities, set_active-cities, create_city-categories, update_city-categories,
  set_city_active-categories,
}
use unishop_china.Catalog.Keeps.{create-Valid}
use unishop_china.Catalog.Updates.{update-Valid}
use unishop_china.Catalog.Activation.{set_active-Valid}

-- A call of an administrator or of anybody else; a refused call is a step as well.
pub data Step : MarketDb → MarketDb → Type 0 where
  create :
      (db : MarketDb) (actor_id id : ℕ) (body : CategoryCreate)
      → Step db (Categories.create actor_id id body db).1
  update :
      (db : MarketDb) (actor_id slug : ℕ) (body : CategoryUpdate)
      → Step db (Categories.update_category actor_id slug body db).1
  set_active :
      (db : MarketDb) (actor_id slug : ℕ) (active : Bool)
      → Step db (Categories.set_active actor_id slug active db).1
  create_city :
      (db : MarketDb) (actor_id id : ℕ) (body : CityCreate)
      → Step db (Cities.create_city actor_id id body db).1
  update_city :
      (db : MarketDb) (actor_id slug : ℕ) (body : CityUpdate)
      → Step db (Cities.update_city actor_id slug body db).1
  set_city_active :
      (db : MarketDb) (actor_id slug : ℕ) (active : Bool)
      → Step db (Cities.set_city_active actor_id slug active db).1

pub data Reach (db : MarketDb) : MarketDb → Type 0 where
  here : Reach db db
  next : {mid last : MarketDb} → Reach db mid → Step mid last → Reach db last

pub record IsCatalog (db : MarketDb) : Type 0 where
  pub tree : IsTree db.categories
  pub city_table : IsTable db.cities

-- A catalog call on one of the tables leaves the other alone.
Step-IsCatalog : {db db' : MarketDb} → Step db db' → IsCatalog db → IsCatalog db'
Step-IsCatalog (create db actor_id id body) v = record {
  tree = create-Valid actor_id id body db v.tree;
  city_table = create-cities actor_id id body db v.city_table;
}
Step-IsCatalog (update db actor_id slug body) v = record {
  tree = update-Valid actor_id slug body db v.tree;
  city_table = update-cities actor_id slug body db v.city_table;
}
Step-IsCatalog (set_active db actor_id slug active) v = record {
  tree = set_active-Valid actor_id slug active db v.tree;
  city_table = set_active-cities actor_id slug active db v.city_table;
}
Step-IsCatalog (create_city db actor_id id body) v = record {
  tree = create_city-categories actor_id id body db v.tree;
  city_table = create_city-Valid actor_id id body db v.city_table;
}
Step-IsCatalog (update_city db actor_id slug body) v = record {
  tree = update_city-categories actor_id slug body db v.tree;
  city_table = update_city-Valid actor_id slug body db v.city_table;
}
Step-IsCatalog (set_city_active db actor_id slug active) v = record {
  tree = set_city_active-categories actor_id slug active db v.tree;
  city_table = set_city_active-Valid actor_id slug active db v.city_table;
}

-- Whatever the calls that create, change, move, switch on and switch off categories and cities, and
-- whoever makes them: from a well-formed catalog, every history leads to one with unique keys and
-- slugs, at most 500 categories and 200 cities, in which every category is a root or the child of a
-- root and the parent of an active category is active.
pub history-IsCatalog : (db db' : MarketDb) → Reach db db' → IsCatalog db → IsCatalog db'
history-IsCatalog db db' here v = v
history-IsCatalog db db' (next {mid} r s) v = Step-IsCatalog s (history-IsCatalog db mid r v)
