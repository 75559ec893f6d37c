-- ===== src/Catalog/Tests.antt =====
-- Runs of the catalog, and the theorems applied to them.
use unishop_china.Prelude.{◌≡◌, refl, false, none, some, arith}
use unishop_china.Prelude.Rows.{select, first?, update, count}
use unishop_china.Prelude.Rows.Sorting.{insert, order_by}
use unishop_china.Repositories.Users
use unishop_china.Accounts.Service as Accounts
use unishop_china.Market.Tables.{MarketDb}
use unishop_china.Market.Call
use unishop_china.Market.Call.{Fault, Outcome, ◌>>=◌}
use unishop_china.Market.Samples.{root, market}
use unishop_china.Catalog.Repository
use unishop_china.Catalog.Cities
use unishop_china.Catalog.Categories
use unishop_china.Catalog.Categories.{CategoryCreate}
use unishop_china.Catalog.Tree.{IsTree}
use unishop_china.Catalog.Reach.{Step, Reach, IsCatalog, history-IsCatalog}
use unishop_china.Catalog.Visible.{shown, get_public-resolve_active}

program : Unit {0}
unfolding select first? update count insert order_by Accounts.lock_active_user Accounts.is_admin_row
    Accounts.require_db_admin Users.get_by_id Call.pure Call.gets Call.found Call.load
    Call.authorize Call.transaction ◌>>=◌ Call.modify Call.fail_if Repository.get Repository.by_id
    Repository.precedes Repository.list_categories Repository.is_child_of Repository.has_children
    Repository.record_audit Repository.field_if Repository.catalog_mutation Cities.or_default
    Categories.slug_of Categories.parent_in Categories.response Categories.has_children_of
    Categories.check_parent Categories.validate_parent Categories.assign_parent
    Categories.new_category Categories.created_fields Categories.add Categories.create
    Categories.assign Categories.activated Categories.is_closed Categories.set_active
program = tt

abbrev body : CategoryCreate
body = record {
  slug = 203;
  name_en = 5;
  name_zh = 6;
  description = none;
  parent_slug = some (some 201);
  sort_order = none;
}

abbrev created : MarketDb
created = (Categories.create 2 23 body market).1

-- A root with an active child stays active.
deactivate_root : (Categories.set_active 2 201 false created).0 ≡ Outcome.failed (Fault.catalog 409)
unfolding program
deactivate_root = refl

-- A child of a child is refused.
create_below_child :
    (Categories.create 2 24 (record body { slug = 204; parent_slug = some (some 203) }) created).0
    ≡ Outcome.failed (Fault.catalog 409)
unfolding program
create_below_child = refl

valid_tree : IsTree market.categories
valid_tree = record {
  unique_id = λ i. unfold count in ground arith;
  unique_slug = λ s. unfold count in ground arith;
  nested =
      (((refl, refl), tt), (((refl, refl), (root, unfold first? in refl, refl, λ a. refl)), tt));
  bounded = unfold count in omega arith;
}

valid : IsCatalog market
valid = record {
  tree = valid_tree;
  city_table = record {
    unique_id = λ i. unfold count in ground arith;
    unique_slug = λ s. unfold count in ground arith;
    bounded = unfold count in omega arith;
  };
}

history-IsCatalog_example : IsCatalog created
history-IsCatalog_example =
    history-IsCatalog market created (Reach.next Reach.here (Step.create market 2 23 body)) valid

get_public-resolve_active_example :
    (Categories.get_public 202 market
      ≡ (shown 202 market valid_tree (Categories.resolve_active 202 market).0, market))
    × ((Categories.resolve_active 202 market).1 ≡ market)
get_public-resolve_active_example = get_public-resolve_active 202 market valid_tree
