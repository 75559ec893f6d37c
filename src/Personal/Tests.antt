-- ===== src/Personal/Tests.antt =====
-- Runs of the favorites and of the viewing history, and the theorems applied to them.
use unishop_china.Prelude.{ℕ, ◌≡◌, refl, some, [], ◌∷◌, arith}
use unishop_china.Prelude.Rows.{select, first?, update, count}
use unishop_china.Prelude.Rows.Sorting.{insert, order_by}
use unishop_china.Repositories.Users
use unishop_china.Accounts.Service as Accounts
use unishop_china.Market.Tables.{ProductFavorite, ProductRecentView, ProductStatus, MarketDb}
use unishop_china.Market.Call
use unishop_china.Market.Call.{Fault, Outcome, ◌>>=◌}
use unishop_china.Market.Samples.{listing, market}
use unishop_china.Catalog.Repository
use unishop_china.Catalog.Categories
use unishop_china.Profiles.Service as Profiles
use unishop_china.Products.Service
use unishop_china.Products.Public
use unishop_china.Personal.Favorites
use unishop_china.Personal.History
use unishop_china.Personal.Saved.{IsBounded}
use unishop_china.Personal.Quota
use unishop_china.Personal.Toggle.{add_twice}
use unishop_china.Personal.Quota.{history-IsBounded}
use unishop_china.Personal.Retention
use unishop_china.Personal.Viewed
use unishop_china.Personal.Viewed.{views_history-IsBounded}

program : Unit {0}
unfolding select first? update count insert order_by Accounts.lock_active_user Users.get_by_id
    Call.pure Call.gets Call.found Call.load Call.authorize Call.transaction ◌>>=◌ Call.modify
    Call.fail_if Repository.by_id Categories.is_active_root Categories.is_publicly_active
    Categories.parent_of Profiles.get_by_user_id Profiles.has_length Profiles.is_verified_of
    Profiles.has_verified_attempt Service.view_of Service.joined Public.is_visible_seller
    Public.publicly_visible Public.public_of Public.public_row Public.public_candidate
    Favorites.public_product_id Favorites.is_newer Favorites.entries_for_update Favorites.add_row
    Favorites.add_unless Favorites.add Favorites.has_slug_id Favorites.remove_rows Favorites.remove
    History.is_newer History.entries_for_update History.touched History.upsert
    History.remove_entries History.record_view
program = tt

abbrev selling : MarketDb
selling = record market {
  listings =
      record listing { status = ProductStatus.published; published_at = some 500 }
      ∷ record listing {
        id = 31;
        public_slug = 301;
        status = ProductStatus.published;
        published_at = some 501;
      }
      ∷ [];
}

abbrev favorite : ProductFavorite
favorite = record { user_id = 2; product_listing_id = 30; favorited_at = 700 }

abbrev saving : MarketDb
saving = record selling { favorites = favorite ∷ [] }

adds : Favorites.add 1 2 300 700 selling ≡ (Outcome.done tt, saving)
unfolding program
adds = refl

-- The quota of one is full.
add_second : (Favorites.add 1 2 301 701 saving).0 ≡ Outcome.failed (Fault.personalization 409)
unfolding program
add_second = refl

removes : Favorites.remove 2 300 saving ≡ (Outcome.done tt, selling)
unfolding program
removes = refl

abbrev viewed : ℕ → ℕ → ProductRecentView
viewed id at = record { user_id = 2; product_listing_id = id; last_viewed_at = at }

abbrev watching : MarketDb
watching = record selling { recent_views = viewed 30 700 ∷ [] }

-- With a retention of one, the older view goes.
views : (History.record_view 1 2 301 701 watching).1.recent_views ≡ viewed 31 701 ∷ []
unfolding program
views = refl

selling-IsBounded : IsBounded 1 selling.favorites
selling-IsBounded = record {
  within = λ u. unfold count in omega arith;
  unique = λ u p. unfold count in omega arith;
}

saving-IsBounded : IsBounded 1 saving.favorites
saving-IsBounded = record {
  within = λ u. unfold count in ground arith;
  unique = λ u p. unfold count in ground arith;
}

watching-IsBounded : Retention.IsBounded 1 watching.recent_views
watching-IsBounded = record {
  within = λ u. unfold count in ground arith;
  unique = λ u p. unfold count in ground arith;
}

add_twice_example : Favorites.add 1 2 300 800 saving ≡ (Outcome.done tt, saving)
add_twice_example = add_twice 1 2 300 700 800 selling saving (omega arith) selling-IsBounded adds

history-IsBounded_example : IsBounded 1 (Favorites.add 1 2 301 701 saving).1.favorites
history-IsBounded_example =
    history-IsBounded 1 saving _ (omega arith)
      (Quota.Reach.next Quota.Reach.here (Quota.Step.add saving 2 301 701)) saving-IsBounded

views_history-IsBounded_example :
    Retention.IsBounded 1 (History.record_view 1 2 301 701 watching).1.recent_views
views_history-IsBounded_example =
    views_history-IsBounded 1 watching _ (omega arith)
      (Viewed.Reach.next Viewed.Reach.here (Viewed.Step.record_view watching 2 301 701))
      watching-IsBounded
