-- ===== src/Products/Tests.antt =====
-- Runs of a listing, and the theorems applied to them.
use unishop_china.Prelude.{◌≡◌, refl, inl, some, [], ◌∷◌, arith}
use unishop_china.Prelude.Rows.{select, first?, update, count, top?}
use unishop_china.Repositories.Users
use unishop_china.Accounts.Service as Accounts
use unishop_china.Sellers.Tables as Sellers
use unishop_china.Market.Tables.{ProductListing, ProductStatus, MarketDb}
use unishop_china.Market.Call
use unishop_china.Market.Call.{Fault, Outcome, Done, ◌>>=◌, is_done}
use unishop_china.Market.Samples.{ascii, approval, city, root, leaf, listing, market}
use unishop_china.Catalog.Repository
use unishop_china.Catalog.Cities
use unishop_china.Catalog.Categories
use unishop_china.Catalog.Reach.{IsCatalog}
use unishop_china.Profiles.Service as Profiles
use unishop_china.Products.Text
use unishop_china.Products.Service
use unishop_china.Products.Public
use unishop_china.Products.Service.{View, ListingAction}
use unishop_china.Products.Public.{PublicView}
use unishop_china.Products.Lifecycle.{transition-Promise}
use unishop_china.Products.Promise.{Promise}
use unishop_china.Products.Table.{IsTable}
use unishop_china.Products.History.{Step, Reach, history-IsTable}
use unishop_china.Products.Visible.{withdrawn_hidden}
use unishop_china.Products.Published.{published_visible}
use unishop_china.Products.Eligible.{LatestDecides, public_view-eq-eligible}

program : Unit {0}
unfolding select first? update count top? Accounts.lock_active_user Users.get_by_id Sellers.is_newer
    Sellers.latest Call.pure Call.fail Call.gets Call.found Call.load Call.authorize
    Call.transaction ◌>>=◌ Call.modify Call.fail_if Repository.city_by_id Repository.get_city
    Repository.get Repository.by_id Cities.active_city Cities.resolve_active_city
    Categories.is_active_root Categories.is_publicly_active Categories.parent_of Categories.is_open
    Categories.resolve_active Profiles.get_by_user_id Profiles.has_length
    Profiles.required_onboarding_fields_valid Profiles.has_required_fields Profiles.is_complete
    Profiles.completed_profile Profiles.is_verified_of Profiles.has_verified_attempt
    Text.is_direction_control Text.replace_newlines Text.strip Text.joined Text.is_unsupported
    Text.has_unsupported Text.normalize_plain_text Text.title_text Text.description_text
    Text.is_price Service.lock_verified_seller Service.eligible Service.owned_row Service.owned
    Service.view_of Service.joined Service.joined_option Service.owned_view Service.own_response
    Service.assign Service.is_allowed Service.published Service.withdrawn Service.withdraw_row
    Service.may_act Service.is_valid_listing Service.publish_row Service.carry_out
    Service.transition Public.is_visible_seller Public.publicly_visible Public.public_of
    Public.public_row Public.public_candidate Public.public_view
program = tt

abbrev shown_listing : ProductListing
shown_listing = record listing { status = ProductStatus.published; published_at = some 500 }

abbrev hidden_listing : ProductListing
hidden_listing = record shown_listing { status = ProductStatus.paused }

abbrev selling : MarketDb
selling = record market { listings = shown_listing ∷ [] }

abbrev withdrawn : MarketDb
withdrawn = record market { listings = hidden_listing ∷ [] }

abbrev view : ProductListing → View
view row = record { row = row; city = city; category = leaf; parent = some root }

publishes :
    Service.transition ascii ListingAction.publish 1 300 500 market
    ≡ (Outcome.done (view shown_listing), selling)
unfolding program
publishes = refl

pauses :
    Service.transition ascii ListingAction.pause 1 300 600 selling
    ≡ (Outcome.done (view hidden_listing), withdrawn)
unfolding program
pauses = refl

-- A draft cannot be paused.
pause_draft :
    (Service.transition ascii ListingAction.pause 1 300 500 market).0
    ≡ Outcome.failed (Fault.listing 409)
unfolding program
pause_draft = refl

title_spaces : Text.title_text ascii (32 ∷ 65 ∷ 32 ∷ 32 ∷ 66 ∷ 32 ∷ []) ≡ some (65 ∷ 32 ∷ 66 ∷ [])
unfolding program
title_spaces = refl

market-IsTable : IsTable market.listings
market-IsTable = record {
  unique_id = λ i. unfold count in ground arith;
  unique_slug = λ s. unfold count in ground arith;
  publication = (refl, tt);
}

selling-IsTable : IsTable selling.listings
selling-IsTable = record {
  unique_id = λ i. unfold count in ground arith;
  unique_slug = λ s. unfold count in ground arith;
  publication = (refl, tt);
}

market-IsCatalog : IsCatalog market
market-IsCatalog = record {
  tree = record {
    unique_id = λ i. unfold count in ground arith;
    unique_slug = λ s. unfold count in ground arith;
    nested =
        (((refl, refl), tt), (((refl, refl), (root, unfold first? in refl, refl, λ a. refl)), tt));
    bounded = unfold count in omega arith;
  };
  city_table = record {
    unique_id = λ i. unfold count in ground arith;
    unique_slug = λ s. unfold count in ground arith;
    bounded = unfold count in omega arith;
  };
}

transition-Promise_example :
    Done
      (Promise ascii ListingAction.publish 1 300 500 market)
      market
      (Service.transition ascii ListingAction.publish 1 300 500 market)
transition-Promise_example = transition-Promise ascii 1 300 500 market ListingAction.publish

history-IsTable_example : IsTable selling.listings
unfolding program
history-IsTable_example =
    history-IsTable market selling
      (Reach.next Reach.here (Step.transition market ascii ListingAction.publish 1 300 500))
      market-IsTable

withdrawn_hidden_example :
    Public.public_view 300 withdrawn ≡ (Outcome.failed (Fault.listing 404), withdrawn)
withdrawn_hidden_example =
    withdrawn_hidden ascii 1 300 600 selling withdrawn (view hidden_listing) selling-IsTable
      ListingAction.pause (inl refl) pauses

published_visible_example :
    (shown : PublicView) × (Public.public_view 300 selling ≡ (Outcome.done shown, selling))
    × (shown.view ≡ view shown_listing)
published_visible_example =
    published_visible ascii 1 300 500 market selling (view shown_listing) market-IsTable
      market-IsCatalog publishes

latest_decides : LatestDecides 1 selling
latest_decides shown = (approval, unfold program in refl, refl)

public_view-eq-eligible_example :
    is_done (Public.public_view 300 selling).0 ≡ is_done (Service.eligible 1 selling).0
public_view-eq-eligible_example =
    public_view-eq-eligible 300 shown_listing (view shown_listing) selling (unfold program in refl)
      (unfold program in refl) refl refl refl (unfold program in refl) latest_decides
