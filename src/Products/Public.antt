-- ===== src/Products/Public.antt =====
-- `public_view` of `ProductService` and `public_candidate` of `ProductRepository`, over the condition of
-- backend/app/repositories/product_visibility.py.
use unishop_china.Prelude.{ℕ, Bool, ◌&&◌, Option, none, some, List, is_some, if◌then◌else◌}
use unishop_china.Prelude.Rows.{first?}
use unishop_china.Models.{User, is_active}
use unishop_china.Repositories.Users
use unishop_china.Market.Tables.{UserProfile, ProductListing, MarketDb, is_published}
use unishop_china.Market.Call.{Fault, Call, load}
use unishop_china.Catalog.Categories.{is_publicly_active}
use unishop_china.Profiles.Service.{get_by_user_id, has_length, has_verified_attempt}
use unishop_china.Products.Service.{View, has_slug, joined}

-- `PublicProduct`: the view and the seller; `seller_verified` is always true.
pub record PublicView : Type 0 where
  pub view : View
  pub public_handle : ℕ
  pub display_name : Option (List ℕ)

-- The conditions of `publicly_visible` on the seller's account and profile.
unfoldable pub is_visible_seller : User → UserProfile → MarketDb → Bool
is_visible_seller user profile db =
    is_active user.account_status
    && user.email_verified
    && user.phone_verified
    && has_verified_attempt user.id db
    && profile.onboarding_completed
    && has_length profile.display_name
    && is_some profile.city_id

-- `publicly_visible`
unfoldable pub publicly_visible : View → User → UserProfile → MarketDb → Bool
publicly_visible view user profile db =
    is_published view.row.status
    && is_some view.row.published_at
    && is_visible_seller user profile db
    && view.city.is_active
    && is_publicly_active view.category view.parent

-- The joins with the account and the profile of the seller.
unfoldable pub public_of :
    Option View → Option User → Option UserProfile → MarketDb → Option PublicView
public_of none user profile db = none
public_of (some view) none profile db = none
public_of (some view) (some user) none db = none
public_of (some view) (some user) (some profile) db =
    if publicly_visible view user profile db
    then some (record {
      view = view;
      public_handle = profile.public_handle;
      display_name = profile.display_name;
    })
    else none

unfoldable pub public_row : Option ProductListing → MarketDb → Option PublicView
public_row none db = none
public_row (some row) db =
    public_of (joined row db) (Users.get_by_id row.seller_user_id db.sellers.accounts)
      (get_by_user_id row.seller_user_id db) db

unfoldable pub public_candidate : ℕ → MarketDb → Option PublicView
unfolding public_row
public_candidate slug db = public_row (first? (has_slug slug) db.listings) db

unfoldable pub public_view : ℕ → Call PublicView
public_view slug = load (public_candidate slug) (Fault.listing 404)
