-- ===== src/Products/Service.antt =====
-- `ProductService` and `ProductRepository`, method by method. A response is the listing with its
-- city, its category and the parent of that; its columns are readings of these rows.
use unishop_china.Prelude.{
  ℕ, zero, suc, ◌+◌, Bool, true, false, not, ◌&&◌, Option, none, some, List, ◌∷◌, is_some, is_none,
  leb, ◌==◌, if◌then◌else◌, length,
}
use unishop_china.Prelude.Rows.{first?, update}
use unishop_china.Models.{User}
use unishop_china.Accounts.Service.{lock_active_user}
use unishop_china.Sellers.Tables as Sellers
use unishop_china.Market.Tables.{
  City, Category, UserProfile, ProductListing, ProductStatus, ProductCondition, MarketDb,
  is_archived,
}
use unishop_china.Market.Call.{
  Fault, Call, pure, fail, gets, load, authorize, transaction, ◌>>=◌, ◌>>◌, modify, fail_if,
}
use unishop_china.Catalog.Repository
use unishop_china.Catalog.Cities.{resolve_active_city}
use unishop_china.Catalog.Categories.{resolve_active, parent_of}
use unishop_china.Profiles.Service.{completed_profile, is_verified}
use unishop_china.Products.Text.{Unicode, title_text, description_text, is_price}

pub record View : Type 0 where
  pub row : ProductListing
  pub city : City
  pub category : Category
  pub parent : Option Category

-- The bodies, validated and normalized by their schemas.
pub record ProductCreate : Type 0 where
  pub title : List ℕ
  pub description : List ℕ
  pub price : ℕ
  pub condition : ProductCondition
  pub city_slug : ℕ
  pub category_slug : ℕ

pub record ProductUpdate : Type 0 where
  pub title : Option (List ℕ)
  pub description : Option (List ℕ)
  pub price : Option ℕ
  pub condition : Option ProductCondition
  pub city_slug : Option ℕ
  pub category_slug : Option ℕ

-- What the generators draw for one round of an insertion.
pub record ListingDraw : Type 0 where
  pub id : ℕ
  pub public_slug : ℕ

pub data ListingAction : Type 0 where
  publish pause archive other : ListingAction

-- `lock_verified_seller` of backend/app/core/authorization.py
unfoldable pub lock_verified_seller : ℕ → Call User
lock_verified_seller user_id = do
  user ← authorize (λ db. lock_active_user user_id true db.sellers.accounts)
  attempt ← load (λ db. Sellers.latest user_id db.sellers) (Fault.authorization 403)
  fail_if (λ _. not (is_verified attempt.status)) (Fault.authorization 403)
  pure user

-- An incomplete onboarding is the error of a listing.
unfoldable pub eligible : ℕ → Call UserProfile
eligible user_id = do
  lock_verified_seller user_id
  load (completed_profile user_id) (Fault.listing 403)

abbrev pub has_slug : ℕ → ProductListing → Bool
has_slug slug l = l.public_slug == slug

abbrev pub has_id : ℕ → ProductListing → Bool
has_id id l = l.id == id

abbrev pub is_owned : ℕ → ℕ → ProductListing → Bool
is_owned user_id slug l = l.seller_user_id == user_id && l.public_slug == slug

unfoldable pub owned_row : ℕ → ℕ → MarketDb → Option ProductListing
owned_row user_id slug db = first? (is_owned user_id slug) db.listings

unfoldable pub owned : ℕ → ℕ → Call ProductListing
owned user_id slug = load (owned_row user_id slug) (Fault.listing 404)

unfoldable pub view_of : ProductListing → Option City → Option Category → MarketDb → Option View
view_of row none category db = none
view_of row (some city) none db = none
view_of row (some city) (some category) db =
    some (record { row = row; city = city; category = category; parent = parent_of category db })

-- The inner joins with the city and the category, and the outer join with the parent.
unfoldable pub joined : ProductListing → MarketDb → Option View
unfolding view_of
joined row db =
    view_of row (first? (Repository.city_has_id row.city_id) db.cities)
      (Repository.by_id row.category_id db) db

unfoldable pub joined_option : Option ProductListing → MarketDb → Option View
joined_option none db = none
joined_option (some row) db = joined row db

unfoldable pub owned_view : ℕ → ℕ → MarketDb → Option View
unfolding joined_option
owned_view user_id slug db = joined_option (owned_row user_id slug db) db

-- A view that is not there cannot be shown.
unfoldable pub own_response : ℕ → ℕ → Call View
own_response user_id slug = load (owned_view user_id slug) Fault.type_error

unfoldable pub new_listing : ℕ → ListingDraw → ProductCreate → City → Category → ProductListing
new_listing user_id draw body city category = record {
  id = draw.id;
  seller_user_id = user_id;
  public_slug = draw.public_slug;
  title = body.title;
  description = body.description;
  price = body.price;
  condition = body.condition;
  status = ProductStatus.draft;
  city_id = city.id;
  category_id = category.id;
  published_at = none;
}

unfoldable pub add_listing : ProductListing → MarketDb → MarketDb
add_listing row db = record db { listings = row ∷ db.listings }

unfoldable pub insert_or_retry : Bool → ProductListing → Call ProductListing → Call ProductListing
insert_or_retry true row retry = retry
insert_or_retry false row retry = do modify (add_listing row); pure row

-- `ProductRepository.create`: a slug that is taken is retried, with new draws.
unfoldable pub create_attempts :
    ℕ → ℕ → (ℕ → ListingDraw) → ℕ → ProductCreate → City → Category → Call ProductListing
create_attempts zero user_id draws round body city category = fail Fault.runtime_error
create_attempts (suc n) user_id draws round body city category =
    let retry = create_attempts n user_id draws (round + 1) body city category in
    do
      fail_if (λ db. is_some (first? (has_id (draws round).id) db.listings)) Fault.integrity_error
      taken ← gets (λ db. is_some (first? (has_slug (draws round).public_slug) db.listings))
      insert_or_retry taken (new_listing user_id (draws round) body city category) retry

unfoldable pub create : ℕ → (ℕ → ListingDraw) → ProductCreate → Call View
create user_id draws body = transaction (do
  eligible user_id
  city ← resolve_active_city body.city_slug
  category ← resolve_active body.category_slug
  row ← create_attempts 8 user_id draws 0 body city category
  own_response user_id row.public_slug)

unfoldable pub get_owned : ℕ → ℕ → Call View
get_owned user_id slug = transaction (do
  authorize (λ db. lock_active_user user_id false db.sellers.accounts)
  owned user_id slug
  own_response user_id slug)

-- The key that a body names, where it names one.
unfoldable pub requested_city : Option ℕ → Call (Option ℕ)
requested_city none = pure none
requested_city (some slug) = do city ← resolve_active_city slug; pure (some city.id)

unfoldable pub requested_category : Option ℕ → Call (Option ℕ)
requested_category none = pure none
requested_category (some slug) = do category ← resolve_active slug; pure (some category.id)

abbrev or_kept : {A : Type 0} → Option A → A → A
or_kept none a = a
or_kept (some b) a = b

unfoldable pub edited : ProductUpdate → Option ℕ → Option ℕ → ProductListing → ProductListing
edited body city category l = record l {
  city_id = or_kept city l.city_id;
  category_id = or_kept category l.category_id;
  title = or_kept body.title l.title;
  description = or_kept body.description l.description;
  condition = or_kept body.condition l.condition;
  price = or_kept body.price l.price;
}

-- Assignments to the loaded row.
unfoldable pub assign : ℕ → (ProductListing → ProductListing) → MarketDb → MarketDb
assign id f db = record db { listings = update (has_id id) f db.listings }

unfoldable pub update_listing : ℕ → ℕ → ProductUpdate → Call View
update_listing user_id slug body = transaction (do
  eligible user_id
  row ← owned user_id slug
  fail_if (λ _. is_archived row.status) (Fault.listing 409)
  city ← requested_city body.city_slug
  category ← requested_category body.category_slug
  modify (assign row.id (edited body city category))
  own_response user_id slug)

-- `row.status in allowed[action]`; another action is in none.
unfoldable pub is_allowed : ListingAction → ProductStatus → Bool
is_allowed ListingAction.publish ProductStatus.draft = true
is_allowed ListingAction.publish ProductStatus.paused = true
is_allowed ListingAction.publish ProductStatus.published = false
is_allowed ListingAction.publish ProductStatus.archived = false
is_allowed ListingAction.pause ProductStatus.published = true
is_allowed ListingAction.pause ProductStatus.draft = false
is_allowed ListingAction.pause ProductStatus.paused = false
is_allowed ListingAction.pause ProductStatus.archived = false
is_allowed ListingAction.archive ProductStatus.archived = false
is_allowed ListingAction.archive ProductStatus.draft = true
is_allowed ListingAction.archive ProductStatus.published = true
is_allowed ListingAction.archive ProductStatus.paused = true
is_allowed ListingAction.other status = false

unfoldable pub published : ℕ → ProductListing → ProductListing
published now l = record l {
  status = ProductStatus.published;
  published_at = if is_none l.published_at then some now else l.published_at;
}

unfoldable pub withdrawn : ProductStatus → ProductListing → ProductListing
withdrawn status l = record l { status = status }

unfoldable pub withdraw_row : ℕ → ℕ → ProductStatus → ProductListing → Call View
withdraw_row user_id slug status row = do
  modify (assign row.id (withdrawn status))
  own_response user_id slug

-- Publishing needs an eligible seller, the other actions an active account.
unfoldable pub may_act : ListingAction → ℕ → Call (Unit {0})
may_act ListingAction.publish user_id = do eligible user_id; pure tt
may_act _ user_id = do authorize (λ db. lock_active_user user_id false db.sellers.accounts); pure tt

module _ (unicode : Unicode) where
  -- The validation of `ProductCreate` on the stored texts and price.
  unfoldable pub is_valid_listing : ProductListing → Bool
  is_valid_listing l =
      leb (length l.title) 120
      && is_some (title_text unicode l.title)
      && leb (length l.description) 10000
      && is_some (description_text unicode l.description)
      && is_price l.price

  unfoldable pub publish_row : ℕ → ℕ → ℕ → ProductListing → Call View
  publish_row user_id slug now row = do
    view ← load (owned_view user_id slug) Fault.type_error
    city ← resolve_active_city view.city.slug
    category ← resolve_active view.category.slug
    fail_if (λ _. not (is_valid_listing row)) (Fault.listing 422)
    modify (assign row.id (published now))
    own_response user_id slug

  -- What follows the test of the status.
  unfoldable pub carry_out : ListingAction → ℕ → ℕ → ℕ → ProductListing → Call View
  carry_out ListingAction.publish user_id slug now row = publish_row user_id slug now row
  carry_out ListingAction.pause user_id slug now row =
      withdraw_row user_id slug ProductStatus.paused row
  carry_out ListingAction.archive user_id slug now row =
      withdraw_row user_id slug ProductStatus.archived row
  carry_out ListingAction.other user_id slug now row =
      withdraw_row user_id slug ProductStatus.archived row

  unfoldable pub transition : ListingAction → ℕ → ℕ → ℕ → Call View
  transition action user_id slug now = transaction (do
    may_act action user_id
    row ← owned user_id slug
    fail_if (λ _. not (is_allowed action row.status)) (Fault.listing 409)
    carry_out action user_id slug now row)
