-- ===== src/Products/Promise.antt =====
-- What a transition of a listing promises, written out on the rows: no test and no assignment of the
-- service stands in it.
use unishop_china.Prelude.{
  ℕ, ◌≤◌, ◌<◌, ◌≡◌, ◌⊎◌, true, false, ◌&&◌, Bool, Option, none, some, List, is_some, ◌==◌, length,
}
use unishop_china.Prelude.Rows.{first?, update}
use unishop_china.Models.{User, AccountStatus}
use unishop_china.Repositories.Users
use unishop_china.Sellers.Tables as Sellers
use unishop_china.Sellers.Tables.{VerificationStatus, SellerVerification}
use unishop_china.Market.Tables.{
  City, Category, UserProfile, ProductListing, ProductStatus, MarketDb,
}
use unishop_china.Catalog.Repository
use unishop_china.Profiles.Service.{get_by_user_id}
use unishop_china.Products.Text.{Unicode, strip, has_unsupported, joined, replace_newlines}
use unishop_china.Products.Service.{View, ListingAction, owned_view}

-- From which statuses an action is allowed.
abbrev pub Allowed : ListingAction → ProductStatus → Type 0
Allowed ListingAction.publish s = (s ≡ ProductStatus.draft) ⊎ (s ≡ ProductStatus.paused)
Allowed ListingAction.pause s = s ≡ ProductStatus.published
Allowed ListingAction.archive s =
    (s ≡ ProductStatus.draft) ⊎ ((s ≡ ProductStatus.published) ⊎ (s ≡ ProductStatus.paused))
Allowed ListingAction.other s = true ≡ false

-- The status that an action leaves, and the time of publication: the first one stays.
abbrev pub target : ListingAction → ProductStatus
target ListingAction.publish = ProductStatus.published
target ListingAction.pause = ProductStatus.paused
target ListingAction.archive = ProductStatus.archived
target ListingAction.other = ProductStatus.archived

abbrev pub first_time : ℕ → Option ℕ → Option ℕ
first_time now none = some now
first_time now (some t) = some t

abbrev pub stamped : ListingAction → ℕ → Option ℕ → Option ℕ
stamped ListingAction.publish now t = first_time now t
stamped ListingAction.pause now t = t
stamped ListingAction.archive now t = t
stamped ListingAction.other now t = t

abbrev pub IsActiveAccount : ℕ → MarketDb → Type 0
IsActiveAccount user_id db =
    (user : User) × (Users.get_by_id user_id db.sellers.accounts ≡ some user)
    × (user.account_status ≡ AccountStatus.active)

-- An active account with verified contacts, an approved latest verification, and an onboarded profile
-- with a name of 2 to 50 characters and a city.
pub record IsSeller (user_id : ℕ) (db : MarketDb) : Type 0 where
  pub user : User
  pub attempt : SellerVerification
  pub profile : UserProfile
  pub name : List ℕ
  pub account : Users.get_by_id user_id db.sellers.accounts ≡ some user
  pub active : user.account_status ≡ AccountStatus.active
  pub email : user.email_verified ≡ true
  pub phone : user.phone_verified ≡ true
  pub latest : Sellers.latest user_id db.sellers ≡ some attempt
  pub approved : attempt.status ≡ VerificationStatus.verified
  pub row : get_by_user_id user_id db ≡ some profile
  pub onboarded : profile.onboarding_completed ≡ true
  pub named : profile.display_name ≡ some name
  pub long : 2 ≤ length name
  pub short : length name ≤ 50
  pub located : is_some profile.city_id ≡ true

-- A text in its normal form, without surrounding space, of at most so many characters, none of them
-- refused.
pub record IsText (unicode : Unicode) (maximum : ℕ) (allow_newlines : Bool) (value text : List ℕ)
    : Type 0 where
  pub form : text ≡ strip unicode (unicode.nfc value)
  pub bounded : length text ≤ maximum
  pub supported : has_unsupported unicode allow_newlines text ≡ false

-- The texts and the price, in hundredths, that a body may have.
pub record IsSellable (unicode : Unicode) (l : ProductListing) : Type 0 where
  pub title : List ℕ
  pub description : List ℕ
  pub title_limit : length l.title ≤ 120
  pub title_text : IsText unicode 120 false l.title title
  pub title_long : 3 ≤ length (joined unicode false false title)
  pub description_limit : length l.description ≤ 10000
  pub description_text : IsText unicode 5000 true (replace_newlines l.description) description
  pub description_long : 10 ≤ length description
  pub positive : 1 ≤ l.price
  pub payable : l.price < 1000000000000

-- The listing's city is active, and so are its category and, unless that is a root, its parent, a
-- root.
abbrev pub IsRooted : Option ℕ → MarketDb → Type 0
IsRooted none db = Unit {0}
IsRooted (some id) db =
    (parent : Category) × (Repository.by_id id db ≡ some parent)
    × (parent.is_active ≡ true)
    × (parent.level ≡ 1)

pub record IsOffered (user_id slug : ℕ) (db : MarketDb) : Type 0 where
  pub view : View
  pub city : City
  pub category : Category
  pub seen : owned_view user_id slug db ≡ some view
  pub city_row : Repository.get_city view.city.slug db ≡ some city
  pub city_active : city.is_active ≡ true
  pub category_row : Repository.get view.category.slug db ≡ some category
  pub category_active : category.is_active ≡ true
  pub rooted : IsRooted category.parent_id db

abbrev pub Publishable : Unicode → ListingAction → ℕ → ℕ → ProductListing → MarketDb → Type 0
Publishable unicode ListingAction.publish user_id slug row db =
    IsSeller user_id db × IsSellable unicode row × IsOffered user_id slug db
Publishable unicode ListingAction.pause user_id slug row db = Unit {0}
Publishable unicode ListingAction.archive user_id slug row db = Unit {0}
Publishable unicode ListingAction.other user_id slug row db = Unit {0}

pub record Promise (unicode : Unicode) (action : ListingAction) (user_id slug now : ℕ)
    (db : MarketDb) (view : View) (db' : MarketDb) : Type 0 where
  pub row : ProductListing
  pub mine :
      first? (λ l. l.seller_user_id == user_id && l.public_slug == slug) db.listings ≡ some row
  pub account : IsActiveAccount user_id db
  pub allowed : Allowed action row.status
  pub publishable : Publishable unicode action user_id slug row db
  pub written : db' ≡ record db {
    listings =
        update
          (λ l. l.id == row.id)
          (λ l. record l {
            status = target action;
            published_at = stamped action now l.published_at;
          })
          db.listings;
  }
  pub answer : owned_view user_id slug db' ≡ some view
