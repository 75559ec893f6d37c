-- ===== src/Products/Transitions.antt =====
-- What a transition of a listing promises.
use unishop_china.Prelude.{
  if◌then◌else◌, ℕ, ◌≡◌, refl, sym, ap, true, false, not, none, some, arith,
}
use unishop_china.Models.{User}
use unishop_china.Accounts.Service.{Authorization, lock_active_user}
use unishop_china.Sellers.Tables as Sellers
use unishop_china.Sellers.Tables.{SellerVerification}
use unishop_china.Market.Tables.{
  City, Category, UserProfile, ProductListing, ProductStatus, MarketDb,
}
use unishop_china.Market.Call.{Done, Ensures}
use unishop_china.Market.Rules.{
  Ensures-load, Ensures-pure, Ensures-unless, Ensures-check, Ensures-authorize, Ensures-modify,
  Ensures-last, transaction-Done,
}
use unishop_china.Catalog.Cities.{active_city, resolve_active_city}
use unishop_china.Catalog.Categories.{is_open, resolve_active}
use unishop_china.Catalog.Repository
use unishop_china.Profiles.Service.{completed_profile, is_verified}
use unishop_china.Products.Text.{Unicode}
use unishop_china.Products.Service
use unishop_china.Products.Service.{
  View, ListingAction, owned_row, owned_view, assign, published, withdrawn, is_allowed,
  is_valid_listing,
}

-- What `eligible` checks.
pub record IsEligible (user_id : ℕ) (db : MarketDb) : Type 0 where
  pub user : User
  pub attempt : SellerVerification
  pub profile : UserProfile
  pub locked : lock_active_user user_id true db.sellers.accounts ≡ Authorization.granted user
  pub latest : Sellers.latest user_id db.sellers ≡ some attempt
  pub is_approved : is_verified attempt.status ≡ true
  pub completed : completed_profile user_id db ≡ some profile

pub eligible-Ensures :
    (user_id : ℕ) (db : MarketDb)
    → Ensures (λ profile db'. (db' ≡ db) × IsEligible user_id db) (Service.eligible user_id db)
unfolding Service.eligible Service.lock_verified_seller
eligible-Ensures user_id db =
    Ensures-check _ db _
      (λ user.
        (attempt : SellerVerification) × (lock_active_user user_id true db.sellers.accounts
          ≡ Authorization.granted user)
        × (Sellers.latest user_id db.sellers ≡ some attempt)
        × (is_verified attempt.status ≡ true))
      (Ensures-authorize _ db (λ d. lock_active_user user_id true d.sellers.accounts)
        λ user locked.
          Ensures-load _ db (λ d. Sellers.latest user_id d.sellers) _
            λ attempt latest.
              Ensures-unless _ db (λ _. not (is_verified attempt.status)) _
                λ ok. Ensures-pure user db (refl, (attempt, locked, latest, ground arith)))
      λ user (attempt, locked, latest, ok).
        Ensures-last (completed_profile user_id) _ db λ profile completed. (
          refl,
          record {
            user = user;
            attempt = attempt;
            profile = profile;
            locked = locked;
            latest = latest;
            is_approved = ok;
            completed = completed;
          },
        )

-- What withdrawals check.
abbrev pub IsPresent : ℕ → MarketDb → Type 0
IsPresent user_id db =
    (user : User) × (lock_active_user user_id false db.sellers.accounts
      ≡ Authorization.granted user)

-- The city and the category that a listing is in are publicly active.
pub record IsPlaced (view : View) (db : MarketDb) : Type 0 where
  pub city : City
  pub city_active : active_city view.city.slug db ≡ some city
  pub category_open : is_open (Repository.get view.category.slug db) db ≡ true

-- The new row.
unfoldable pub effect : ListingAction → ℕ → ProductListing → ProductListing
effect ListingAction.publish now = published now
effect ListingAction.pause now = withdrawn ProductStatus.paused
effect ListingAction.archive now = withdrawn ProductStatus.archived
effect ListingAction.other now = withdrawn ProductStatus.archived

-- What publishing is checked for, beyond the status.
abbrev pub IsChecked : Unicode → ListingAction → ℕ → ℕ → ProductListing → MarketDb → Type 0
IsChecked unicode ListingAction.publish user_id slug row db =
    IsEligible user_id db
    × ((view : View) × (owned_view user_id slug db ≡ some view) × IsPlaced view db)
    × (is_valid_listing unicode row ≡ true)
IsChecked unicode ListingAction.pause user_id slug row db = IsPresent user_id db
IsChecked unicode ListingAction.archive user_id slug row db = IsPresent user_id db
IsChecked unicode ListingAction.other user_id slug row db = IsPresent user_id db

pub record IsTransition (unicode : Unicode) (action : ListingAction) (user_id slug now : ℕ)
    (db : MarketDb) (view : View) (db' : MarketDb) : Type 0 where
  pub row : ProductListing
  pub mine : owned_row user_id slug db ≡ some row
  pub allowed : is_allowed action row.status ≡ true
  pub checked : IsChecked unicode action user_id slug row db
  pub state : db' ≡ assign row.id (effect action now) db
  pub answer : owned_view user_id slug db' ≡ some view

module _ (unicode : Unicode) (user_id slug now : ℕ) (db : MarketDb) where
  abbrev Acted : ListingAction → View → MarketDb → Type 0
  Acted action = IsTransition unicode action user_id slug now db

  open_lem :
      (slug : ℕ) (c : Category)
      → (if is_open (Repository.get slug db) db then Repository.get slug db else none) ≡ some c
      → is_open (Repository.get slug db) db ≡ true
  open_lem slug c e = ground arith

  publish_lem :
      (row : ProductListing)
      → IsEligible user_id db
      → owned_row user_id slug db ≡ some row
      → is_allowed ListingAction.publish row.status ≡ true
      → Ensures (Acted ListingAction.publish) (Service.publish_row unicode user_id slug now row db)
  unfolding Service.publish_row resolve_active_city resolve_active effect Service.own_response
  publish_lem row eligible mine allowed = Ensures-load _ db (owned_view user_id slug) _ λ view seen.
      Ensures-load _ db (active_city view.city.slug) _ λ city city_active.
        Ensures-load _ db _ _ λ category taken.
          Ensures-unless _ db (λ _. not (is_valid_listing unicode row)) _
            λ valid. Ensures-modify _ db _ (
              Ensures-last (owned_view user_id slug) _ _ λ answer e. record {
                row = row;
                mine = mine;
                allowed = allowed;
                checked = (
                  eligible,
                  (
                    view,
                    seen,
                    record {
                      city = city;
                      city_active = city_active;
                      category_open = open_lem view.category.slug category taken;
                    },
                  ),
                  ground arith,
                );
                state = refl;
                answer = e;
              })

  withdraw_lem :
      (action : ListingAction) (status : ProductStatus) (row : ProductListing)
      → effect action now ≡ withdrawn status
      → IsChecked unicode action user_id slug row db
      → owned_row user_id slug db ≡ some row
      → is_allowed action row.status ≡ true
      → Ensures (Acted action) (Service.withdraw_row user_id slug status row db)
  unfolding Service.withdraw_row Service.own_response
  withdraw_lem action status row same checked mine allowed = Ensures-modify _ db _ (
      Ensures-last (owned_view user_id slug) _ _ λ answer e. record {
        row = row;
        mine = mine;
        allowed = allowed;
        checked = checked;
        state = ap (λ f. assign row.id f db) (sym same);
        answer = e;
      })

  abbrev May : ListingAction → Type 0
  May ListingAction.publish = IsEligible user_id db
  May ListingAction.pause = IsPresent user_id db
  May ListingAction.archive = IsPresent user_id db
  May ListingAction.other = IsPresent user_id db

  may_lem :
      (action : ListingAction)
      → Ensures (λ u db'. (db' ≡ db) × May action) (Service.may_act action user_id db)
  unfolding Service.may_act
  may_lem ListingAction.publish =
      Ensures-check _ db _ (λ _. IsEligible user_id db) (eligible-Ensures user_id db)
        λ profile e. Ensures-pure tt db (refl, e)
  may_lem ListingAction.pause =
      Ensures-authorize _ db (λ d. lock_active_user user_id false d.sellers.accounts)
        λ user locked. Ensures-pure tt db (refl, (user, locked))
  may_lem ListingAction.archive =
      Ensures-authorize _ db (λ d. lock_active_user user_id false d.sellers.accounts)
        λ user locked. Ensures-pure tt db (refl, (user, locked))
  may_lem ListingAction.other =
      Ensures-authorize _ db (λ d. lock_active_user user_id false d.sellers.accounts)
        λ user locked. Ensures-pure tt db (refl, (user, locked))

  carried_lem :
      (action : ListingAction) (row : ProductListing)
      → May action
      → owned_row user_id slug db ≡ some row
      → is_allowed action row.status ≡ true
      → Ensures (Acted action) (Service.carry_out unicode action user_id slug now row db)
  unfolding Service.carry_out effect
  carried_lem ListingAction.publish row may mine allowed = publish_lem row may mine allowed
  carried_lem ListingAction.pause row may mine allowed =
      withdraw_lem ListingAction.pause ProductStatus.paused row refl may mine allowed
  carried_lem ListingAction.archive row may mine allowed =
      withdraw_lem ListingAction.archive ProductStatus.archived row refl may mine allowed
  carried_lem ListingAction.other row may mine allowed =
      withdraw_lem ListingAction.other ProductStatus.archived row refl may mine allowed

  -- A transition in terms of the tests and assignments of the service.
  pub transition-Done :
      (action : ListingAction)
      → Done (Acted action) db (Service.transition unicode action user_id slug now db)
  unfolding Service.transition Service.owned
  transition-Done action = transaction-Done _ db (
      Ensures-check _ db _ (λ _. May action) (may_lem action)
        λ u may. Ensures-load _ db (owned_row user_id slug) _ λ row mine.
          Ensures-unless _ db (λ _. not (is_allowed action row.status)) _
            λ allowed. carried_lem action row may mine (ground arith))
