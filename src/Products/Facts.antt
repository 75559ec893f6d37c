-- ===== src/Products/Facts.antt =====
-- What the checks of a listing's seller and place tell, as facts about the rows.
use unishop_china.Prelude.{
  ℕ, ◌≡◌, ◌∙◌, refl, ap, true, some, arith, is_some, ◌==◌, ==_refl, Option-cases, inl, inr,
}
use unishop_china.Prelude.Rows.{first?}
use unishop_china.Prelude.Rows.Counting.{first?-holds, count-none}
use unishop_china.Prelude.Rows.Searching.{top?-holds, count-pos-top}
use unishop_china.Prelude.Rows.Unique.{first?-own}
use unishop_china.Models.{User, is_active}
use unishop_china.Repositories.Users
use unishop_china.Accounts.Service.{Authorization, lock_active_user}
use unishop_china.Sellers.Tables as Sellers
use unishop_china.Sellers.Tables.{SellerVerification}
use unishop_china.Market.Tables.{City, Category, UserProfile, ProductListing, MarketDb}
use unishop_china.Catalog.Cities.{active_city, is_open_city}
use unishop_china.Catalog.Categories.{is_open, is_publicly_active, parent_of}
use unishop_china.Catalog.CityTable
use unishop_china.Catalog.Tree.{IsTree}
use unishop_china.Catalog.Repository
use unishop_china.Profiles.Service.{
  completed_profile, is_complete, get_by_user_id, has_required_fields,
  required_onboarding_fields_valid, has_length, has_verified_attempt, is_verified, is_verified_of,
}
use unishop_china.Products.Service.{View, joined, has_slug, is_owned, owned_row}
use unishop_china.Products.Table.{Valid}

-- The account that a lock with verified contacts grants.
pub record IsContactable (user_id : ℕ) (user : User) (db : MarketDb) : Type 0 where
  pub row : Users.get_by_id user_id db.sellers.accounts ≡ some user
  pub active : is_active user.account_status ≡ true
  pub email : user.email_verified ≡ true
  pub phone : user.phone_verified ≡ true
  pub key : user.id ≡ user_id

pub granted_facts :
    (user_id : ℕ) (user : User) (db : MarketDb)
    → lock_active_user user_id true db.sellers.accounts ≡ Authorization.granted user
    → IsContactable user_id user db
unfolding lock_active_user
granted_facts user_id user db e =
    elim (Option-cases (Users.get_by_id user_id db.sellers.accounts)) [
      | inl missing ↦ absurd (ground arith)
      | inr (u, found) ↦
          let same : u ≡ user = ground arith in
          let e' : Users.get_by_id user_id db.sellers.accounts ≡ some user = found ∙ ap some same in
          record {
            row = e';
            active = ground arith;
            email = ground arith;
            phone = ground arith;
            key = key_lem user_id user db e';
          }
    ]
  where
    key_lem :
        (user_id : ℕ) (user : User) (db : MarketDb)
        → Users.get_by_id user_id db.sellers.accounts ≡ some user
        → user.id ≡ user_id
    key_lem user_id user db e =
        unfold Users.get_by_id in
        ground (arith, first?-holds (Users.has_id user_id) db.sellers.accounts.users user e)

pub record IsOnboarded (user_id : ℕ) (profile : UserProfile) (db : MarketDb) : Type 0 where
  pub row : get_by_user_id user_id db ≡ some profile
  pub completed : profile.onboarding_completed ≡ true
  pub named : has_length profile.display_name ≡ true
  pub placed : is_some profile.city_id ≡ true

pub completed_facts :
    (user_id : ℕ) (profile : UserProfile) (db : MarketDb)
    → completed_profile user_id db ≡ some profile
    → IsOnboarded user_id profile db
unfolding completed_profile is_complete has_required_fields required_onboarding_fields_valid
completed_facts user_id profile db e = elim (Option-cases (get_by_user_id user_id db)) [
  | inl missing ↦ absurd (ground arith)
  | inr (p, found) ↦
      let same : p ≡ profile = ground arith in
      record {
        row = found ∙ ap some same;
        completed = ground arith;
        named = ground arith;
        placed = ground arith;
      }
]

-- An approved latest attempt is an approved attempt.
pub approved_lem :
    (user_id : ℕ) (attempt : SellerVerification) (db : MarketDb)
    → Sellers.latest user_id db.sellers ≡ some attempt
    → is_verified attempt.status ≡ true
    → has_verified_attempt user_id db ≡ true
unfolding Sellers.latest has_verified_attempt is_verified_of
approved_lem user_id attempt db e ok =
    elim (Option-cases (first? (is_verified_of user_id) db.sellers.verifications)) [
      | inr (v, found) ↦ rw found refl
      | inl missing ↦ absurd (
          omega (
            arith,
            count-none (is_verified_of user_id) db.sellers.verifications missing,
            count-pos-top Sellers.is_newer (is_verified_of user_id) (λ v. v.user_id == user_id)
                db.sellers.verifications attempt e holds,
          ))
    ]
  where
    holds : is_verified_of user_id attempt ≡ true
    holds = ground (
      arith,
      top?-holds Sellers.is_newer (λ v. v.user_id == user_id) db.sellers.verifications attempt e,
    )

pub record IsJoined (row : ProductListing) (view : View) (db : MarketDb) : Type 0 where
  pub same_row : view.row ≡ row
  pub city : first? (Repository.city_has_id row.city_id) db.cities ≡ some view.city
  pub category : Repository.by_id row.category_id db ≡ some view.category
  pub parent : view.parent ≡ parent_of view.category db

pub joined_facts :
    (row : ProductListing) (view : View) (db : MarketDb)
    → joined row db ≡ some view
    → IsJoined row view db
unfolding joined
joined_facts row view db e =
    elim (Option-cases (first? (Repository.city_has_id row.city_id) db.cities)) [
      | inl missing ↦ absurd (ground arith)
      | inr (city, c) ↦ elim (Option-cases (Repository.by_id row.category_id db)) [
        | inl missing ↦ absurd (ground arith)
        | inr (category, k) ↦ record {
          same_row = ground arith;
          city = ground arith;
          category = ground arith;
          parent = ground arith;
        }
      ]
    ]

-- A city of a listing that its slug finds active is active.
pub city_lem :
    (id : ℕ) (city found : City) (db : MarketDb)
    → CityTable.IsTable db.cities
    → first? (Repository.city_has_id id) db.cities ≡ some city
    → active_city city.slug db ≡ some found
    → city.is_active ≡ true
unfolding active_city is_open_city Repository.get_city
city_lem id city found db v e a =
    let own =
      first?-own (Repository.city_has_slug city.slug) (Repository.city_has_id id) db.cities city
        (v.unique_slug city.slug) e (==_refl city.slug) in
    ground (arith, own)

pub category_lem :
    (id : ℕ) (category : Category) (db : MarketDb)
    → IsTree db.categories
    → Repository.by_id id db ≡ some category
    → is_open (Repository.get category.slug db) db ≡ true
    → is_publicly_active category (parent_of category db) ≡ true
unfolding is_open Repository.get Repository.by_id
category_lem id category db v e o =
    let own =
      first?-own (Repository.has_slug category.slug) (Repository.has_id id) db.categories category
        (v.unique_slug category.slug) e (==_refl category.slug) in
    ground (arith, own)

-- The listing of an account, by its slug alone.
pub slug_lem :
    (user_id slug : ℕ) (row : ProductListing) (db : MarketDb)
    → Valid db
    → owned_row user_id slug db ≡ some row
    → (first? (has_slug slug) db.listings ≡ some row) × (row.seller_user_id ≡ user_id)
unfolding owned_row
slug_lem user_id slug row db v e =
    let own = first?-holds (is_owned user_id slug) db.listings row e in
    (
      first?-own (has_slug slug) (is_owned user_id slug) db.listings row (v.unique_slug slug) e
          (ground arith),
      ground arith,
    )
