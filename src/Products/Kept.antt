-- ===== src/Products/Kept.antt =====
-- What the public sees of a listing does not depend on the private lists.
use unishop_china.Prelude.Rows.{first?}
use unishop_china.Prelude.{ℕ, ◌≡◌, refl, ap, Option, none, some, List, arith}
use unishop_china.Repositories.Users
use unishop_china.Models.{User}
use unishop_china.Market.Tables.{
  City, Category, UserProfile, ProductListing, ProductFavorite, ProductRecentView, MarketDb,
}
use unishop_china.Catalog.Repository
use unishop_china.Catalog.Categories.{parent_of}
use unishop_china.Profiles.Service.{get_by_user_id, has_verified_attempt}
use unishop_china.Products.Service.{View, view_of, joined}
use unishop_china.Products.Public.{
  public_of, public_row, public_candidate, publicly_visible, is_visible_seller,
}

module _ (db : MarketDb) (favorites : List ProductFavorite) (views : List ProductRecentView) where
  -- The same tables with other private lists.
  abbrev pub with_lists : MarketDb
  with_lists = record db { favorites = favorites; recent_views = views }

  parent_kept : (category : Category) → parent_of category with_lists ≡ parent_of category db
  unfolding parent_of
  parent_kept category = go category.parent_id
    where
      go :
          (id : Option ℕ)
          → (elim id as (λ x. Option Category) [
            | none ↦ none
            | some i ↦ Repository.by_id i with_lists
          ])
            ≡ (elim id as (λ x. Option Category) [ none ↦ none | some i ↦ Repository.by_id i db ])
      go none = refl
      go (some i) = unfold Repository.by_id in refl

  view_kept :
      (row : ProductListing) (city : Option City) (category : Option Category)
      → view_of row city category with_lists ≡ view_of row city category db
  unfolding view_of
  view_kept row none category = refl
  view_kept row (some city) none = refl
  view_kept row (some city) (some category) =
      ap
        (λ (parent : Option Category). some (
          let v : View = record { row = row; city = city; category = category; parent = parent } in
          v))
        (parent_kept category)

  shown_kept :
      (view : Option View) (user : Option User) (profile : Option UserProfile)
      → public_of view user profile with_lists ≡ public_of view user profile db
  unfolding public_of publicly_visible is_visible_seller has_verified_attempt
  shown_kept none user profile = refl
  shown_kept (some view) none profile = refl
  shown_kept (some view) (some user) none = refl
  shown_kept (some view) (some user) (some profile) = refl

  row_kept : (row : Option ProductListing) → public_row row with_lists ≡ public_row row db
  unfolding public_row joined Repository.by_id get_by_user_id
  row_kept none = refl
  row_kept (some row) = ground (
    arith,
    view_kept row (first? (Repository.city_has_id row.city_id) db.cities)
        (first? (Repository.has_id row.category_id) db.categories),
    shown_kept
        (view_of row (first? (Repository.city_has_id row.city_id) db.cities)
          (first? (Repository.has_id row.category_id) db.categories) db)
        (Users.get_by_id row.seller_user_id db.sellers.accounts)
        (get_by_user_id row.seller_user_id db),
  )

  pub candidate_kept : (slug : ℕ) → public_candidate slug with_lists ≡ public_candidate slug db
  unfolding public_candidate
  candidate_kept slug = row_kept _
