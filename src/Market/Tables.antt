-- ===== src/Market/Tables.antt =====
-- backend/app/models/catalog.py, profile.py, product.py, product_favorite.py and
-- product_recent_view.py, without the columns that only answers show (`created_at`, `updated_at`,
-- `public_id`). Texts that are measured are lists of code points, all others are codes, as in
-- Models; a slug's code stands for a text that meets
-- `CatalogSlug` or `ProductSlug`. A price is in hundredths.
use unishop_china.Prelude.{ℕ, Bool, true, false, Option, List}
use unishop_china.Sellers.Tables.{SellerDb}

pub record City : Type 0 where
  pub id : ℕ
  pub slug : ℕ
  pub name_en : ℕ
  pub name_zh : ℕ
  pub province_en : ℕ
  pub province_zh : Option ℕ
  pub is_active : Bool
  pub sort_order : ℕ

pub record Category : Type 0 where
  pub id : ℕ
  pub slug : ℕ
  pub name_en : ℕ
  pub name_zh : ℕ
  pub description : Option ℕ
  pub parent_id : Option ℕ
  pub parent_level : Option ℕ
  pub level : ℕ
  pub is_active : Bool
  pub sort_order : ℕ

-- The `action` column of the catalog audit, with its resource type.
pub data CatalogEvent : Type 0 where
  city_created city_updated city_activated city_deactivated : CatalogEvent
  category_created category_updated category_reparented : CatalogEvent
  category_activated category_deactivated : CatalogEvent

-- The names that `details["fields"]` may hold.
pub data CatalogField : Type 0 where
  country_code_field description_field is_active_field name_en_field name_zh_field : CatalogField
  parent_slug_field province_en_field province_zh_field slug_field sort_order_field : CatalogField

pub record CatalogAudit : Type 0 where
  pub actor_id : ℕ
  pub action : CatalogEvent
  pub resource_slug : ℕ
  pub fields : List CatalogField

pub record UserProfile : Type 0 where
  pub user_id : ℕ
  pub public_handle : ℕ
  pub display_name : Option (List ℕ)
  pub bio : Option ℕ
  pub city : Option ℕ
  pub city_id : Option ℕ
  pub onboarding_completed : Bool

pub data ProductStatus : Type 0 where
  draft published paused archived : ProductStatus

pub data ProductCondition : Type 0 where
  brand_new like_new good fair : ProductCondition

pub record ProductListing : Type 0 where
  pub id : ℕ
  pub seller_user_id : ℕ
  pub public_slug : ℕ
  pub title : List ℕ
  pub description : List ℕ
  pub price : ℕ
  pub condition : ProductCondition
  pub status : ProductStatus
  pub city_id : ℕ
  pub category_id : ℕ
  pub published_at : Option ℕ

pub record ProductFavorite : Type 0 where
  pub user_id : ℕ
  pub product_listing_id : ℕ
  pub favorited_at : ℕ

pub record ProductRecentView : Type 0 where
  pub user_id : ℕ
  pub product_listing_id : ℕ
  pub last_viewed_at : ℕ

pub record MarketDb : Type 0 where
  pub sellers : SellerDb
  pub cities : List City
  pub categories : List Category
  pub catalog_audits : List CatalogAudit
  pub profiles : List UserProfile
  pub listings : List ProductListing
  pub favorites : List ProductFavorite
  pub recent_views : List ProductRecentView

abbrev pub is_published : ProductStatus → Bool
is_published ProductStatus.published = true
is_published _ = false

abbrev pub is_archived : ProductStatus → Bool
is_archived ProductStatus.archived = true
is_archived _ = false
