-- ===== src/Personal/History.antt =====
-- `RecentlyViewedService` and `RecentlyViewedRepository`, method by method.
use unishop_china.Prelude.{
  ℕ, Bool, false, not, ◌&&◌, ◌||◌, Option, none, some, List, [], ◌∷◌, map, is_some, ltb, ◌==◌,
  if◌then◌else◌, max, take, drop,
}
use unishop_china.Prelude.Rows.{select, first?, update}
use unishop_china.Prelude.Rows.Sorting.{order_by}
use unishop_china.Accounts.Service.{lock_active_user}
use unishop_china.Market.Tables.{ProductRecentView, MarketDb}
use unishop_china.Market.Call.{
  Fault, Call, pure, gets, load, authorize, transaction, ◌>>=◌, ◌>>◌, modify,
}
use unishop_china.Products.Service.{has_id}
use unishop_china.Products.Public.{PublicView, public_row}
use unishop_china.Personal.Favorites.{public_product_id, has_slug_id}
use unishop_china.Paging.Keyset.{Position, Page, list_page}

abbrev pub is_view_of : ℕ → ProductRecentView → Bool
is_view_of user_id v = v.user_id == user_id

abbrev pub is_view : ℕ → ℕ → ProductRecentView → Bool
is_view user_id product_id v = v.user_id == user_id && v.product_listing_id == product_id

-- `order_by(last_viewed_at.desc(), product_listing_id.desc())`
unfoldable pub is_newer : ProductRecentView → ProductRecentView → Bool
is_newer v w =
    ltb w.last_viewed_at v.last_viewed_at
    || (v.last_viewed_at == w.last_viewed_at && ltb w.product_listing_id v.product_listing_id)

unfoldable pub entries_for_update : ℕ → MarketDb → List ProductRecentView
entries_for_update user_id db =
    take 101 (order_by is_newer (select (is_view_of user_id) db.recent_views))

-- `func.greatest(last_viewed_at, inserted.last_viewed_at)`
unfoldable pub touched : ℕ → ProductRecentView → ProductRecentView
touched at v = record v { last_viewed_at = max v.last_viewed_at at }

unfoldable pub upsert : ℕ → ℕ → ℕ → MarketDb → MarketDb
upsert user_id product_id at db = record db {
  recent_views =
      if is_some (first? (is_view user_id product_id) db.recent_views)
      then update (is_view user_id product_id) (touched at) db.recent_views
      else record { user_id = user_id; product_listing_id = product_id; last_viewed_at = at }
        ∷ db.recent_views;
}

abbrev pub contains : List ℕ → ℕ → Bool
contains [] id = false
contains (i ∷ ids) id = i == id || contains ids id

unfoldable pub remove_entries : ℕ → List ℕ → MarketDb → MarketDb
remove_entries user_id ids db = record db {
  recent_views =
      select (λ v. not (v.user_id == user_id && contains ids v.product_listing_id)) db.recent_views;
}

-- `at` is read from the clock before the account is locked.
unfoldable pub record_view : ℕ → ℕ → ℕ → ℕ → Call (Unit {0})
record_view retention user_id slug at = transaction (do
  authorize (λ db. lock_active_user user_id false db.sellers.accounts)
  product_id ← load (public_product_id slug) (Fault.personalization 404)
  modify (upsert user_id product_id at)
  entries ← gets (entries_for_update user_id)
  modify (remove_entries user_id (map (λ v. v.product_listing_id) (drop retention entries)))
  pure tt)

unfoldable pub remove_rows : ℕ → ℕ → MarketDb → MarketDb
remove_rows user_id slug db = record db {
  recent_views =
      select (λ v. not (v.user_id == user_id && has_slug_id slug v.product_listing_id db))
        db.recent_views;
}

unfoldable pub remove : ℕ → ℕ → Call (Unit {0})
remove user_id slug = transaction (do
  authorize (λ db. lock_active_user user_id false db.sellers.accounts)
  modify (remove_rows user_id slug)
  pure tt)

unfoldable pub clear_rows : ℕ → MarketDb → MarketDb
clear_rows user_id db = record db {
  recent_views = select (λ v. not (is_view_of user_id v)) db.recent_views;
}

unfoldable pub clear : ℕ → Call (Unit {0})
clear user_id = transaction (do
  authorize (λ db. lock_active_user user_id false db.sellers.accounts)
  modify (clear_rows user_id)
  pure tt)

-- A row of `page_statement`: a viewed listing that the public sees.
pub record ViewedItem : Type 0 where
  pub product : PublicView
  pub last_viewed_at : ℕ

abbrev pub item_position : ViewedItem → Position
item_position i = record { value = i.last_viewed_at; slug = i.product.view.row.public_slug }

unfoldable pub shown_product : ProductRecentView → MarketDb → Option PublicView
shown_product v db = public_row (first? (has_id v.product_listing_id) db.listings) db

abbrev item_or_skip : Option PublicView → ℕ → List ViewedItem → List ViewedItem
item_or_skip none at rest = rest
item_or_skip (some product) at rest = record { product = product; last_viewed_at = at } ∷ rest

unfoldable pub items_of : MarketDb → List ProductRecentView → List ViewedItem
items_of db [] = []
items_of db (v ∷ vs) = item_or_skip (shown_product v db) v.last_viewed_at (items_of db vs)

unfoldable pub items : ℕ → MarketDb → List ViewedItem
items user_id db = items_of db (select (is_view_of user_id) db.recent_views)

unfoldable pub list_views : ℕ → ℕ → Option Position → MarketDb → Page item_position false
list_views user_id limit start db = list_page item_position false limit start (items user_id db)
