-- ===== src/Personal/Favorites.antt =====
-- `FavoritesService` and `FavoritesRepository`, method by method.
use unishop_china.Prelude.{
  ℕ, Bool, true, false, not, ◌&&◌, ◌||◌, Option, none, some, List, [], ◌∷◌, map, is_some, ltb, leb,
  ◌==◌, length, take,
}
use unishop_china.Prelude.Rows.{select, first?}
use unishop_china.Prelude.Rows.Sorting.{order_by}
use unishop_china.Accounts.Service.{lock_active_user}
use unishop_china.Market.Tables.{ProductFavorite, MarketDb}
use unishop_china.Market.Call.{
  Fault, Call, pure, gets, load, authorize, transaction, ◌>>=◌, ◌>>◌, modify, fail_if,
}
use unishop_china.Products.Service.{has_id}
use unishop_china.Products.Public.{PublicView, public_candidate, public_row}
use unishop_china.Paging.Keyset.{Position, Page, list_page}

abbrev id_of : Option PublicView → Option ℕ
id_of none = none
id_of (some shown) = some shown.view.row.id

-- `public_product_id`: the key of a listing that the public sees.
unfoldable pub public_product_id : ℕ → MarketDb → Option ℕ
public_product_id slug db = id_of (public_candidate slug db)

abbrev pub is_favorite_of : ℕ → ProductFavorite → Bool
is_favorite_of user_id f = f.user_id == user_id

abbrev pub is_product : ℕ → ProductFavorite → Bool
is_product product_id f = f.product_listing_id == product_id

abbrev pub is_favorite : ℕ → ℕ → ProductFavorite → Bool
is_favorite user_id product_id f = f.user_id == user_id && f.product_listing_id == product_id

-- `order_by(favorited_at.desc(), product_listing_id.desc())`
unfoldable pub is_newer : ProductFavorite → ProductFavorite → Bool
is_newer f g =
    ltb g.favorited_at f.favorited_at
    || (f.favorited_at == g.favorited_at && ltb g.product_listing_id f.product_listing_id)

unfoldable pub entries_for_update : ℕ → MarketDb → List ProductFavorite
entries_for_update user_id db =
    take 501 (order_by is_newer (select (is_favorite_of user_id) db.favorites))

unfoldable pub add_row : ℕ → ℕ → ℕ → MarketDb → MarketDb
add_row user_id product_id now db = record db {
  favorites =
      record { user_id = user_id; product_listing_id = product_id; favorited_at = now }
      ∷ db.favorites;
}

-- What follows the test whether the listing is among the entries. The pair is the primary key.
unfoldable pub add_unless : ℕ → ℕ → ℕ → ℕ → List ProductFavorite → Bool → Call (Unit {0})
add_unless quota user_id product_id now entries true = pure tt
add_unless quota user_id product_id now entries false = do
  fail_if (λ _. leb quota (length entries)) (Fault.personalization 409)
  fail_if (λ db. is_some (first? (is_favorite user_id product_id) db.favorites))
      Fault.integrity_error
  modify (add_row user_id product_id now)
  pure tt

unfoldable pub add : ℕ → ℕ → ℕ → ℕ → Call (Unit {0})
add quota user_id slug now = transaction (do
  authorize (λ db. lock_active_user user_id false db.sellers.accounts)
  product_id ← load (public_product_id slug) (Fault.personalization 404)
  entries ← gets (entries_for_update user_id)
  add_unless quota user_id product_id now entries
      (is_some (first? (is_product product_id) entries)))

-- `product_listing_id.in_(select(ProductListing.id).where(public_slug == slug))`
unfoldable pub has_slug_id : ℕ → ℕ → MarketDb → Bool
has_slug_id slug product_id db =
    is_some (first? (λ l. l.public_slug == slug && has_id product_id l) db.listings)

unfoldable pub remove_rows : ℕ → ℕ → MarketDb → MarketDb
remove_rows user_id slug db = record db {
  favorites =
      select (λ f. not (f.user_id == user_id && has_slug_id slug f.product_listing_id db))
        db.favorites;
}

unfoldable pub remove : ℕ → ℕ → Call (Unit {0})
remove user_id slug = transaction (do
  authorize (λ db. lock_active_user user_id false db.sellers.accounts)
  modify (remove_rows user_id slug)
  pure tt)

abbrev saved : ℕ → Option ℕ → MarketDb → Bool
saved user_id none db = false
saved user_id (some product_id) db = is_some (first? (is_favorite user_id product_id) db.favorites)

-- Whether a slug is among those that the query of `lookup` returns.
unfoldable pub is_affirmative : ℕ → ℕ → MarketDb → Bool
is_affirmative user_id slug db = saved user_id (public_product_id slug db) db

unfoldable pub lookup : ℕ → List ℕ → MarketDb → List (ℕ × Bool)
unfolding is_affirmative
lookup user_id slugs db = map (λ slug. (slug, is_affirmative user_id slug db)) slugs

-- A row of `page_statement`: a favorite whose listing the public sees.
pub record FavoriteItem : Type 0 where
  pub product : PublicView
  pub favorited_at : ℕ

abbrev pub item_position : FavoriteItem → Position
item_position i = record { value = i.favorited_at; slug = i.product.view.row.public_slug }

-- The listing of a favorite, as the public sees it.
unfoldable pub shown_product : ProductFavorite → MarketDb → Option PublicView
shown_product f db = public_row (first? (has_id f.product_listing_id) db.listings) db

abbrev item_or_skip : Option PublicView → ℕ → List FavoriteItem → List FavoriteItem
item_or_skip none at rest = rest
item_or_skip (some product) at rest = record { product = product; favorited_at = at } ∷ rest

unfoldable pub items_of : MarketDb → List ProductFavorite → List FavoriteItem
items_of db [] = []
items_of db (f ∷ fs) = item_or_skip (shown_product f db) f.favorited_at (items_of db fs)

unfoldable pub items : ℕ → MarketDb → List FavoriteItem
items user_id db = items_of db (select (is_favorite_of user_id) db.favorites)

-- `list`, with the position that the cursor decodes to: newest first.
unfoldable pub list_favorites : ℕ → ℕ → Option Position → MarketDb → Page item_position false
list_favorites user_id limit start db = list_page item_position false limit start (items user_id db)
