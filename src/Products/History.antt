-- ===== src/Products/History.antt =====
-- Histories of the listings over any calls of `ProductService`.
use unishop_china.Prelude.{ℕ}
use unishop_china.Market.Tables.{MarketDb}
use unishop_china.Products.Text.{Unicode}
use unishop_china.Products.Service
use unishop_china.Products.Service.{
  View, ProductCreate, ProductUpdate, ListingDraw, ListingAction, has_id, has_slug, is_owned,
  owned_row, owned_view, assign, published, withdrawn, is_allowed, new_listing, create_attempts,
  insert_or_retry, add_listing, edited, requested_city, requested_category,
}
use unishop_china.Products.Table.{IsTable, Valid, create-Valid, update-Valid, transition-Valid}

-- The calls that change a listing.
pub data Step : MarketDb → MarketDb → Type 0 where
  create :
      (db : MarketDb) (user_id : ℕ) (draws : ℕ → ListingDraw) (body : ProductCreate)
      → Step db (Service.create user_id draws body db).1
  update_listing :
      (db : MarketDb) (user_id slug : ℕ) (body : ProductUpdate)
      → Step db (Service.update_listing user_id slug body db).1
  transition :
      (db : MarketDb) (unicode : Unicode) (action : ListingAction) (user_id slug now : ℕ)
      → Step db (Service.transition unicode action user_id slug now db).1

pub data Reach (db : MarketDb) : MarketDb → Type 0 where
  here : Reach db db
  next : {mid last : MarketDb} → Reach db mid → Step mid last → Reach db last

Step-Valid : {db db' : MarketDb} → Step db db' → Valid db → Valid db'
Step-Valid (create db user_id draws body) v = create-Valid user_id draws body db v
Step-Valid (update_listing db user_id slug body) v = update-Valid user_id slug body db v
Step-Valid (transition db unicode action user_id slug now) v =
    transition-Valid unicode action user_id slug now db v

-- Whatever sellers do to their listings, in any number of calls, carried out or refused: the keys and
-- slugs stay unique, a draft has no time of publication, and a published or paused listing has one.
pub history-IsTable :
    (db db' : MarketDb) → Reach db db' → IsTable db.listings → IsTable db'.listings
history-IsTable db db' here v = v
history-IsTable db db' (next {mid} r s) v = Step-Valid s (history-IsTable db mid r v)
