-- ===== src/Personal/Viewed.antt =====
-- The viewing history of an account over any calls of `RecentlyViewedService`.
use unishop_china.Prelude.{some, false, ℕ, ◌≤◌, ◌≡◌, refl, sym, subst, arith}
use unishop_china.Prelude.Rows.Selecting.{count-select_le}
use unishop_china.Accounts.Service.{lock_active_user}
use unishop_china.Market.Tables.{MarketDb}
use unishop_china.Market.Call.{Done}
use unishop_china.Market.Rules.{
  Ensures-authorize, Ensures-modify, Ensures-pure, transaction-Done, Done-keeps,
}
use unishop_china.Personal.Favorites.{public_product_id}
use unishop_china.Personal.History
use unishop_china.Personal.History.{is_view_of, is_view, remove_rows, clear_rows}
use unishop_china.Personal.Retention.{IsBounded, recorded, recorded-IsBounded, record_view-Done}

-- The calls that change the viewing histories, under one retention.
pub data Step (retention : ℕ) : MarketDb → MarketDb → Type 0 where
  record_view :
      (db : MarketDb) (user_id slug at : ℕ)
      → Step retention db (History.record_view retention user_id slug at db).1
  remove : (db : MarketDb) (user_id slug : ℕ) → Step retention db (History.remove user_id slug db).1
  clear : (db : MarketDb) (user_id : ℕ) → Step retention db (History.clear user_id db).1

pub data Reach (retention : ℕ) (db : MarketDb) : MarketDb → Type 0 where
  here : Reach retention db db
  next :
      {mid last : MarketDb}
      → Reach retention db mid
      → Step retention mid last
      → Reach retention db last

remove_view-Done :
    (user_id slug : ℕ) (db : MarketDb)
    → Done (λ u db'. db' ≡ remove_rows user_id slug db) db (History.remove user_id slug db)
unfolding History.remove
remove_view-Done user_id slug db = transaction-Done _ db (
    Ensures-authorize _ db (λ d. lock_active_user user_id false d.sellers.accounts)
      λ user locked. Ensures-modify _ db _ (Ensures-pure tt _ refl))

clear-Done :
    (user_id : ℕ) (db : MarketDb)
    → Done (λ u db'. db' ≡ clear_rows user_id db) db (History.clear user_id db)
unfolding History.clear
clear-Done user_id db = transaction-Done _ db (
    Ensures-authorize _ db (λ d. lock_active_user user_id false d.sellers.accounts)
      λ user locked. Ensures-modify _ db _ (Ensures-pure tt _ refl))

removed-IsBounded :
    (retention user_id slug : ℕ) (db : MarketDb)
    → IsBounded retention db.recent_views
    → IsBounded retention (remove_rows user_id slug db).recent_views
unfolding remove_rows
removed-IsBounded retention user_id slug db v = record {
  within = λ u. omega (arith, v.within u, count-select_le (is_view_of u) _ db.recent_views);
  unique = λ u p. omega (arith, v.unique u p, count-select_le (is_view u p) _ db.recent_views);
}

cleared-IsBounded :
    (retention user_id : ℕ) (db : MarketDb)
    → IsBounded retention db.recent_views
    → IsBounded retention (clear_rows user_id db).recent_views
unfolding clear_rows
cleared-IsBounded retention user_id db v = record {
  within = λ u. omega (arith, v.within u, count-select_le (is_view_of u) _ db.recent_views);
  unique = λ u p. omega (arith, v.unique u p, count-select_le (is_view u p) _ db.recent_views);
}

Step-IsBounded :
    (retention : ℕ) {db db' : MarketDb}
    → retention ≤ 100
    → Step retention db db'
    → IsBounded retention db.recent_views
    → IsBounded retention db'.recent_views
Step-IsBounded retention small (record_view db user_id slug at) v =
    Done-keeps
      {Q = λ u d.
        (product_id : ℕ) × (public_product_id slug db ≡ some product_id)
        × (d ≡ recorded retention user_id product_id at db)}
      (λ d. IsBounded retention d.recent_views) db _
      (λ u d q.
        subst (λ e. IsBounded retention e.recent_views) (sym q.2)
          (recorded-IsBounded retention user_id q.0 at db small v))
      v (record_view-Done retention user_id slug at db)
Step-IsBounded retention small (remove db user_id slug) v =
    Done-keeps {Q = λ u d. d ≡ remove_rows user_id slug db}
      (λ d. IsBounded retention d.recent_views) db _
      (λ u d q.
        subst (λ e. IsBounded retention e.recent_views) (sym q)
          (removed-IsBounded retention user_id slug db v))
      v (remove_view-Done user_id slug db)
Step-IsBounded retention small (clear db user_id) v =
    Done-keeps {Q = λ u d. d ≡ clear_rows user_id db} (λ d. IsBounded retention d.recent_views) db _
      (λ u d q.
        subst (λ e. IsBounded retention e.recent_views) (sym q)
          (cleared-IsBounded retention user_id db v))
      v (clear-Done user_id db)

-- No account ever keeps more views than the retention, of at most 100, and none twice, whatever is
-- viewed, removed and cleared, if that holds at the start.
pub views_history-IsBounded :
    (retention : ℕ) (db db' : MarketDb)
    → retention ≤ 100
    → Reach retention db db'
    → IsBounded retention db.recent_views
    → IsBounded retention db'.recent_views
views_history-IsBounded retention db db' small here v = v
views_history-IsBounded retention db db' small (next {mid} r s) v =
    Step-IsBounded retention small s (views_history-IsBounded retention db mid small r v)
