-- ===== src/Personal/Quota.antt =====
-- Histories of the favorites over any calls of `FavoritesService`.
use unishop_china.Prelude.{ℕ, ◌≤◌, ◌≡◌, sym, subst, arith}
use unishop_china.Prelude.Rows.Selecting.{count-select_le}
use unishop_china.Market.Tables.{MarketDb}
use unishop_china.Market.Rules.{Done-keeps}
use unishop_china.Personal.Favorites
use unishop_china.Personal.Favorites.{
  is_favorite_of, is_favorite, is_product, is_newer, entries_for_update, public_product_id,
  add_unless, is_affirmative, has_slug_id, remove_rows,
}
use unishop_china.Personal.Saved.{IsBounded, AddPromise, add-Done}
use unishop_china.Personal.Toggle.{remove-Done}

removed-IsBounded :
    (quota user_id slug : ℕ) (db : MarketDb)
    → IsBounded quota db.favorites
    → IsBounded quota (remove_rows user_id slug db).favorites
unfolding remove_rows
removed-IsBounded quota user_id slug db v = record {
  within = λ u. omega (arith, v.within u, count-select_le (is_favorite_of u) _ db.favorites);
  unique = λ u p. omega (arith, v.unique u p, count-select_le (is_favorite u p) _ db.favorites);
}

-- The calls that change the favorites, under one quota.
pub data Step (quota : ℕ) : MarketDb → MarketDb → Type 0 where
  add :
      (db : MarketDb) (user_id slug now : ℕ)
      → Step quota db (Favorites.add quota user_id slug now db).1
  remove : (db : MarketDb) (user_id slug : ℕ) → Step quota db (Favorites.remove user_id slug db).1

pub data Reach (quota : ℕ) (db : MarketDb) : MarketDb → Type 0 where
  here : Reach quota db db
  next : {mid last : MarketDb} → Reach quota db mid → Step quota mid last → Reach quota db last

Step-IsBounded :
    (quota : ℕ) {db db' : MarketDb}
    → quota ≤ 500
    → Step quota db db'
    → IsBounded quota db.favorites
    → IsBounded quota db'.favorites
Step-IsBounded quota small (add db user_id slug now) v =
    Done-keeps {Q = λ u d. AddPromise quota user_id slug now db d}
      (λ d. IsBounded quota d.favorites) db _ (λ u d q. q.4 v) v
      (add-Done quota user_id slug now db small)
Step-IsBounded quota small (remove db user_id slug) v =
    Done-keeps {Q = λ u d. d ≡ remove_rows user_id slug db} (λ d. IsBounded quota d.favorites) db _
      (λ u d q.
        subst (λ e. IsBounded quota e.favorites) (sym q)
          (removed-IsBounded quota user_id slug db v))
      v (remove-Done user_id slug db)

-- No account ever has more favorites than the quota, of at most 500, and none twice, whatever is added
-- and removed, if that holds at the start.
pub history-IsBounded :
    (quota : ℕ) (db db' : MarketDb)
    → quota ≤ 500
    → Reach quota db db'
    → IsBounded quota db.favorites
    → IsBounded quota db'.favorites
history-IsBounded quota db db' small here v = v
history-IsBounded quota db db' small (next {mid} r s) v =
    Step-IsBounded quota small s (history-IsBounded quota db mid small r v)
