-- ===== src/Personal/Saved.antt =====
-- What an addition to the favorites of an account leaves.
use unishop_china.Prelude.{
  ℕ, ◌≤◌, ◌<◌, ◌≡◌, refl, true, false, Bool, some, List, arith, is_some, leb, length,
}
use unishop_china.Prelude.Rows.{select, first?, count}
use unishop_china.Prelude.Rows.Counting.{count-none}
use unishop_china.Prelude.Rows.Sorting.{order_by, count-order_by}
use unishop_china.Accounts.Service.{Authorization, lock_active_user}
use unishop_china.Models.{User}
use unishop_china.Market.Tables.{ProductFavorite, MarketDb}
use unishop_china.Market.Call.{Done, Ensures}
use unishop_china.Market.Rules.{
  Ensures-gets, Ensures-load, Ensures-pure, Ensures-unless, Ensures-authorize, Ensures-modify,
  Ensures-map, transaction-Done,
}
use unishop_china.Prelude.Rows.Lengths.{
  length-order_by, length-select, length-take_lt, take-found, count-both, found-count,
}
use unishop_china.Personal.Favorites
use unishop_china.Personal.Favorites.{
  is_favorite_of, is_favorite, is_product, is_newer, entries_for_update, public_product_id, add_row,
  add_unless, is_affirmative,
}

-- No account has more favorites than the quota, and none twice.
pub record IsBounded (quota : ℕ) (rows : List ProductFavorite) : Type 0 where
  pub within : (u : ℕ) → count (is_favorite_of u) rows ≤ quota
  pub unique : (u p : ℕ) → count (is_favorite u p) rows ≤ 1

-- Below the quota, which the query can count, the entries are all favorites of the account.
room_lem :
    (quota user_id : ℕ) (db : MarketDb)
    → quota ≤ 500
    → leb quota (length (entries_for_update user_id db)) ≡ false
    → count (is_favorite_of user_id) db.favorites < quota
unfolding entries_for_update
room_lem quota user_id db small h =
    let mine = select (is_favorite_of user_id) db.favorites in
    omega (
      arith,
      length-take_lt 501 quota (order_by is_newer mine) (omega arith) (ground arith),
      length-order_by is_newer mine,
      length-select (is_favorite_of user_id) db.favorites,
    )

added-IsBounded :
    (quota user_id product_id now : ℕ) (db : MarketDb)
    → count (is_favorite_of user_id) db.favorites < quota
    → is_some (first? (is_favorite user_id product_id) db.favorites) ≡ false
    → IsBounded quota db.favorites
    → IsBounded quota (add_row user_id product_id now db).favorites
unfolding add_row count
added-IsBounded quota user_id product_id now db room fresh v = record {
  within = λ u. ground (arith, v.within u);
  unique = λ u p. ground (
    arith,
    v.unique u p,
    count-none (is_favorite user_id product_id) db.favorites (ground arith),
  );
}

-- What an addition promises.
abbrev pub AddPromise : ℕ → ℕ → ℕ → ℕ → MarketDb → MarketDb → Type 0
AddPromise quota user_id slug now db db' =
    (product_id : ℕ) × (user : User) × (lock_active_user user_id false db.sellers.accounts
      ≡ Authorization.granted user)
    × (public_product_id slug db ≡ some product_id)
    × (IsBounded quota db.favorites → IsBounded quota db'.favorites)
    × (is_some (first? (is_favorite user_id product_id) db'.favorites) ≡ true)
    × (db' ≡ record db { favorites = db'.favorites })

unless_lem :
    (quota user_id product_id now : ℕ) (db : MarketDb) (here : Bool)
    → quota ≤ 500
    → (here ≡ true → is_some (first? (is_favorite user_id product_id) db.favorites) ≡ true)
    → Ensures
        (λ u db'.
          (IsBounded quota db.favorites → IsBounded quota db'.favorites)
          × (is_some (first? (is_favorite user_id product_id) db'.favorites) ≡ true)
          × (db' ≡ record db { favorites = db'.favorites }))
        (add_unless quota user_id product_id now (entries_for_update user_id db) here db)
unfolding add_unless
unless_lem quota user_id product_id now db true small h =
    Ensures-pure tt db ((λ v. v), h refl, refl)
unless_lem quota user_id product_id now db false small h =
    Ensures-unless _ db (λ _. leb quota (length (entries_for_update user_id db))) _
      λ room.
        Ensures-unless _ db (λ d. is_some (first? (is_favorite user_id product_id) d.favorites)) _
          λ fresh. Ensures-modify _ db _ (
            Ensures-pure tt _ (
              added-IsBounded quota user_id product_id now db (room_lem quota user_id db small room)
                  fresh,
              stored_lem,
              unfold add_row in refl,
            ))
  where
    stored_lem :
        is_some
          (first? (is_favorite user_id product_id) (add_row user_id product_id now db).favorites)
        ≡ true
    stored_lem = unfold add_row first? in ground arith

entry_lem :
    (user_id product_id : ℕ) (db : MarketDb)
    → is_some (first? (is_product product_id) (entries_for_update user_id db)) ≡ true
    → is_some (first? (is_favorite user_id product_id) db.favorites) ≡ true
unfolding entries_for_update
entry_lem user_id product_id db h =
    let mine = select (is_favorite_of user_id) db.favorites in
    found-count (is_favorite user_id product_id) db.favorites (
      omega (
        arith,
        take-found (is_product product_id) 501 (order_by is_newer mine) h,
        count-order_by is_newer (is_product product_id) mine,
        count-both (is_favorite_of user_id) (is_product product_id) db.favorites,
      ))

pub add-Done :
    (quota user_id slug now : ℕ) (db : MarketDb)
    → quota ≤ 500
    → Done
        (λ u db'. AddPromise quota user_id slug now db db')
        db
        (Favorites.add quota user_id slug now db)
unfolding Favorites.add
add-Done quota user_id slug now db small = transaction-Done _ db (
    Ensures-authorize _ db (λ d. lock_active_user user_id false d.sellers.accounts)
      λ user locked. Ensures-load _ db (public_product_id slug) _ λ product_id shown.
        Ensures-gets _ db _ (
          Ensures-map _ (λ u db' q. (product_id, user, locked, shown, q.0, q.1, q.2))
            (unless_lem quota user_id product_id now db _ small (entry_lem user_id product_id db))))
