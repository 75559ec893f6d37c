-- ===== src/Personal/Retention.antt =====
-- The viewing history of an account after a view is recorded.
use unishop_china.Prelude.{
  if◌then◌else◌, ℕ, zero, suc, ◌+◌, ◌≤◌, ◌≡◌, refl, subst, true, false, not, ◌&&◌, some, List, [],
  ◌∷◌, map, arith, is_some, ◌==◌, take, drop, Bool-cases, Option-cases, inl, inr,
}
use unishop_china.Prelude.Rows.{select, first?, count, All}
use unishop_china.Prelude.Rows.Counting.{count-none, count-eq, count-update_eq}
use unishop_china.Prelude.Rows.Selecting.{count-select_le, All-map}
use unishop_china.Prelude.Rows.Sorting.{order_by, count-order_by}
use unishop_china.Prelude.Rows.Lengths.{length-order_by, length-select, take_whole, count-both}
use unishop_china.Accounts.Service.{lock_active_user}
use unishop_china.Market.Tables.{ProductRecentView, MarketDb}
use unishop_china.Market.Call.{Done}
use unishop_china.Market.Rules.{
  Ensures-authorize, Ensures-load, Ensures-gets, Ensures-modify, Ensures-pure, transaction-Done,
}
use unishop_china.Personal.Favorites.{public_product_id}
use unishop_china.Personal.History
use unishop_china.Personal.History.{
  is_view_of, is_view, is_newer, entries_for_update, touched, upsert, contains, remove_entries,
  remove_rows, clear_rows,
}

-- No account has more views than the retention, and no listing twice.
pub record IsBounded (retention : ℕ) (rows : List ProductRecentView) : Type 0 where
  pub within : (u : ℕ) → count (is_view_of u) rows ≤ retention
  pub unique : (u p : ℕ) → count (is_view u p) rows ≤ 1

abbrev product_of : ProductRecentView → ℕ
product_of v = v.product_listing_id

-- Only the rows before a cut escape a removal of all behind it.
kept_lem :
    (ids : List ℕ) (n : ℕ) (rows : List ProductRecentView)
    → All (λ v. contains ids (product_of v) ≡ true) (drop n rows)
    → count (λ v. not (contains ids (product_of v))) rows ≤ n
unfolding count
kept_lem ids n [] a = omega arith
kept_lem ids zero (v ∷ rows) a = ground (arith, a.0, kept_lem ids zero rows a.1)
kept_lem ids (suc n) (v ∷ rows) a = ground (arith, kept_lem ids n rows a)

contains-All :
    (rows : List ProductRecentView)
    → All (λ v. contains (map product_of rows) (product_of v) ≡ true) rows
contains-All [] = tt
contains-All (v ∷ rows) = (
  ground arith,
  All-map (λ w. contains (map product_of rows) (product_of w) ≡ true)
      (λ w. contains (map product_of (v ∷ rows)) (product_of w) ≡ true) rows (λ w h. ground arith)
      (contains-All rows),
)

abbrev views_of : MarketDb → List ProductRecentView
views_of db = db.recent_views

-- What the removal leaves of the account's views.
trimmed_lem :
    (retention user_id : ℕ) (db : MarketDb)
    → count (is_view_of user_id) db.recent_views ≤ 101
    → count (is_view_of user_id) (
        views_of (
          remove_entries user_id
            (map product_of (drop retention (entries_for_update user_id db)))
            db))
      ≤ retention
unfolding remove_entries entries_for_update
trimmed_lem retention user_id db small =
    let mine = select (is_view_of user_id) db.recent_views in
    let ordered = order_by is_newer mine in
    let ids = map product_of (drop retention ordered) in
    let whole : take 101 ordered ≡ ordered = take_whole 101 ordered (
      omega (
        arith,
        small,
        length-order_by is_newer mine,
        length-select (is_view_of user_id) db.recent_views,
      )) in
    rw whole (
      omega (
        arith,
        count-both (λ v. not (v.user_id == user_id && contains ids (product_of v)))
            (is_view_of user_id) db.recent_views,
        count-both (is_view_of user_id) (λ v. not (contains ids (product_of v))) db.recent_views,
        count-eq
            (λ v. not (v.user_id == user_id && contains ids (product_of v)) && is_view_of user_id v)
            (λ v. is_view_of user_id v && not (contains ids (product_of v))) db.recent_views
            (λ v. ground arith),
        count-order_by is_newer (λ v. not (contains ids (product_of v))) mine,
        kept_lem ids retention ordered (contains-All (drop retention ordered)),
      ))

count-upsert :
    (user_id product_id at u : ℕ) (db : MarketDb)
    → count (is_view_of u) (upsert user_id product_id at db).recent_views
      ≤ (if user_id == u then 1 else 0) + count (is_view_of u) db.recent_views
unfolding upsert touched
count-upsert user_id product_id at u db =
    elim (Bool-cases (is_some (first? (is_view user_id product_id) db.recent_views))) [
      | inl seen ↦ rw seen (
          omega (
            arith,
            count-update_eq (is_view_of u) (is_view user_id product_id) (touched at) db.recent_views
                (λ v. ground arith),
          ))
      | inr fresh ↦ rw fresh (unfold count in omega arith)
    ]

upsert_unique :
    (user_id product_id at u p : ℕ) (db : MarketDb)
    → count (is_view u p) db.recent_views ≤ 1
    → count (is_view u p) (upsert user_id product_id at db).recent_views ≤ 1
unfolding upsert touched
upsert_unique user_id product_id at u p db one =
    elim (Option-cases (first? (is_view user_id product_id) db.recent_views)) [
      | inr (v, seen) ↦ rw seen (
          omega (
            arith,
            count-update_eq (is_view u p) (is_view user_id product_id) (touched at) db.recent_views
                (λ v. ground arith),
          ))
      | inl fresh ↦
          let none_seen = count-none (is_view user_id product_id) db.recent_views fresh in
          rw fresh (unfold count in ground (arith, none_seen))
    ]

-- The tables after a recorded view.
unfoldable pub recorded : ℕ → ℕ → ℕ → ℕ → MarketDb → MarketDb
recorded retention user_id product_id at db =
    let db' = upsert user_id product_id at db in
    remove_entries user_id (map product_of (drop retention (entries_for_update user_id db'))) db'

pub recorded-IsBounded :
    (retention user_id product_id at : ℕ) (db : MarketDb)
    → retention ≤ 100
    → IsBounded retention db.recent_views
    → IsBounded retention (recorded retention user_id product_id at db).recent_views
unfolding recorded
recorded-IsBounded retention user_id product_id at db small v = record {
  within = λ u. elim (Bool-cases (user_id == u)) [
    | inl own ↦
        let same : user_id ≡ u = ground arith in
        subst
          (λ w.
            count (is_view_of w) (recorded retention user_id product_id at db).recent_views
            ≤ retention)
          same
          (trimmed_lem retention user_id (upsert user_id product_id at db)
            (ground (arith, count-upsert user_id product_id at user_id db, v.within user_id)))
    | inr other ↦ ground (arith, count-upsert user_id product_id at u db, v.within u, removed_le u)
  ];
  unique = λ u p.
      ground
        (arith, upsert_unique user_id product_id at u p db (v.unique u p), removed_pair_le u p);
}
  where
    removed_le :
        (u : ℕ)
        → count (is_view_of u) (recorded retention user_id product_id at db).recent_views
          ≤ count (is_view_of u) (upsert user_id product_id at db).recent_views
    removed_le u = unfold remove_entries in count-select_le (is_view_of u) _ _

    removed_pair_le :
        (u p : ℕ)
        → count (is_view u p) (recorded retention user_id product_id at db).recent_views
          ≤ count (is_view u p) (upsert user_id product_id at db).recent_views
    removed_pair_le u p = unfold remove_entries in count-select_le (is_view u p) _ _

pub record_view-Done :
    (retention user_id slug at : ℕ) (db : MarketDb)
    → Done
        (λ u db'.
          (product_id : ℕ) × (public_product_id slug db ≡ some product_id)
          × (db' ≡ recorded retention user_id product_id at db))
        db
        (History.record_view retention user_id slug at db)
unfolding History.record_view recorded
record_view-Done retention user_id slug at db = transaction-Done _ db (
    Ensures-authorize _ db (λ d. lock_active_user user_id false d.sellers.accounts)
      λ user locked. Ensures-load _ db (public_product_id slug) _ λ product_id shown.
        Ensures-modify _ db _
          (Ensures-gets _ _ _ (Ensures-modify _ _ _ (Ensures-pure tt _ (product_id, shown, refl)))))
