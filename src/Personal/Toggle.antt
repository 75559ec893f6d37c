-- ===== src/Personal/Toggle.antt =====
-- What adding, adding again, removing and looking up a favorite have to do with one another.
use unishop_china.Prelude.{
  ℕ, ◌≤◌, ◌≡◌, ◌∙◌, refl, sym, subst, ap, true, false, Bool, not, ◌&&◌, Option, none, some, List,
  [], ◌∷◌, arith, is_some, ◌==◌, Option-cases, inl, inr,
}
use unishop_china.Prelude.Rows.{select, first?}
use unishop_china.Prelude.Rows.Counting.{count-pos, first?-holds}
use unishop_china.Prelude.Rows.Sorting.{order_by, count-order_by}
use unishop_china.Accounts.Service.{Authorization, lock_active_user}
use unishop_china.Models.{User}
use unishop_china.Repositories.Users
use unishop_china.Market.Tables.{ProductListing, ProductFavorite, UserProfile, MarketDb}
use unishop_china.Market.Call.{
  Outcome, Done, transaction, ◌>>=◌, authorize, load, found, gets, pure,
}
use unishop_china.Market.Rules.{
  Ensures-authorize, Ensures-modify, Ensures-pure, transaction-Done, done_lem,
}
use unishop_china.Profiles.Service.{get_by_user_id}
use unishop_china.Products.Service.{View, has_slug, has_id, joined}
use unishop_china.Products.Public.{PublicView, public_candidate, public_row, public_of}
use unishop_china.Products.Facts.{joined_facts}
use unishop_china.Prelude.Rows.Lengths.{
  length-order_by, length-select, take_whole, found-count, count-both, is_some-count,
}
use unishop_china.Products.Kept.{candidate_kept}
use unishop_china.Personal.Favorites
use unishop_china.Personal.Favorites.{
  is_favorite_of, is_favorite, is_product, is_newer, entries_for_update, public_product_id,
  add_unless, is_affirmative, has_slug_id, remove_rows,
}
use unishop_china.Personal.Saved.{IsBounded, AddPromise, add-Done}

-- What the public sees does not depend on the favorites.
shown_kept :
    (slug : ℕ) (db : MarketDb) (rows : List ProductFavorite)
    → public_product_id slug (record db { favorites = rows }) ≡ public_product_id slug db
unfolding public_product_id
shown_kept slug db rows = rw (candidate_kept db rows db.recent_views slug) refl

-- Within the quota the entries hold every favorite of the account.
entries_whole :
    (quota user_id product_id : ℕ) (db : MarketDb)
    → quota ≤ 500
    → IsBounded quota db.favorites
    → is_some (first? (is_favorite user_id product_id) db.favorites) ≡ true
    → is_some (first? (is_product product_id) (entries_for_update user_id db)) ≡ true
unfolding entries_for_update
entries_whole quota user_id product_id db small v h =
    let mine = select (is_favorite_of user_id) db.favorites in
    rw
      (take_whole 501 (order_by is_newer mine) (
        omega (
          arith,
          v.within user_id,
          length-order_by is_newer mine,
          length-select (is_favorite_of user_id) db.favorites,
        )))
      (found-count (is_product product_id) (order_by is_newer mine) (
        omega (
          arith,
          count-order_by is_newer (is_product product_id) mine,
          count-both (is_favorite_of user_id) (is_product product_id) db.favorites,
          is_some-count (is_favorite user_id product_id) db.favorites h,
        )))

-- Adding is idempotent: where the quota is at most 500 and kept, a listing that was added is added
-- again, at any later time, without an error and without a change, also where the quota is reached.
pub add_twice :
    (quota user_id slug now later : ℕ) (db db' : MarketDb)
    → quota ≤ 500
    → IsBounded quota db.favorites
    → Favorites.add quota user_id slug now db ≡ (Outcome.done tt, db')
    → Favorites.add quota user_id slug later db' ≡ (Outcome.done tt, db')
unfolding Favorites.add transaction ◌>>=◌ authorize load found gets pure add_unless
add_twice quota user_id slug now later db db' small v e =
    let (product_id, user, locked, shown, keep, here, others) =
      done_lem (λ u d. AddPromise quota user_id slug now db d) db db' tt _
        (add-Done quota user_id slug now db small) e in
    let accounts : db'.sellers ≡ db.sellers = ap (λ (d : MarketDb). d.sellers) others in
    let locked' : lock_active_user user_id false db'.sellers.accounts ≡ Authorization.granted user =
      subst (λ s. lock_active_user user_id false s.accounts ≡ Authorization.granted user)
        (sym accounts) locked in
    let shown' : public_product_id slug db' ≡ some product_id =
      ap (public_product_id slug) others ∙ shown_kept slug db db'.favorites ∙ shown in
    ground (arith, locked', shown', entries_whole quota user_id product_id db' small (keep v) here)

-- Looking a listing up right after adding it says that it is saved.
add-is_affirmative :
    (quota user_id slug now : ℕ) (db db' : MarketDb)
    → quota ≤ 500
    → Favorites.add quota user_id slug now db ≡ (Outcome.done tt, db')
    → is_affirmative user_id slug db' ≡ true
unfolding is_affirmative
add-is_affirmative quota user_id slug now db db' small e =
    let (product_id, user, locked, shown, keep, here, others) =
      done_lem (λ u d. AddPromise quota user_id slug now db d) db db' tt _
        (add-Done quota user_id slug now db small) e in
    let shown' : public_product_id slug db' ≡ some product_id =
      ap (public_product_id slug) others ∙ shown_kept slug db db'.favorites ∙ shown in
    ground (arith, shown', here)

shown_row_id :
    (row : ProductListing) (shown : PublicView) (db : MarketDb)
    → public_row (some row) db ≡ some shown
    → shown.view.row.id ≡ row.id
unfolding public_row
shown_row_id row shown db e =
    go (joined row db) (Users.get_by_id row.seller_user_id db.sellers.accounts)
      (get_by_user_id row.seller_user_id db) (λ view j. (joined_facts row view db j).same_row) e
  where
    go :
        (v : Option View) (u : Option User) (p : Option UserProfile)
        → ((view : View) → v ≡ some view → view.row ≡ row)
        → public_of v u p db ≡ some shown
        → shown.view.row.id ≡ row.id
    go none u p same q = absurd (unfold public_of in cc)
    go (some view) none p same q = absurd (unfold public_of in cc)
    go (some view) (some user) none same q = absurd (unfold public_of in cc)
    go (some view) (some user) (some profile) same q =
        let r = same view refl in unfold public_of in ground arith

-- A listing that the public sees under a slug has that slug.
slug_of_shown :
    (slug product_id : ℕ) (db : MarketDb)
    → public_product_id slug db ≡ some product_id
    → has_slug_id slug product_id db ≡ true
unfolding public_product_id public_candidate has_slug_id
slug_of_shown slug product_id db e = elim (Option-cases (first? (has_slug slug) db.listings)) [
  | inl missing ↦ absurd (unfold public_row in ground arith)
  | inr (row, f) ↦ elim (Option-cases (public_row (some row) db)) [
    | inl hidden ↦ absurd (ground arith)
    | inr (shown, s) ↦
        found-count (λ l. l.public_slug == slug && has_id product_id l) db.listings
          (count-pos (λ l. l.public_slug == slug && has_id product_id l) (has_slug slug) db.listings
            row f
            (ground
              (arith, first?-holds (has_slug slug) db.listings row f, shown_row_id row shown db s)))
  ]
]

removed_lem :
    (p q : ProductFavorite → Bool) (xs : List ProductFavorite)
    → ((x : ProductFavorite) → q x ≡ true → p x ≡ false)
    → is_some (first? q (select p xs)) ≡ false
unfolding select first?
removed_lem p q [] h = refl
removed_lem p q (x ∷ xs) h = ground (arith, h x, removed_lem p q xs h)

pub remove-Done :
    (user_id slug : ℕ) (db : MarketDb)
    → Done (λ u db'. db' ≡ remove_rows user_id slug db) db (Favorites.remove user_id slug db)
unfolding Favorites.remove
remove-Done user_id slug db = transaction-Done _ db (
    Ensures-authorize _ db (λ d. lock_active_user user_id false d.sellers.accounts)
      λ user locked. Ensures-modify _ db _ (Ensures-pure tt _ refl))

-- Looking a listing up right after removing it says that it is not saved.
remove-is_affirmative :
    (user_id slug : ℕ) (db db' : MarketDb)
    → Favorites.remove user_id slug db ≡ (Outcome.done tt, db')
    → is_affirmative user_id slug db' ≡ false
unfolding is_affirmative remove_rows
remove-is_affirmative user_id slug db db' e =
    let state =
      done_lem (λ u d. d ≡ remove_rows user_id slug db) db db' tt _ (remove-Done user_id slug db)
        e in
    subst (λ d. is_affirmative user_id slug d ≡ false) (sym state)
      (elim (Option-cases (public_product_id slug db)) [
        | inl hidden ↦ ground (arith, shown_kept slug db (remove_rows user_id slug db).favorites)
        | inr (product_id, shown) ↦ ground (
          arith,
          shown_kept slug db (remove_rows user_id slug db).favorites,
          removed_lem (λ f. not (f.user_id == user_id && has_slug_id slug f.product_listing_id db))
              (is_favorite user_id product_id) db.favorites
              (λ f h.
                let own = slug_of_shown slug product_id db shown in
                let same : f.product_listing_id ≡ product_id = ground arith in
                let own' = subst (λ i. has_slug_id slug i db ≡ true) (sym same) own in
                ground arith),
        )
      ])
