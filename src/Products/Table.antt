-- ===== src/Products/Table.antt =====
-- Well-formed tables of listings, and the calls of `ProductService` on them.
use unishop_china.Prelude.{
  ℕ, zero, suc, ◌+◌, ◌≤◌, ◌≡◌, refl, sym, subst, true, false, Bool, Option, none, some, List, arith,
  is_some, ==_refl,
}
use unishop_china.Prelude.Rows.{first?, count, All}
use unishop_china.Prelude.Rows.Counting.{count-update_eq, count-none}
use unishop_china.Prelude.Rows.Unique.{Only, first?-Only, All-update-Only}
use unishop_china.Market.Tables.{
  City, Category, ProductListing, ProductStatus, MarketDb, is_archived,
}
use unishop_china.Market.Call.{Ensures}
use unishop_china.Market.Rules.{
  Ensures-fail, Ensures-gets, Ensures-load, Ensures-pure, Ensures-unless, Ensures-check,
  Ensures-bind, Ensures-modify, Ensures-last, transaction-Done, Done-keeps,
}
use unishop_china.Catalog.Cities.{active_city, resolve_active_city}
use unishop_china.Catalog.Categories.{resolve_active}
use unishop_china.Products.Text.{Unicode}
use unishop_china.Products.Service
use unishop_china.Products.Service.{
  View, ProductCreate, ProductUpdate, ListingDraw, ListingAction, has_id, has_slug, is_owned,
  owned_row, owned_view, assign, published, withdrawn, is_allowed, new_listing, create_attempts,
  insert_or_retry, add_listing, edited, requested_city, requested_category,
}
use unishop_china.Products.Transitions.{
  IsEligible, eligible-Ensures, IsTransition, effect, transition-Done,
}

-- `ck_product_listing_publication`
abbrev pub Publication : ProductStatus → Option ℕ → Type 0
Publication ProductStatus.draft at = at ≡ none
Publication ProductStatus.published at = is_some at ≡ true
Publication ProductStatus.paused at = is_some at ≡ true
Publication ProductStatus.archived at = Unit {0}

abbrev pub IsPublication : ProductListing → Type 0
IsPublication l = Publication l.status l.published_at

-- Keys and slugs are unique, a draft was never published, and a published or paused listing has the
-- time of its publication.
pub record IsTable (rows : List ProductListing) : Type 0 where
  pub unique_id : (i : ℕ) → count (has_id i) rows ≤ 1
  pub unique_slug : (s : ℕ) → count (has_slug s) rows ≤ 1
  pub publication : All IsPublication rows

abbrev pub Valid : MarketDb → Type 0
Valid db = IsTable db.listings

pub row_Only :
    (user_id slug : ℕ) (row : ProductListing) (db : MarketDb)
    → Valid db
    → owned_row user_id slug db ≡ some row
    → Only (has_id row.id) row db.listings
unfolding owned_row
row_Only user_id slug row db v e =
    first?-Only (has_id row.id) (is_owned user_id slug) db.listings row (v.unique_id row.id) e
      (==_refl row.id)

assigned-Valid :
    (f : ProductListing → ProductListing) (row : ProductListing) (db : MarketDb)
    → ((l : ProductListing) → ((f l).id ≡ l.id) × ((f l).public_slug ≡ l.public_slug))
    → Only (has_id row.id) row db.listings
    → (IsPublication row → IsPublication (f row))
    → Valid db
    → Valid (assign row.id f db)
unfolding assign
assigned-Valid f row db same only keep v = record {
  unique_id = λ i.
      rw (count-update_eq (has_id i) (has_id row.id) f db.listings (λ x. ground (arith, same x)))
        (v.unique_id i);
  unique_slug = λ s.
      rw (count-update_eq (has_slug s) (has_id row.id) f db.listings (λ x. ground (arith, same x)))
        (v.unique_slug s);
  publication =
      All-update-Only IsPublication (has_id row.id) f row db.listings only keep v.publication;
}

effect_key :
    (action : ListingAction) (now : ℕ) (l : ProductListing)
    → ((effect action now l).id ≡ l.id) × ((effect action now l).public_slug ≡ l.public_slug)
unfolding effect published withdrawn
effect_key ListingAction.publish now l = (refl, refl)
effect_key ListingAction.pause now l = (refl, refl)
effect_key ListingAction.archive now l = (refl, refl)
effect_key ListingAction.other now l = (refl, refl)

effect-IsPublication :
    (action : ListingAction) (now : ℕ) (l : ProductListing)
    → is_allowed action l.status ≡ true
    → IsPublication l
    → IsPublication (effect action now l)
unfolding effect published withdrawn
effect-IsPublication ListingAction.publish now l allowed p = ground arith
effect-IsPublication ListingAction.pause now l allowed p = go l.status allowed p
  where
    go :
        (s : ProductStatus)
        → is_allowed ListingAction.pause s ≡ true
        → Publication s l.published_at
        → is_some l.published_at ≡ true
    go ProductStatus.published a q = q
    go ProductStatus.draft a q = absurd (unfold is_allowed in cc)
    go ProductStatus.paused a q = q
    go ProductStatus.archived a q = absurd (unfold is_allowed in cc)
effect-IsPublication ListingAction.archive now l allowed p = tt
effect-IsPublication ListingAction.other now l allowed p = tt

pub transition-Valid :
    (unicode : Unicode) (action : ListingAction) (user_id slug now : ℕ) (db : MarketDb)
    → Valid db
    → Valid (Service.transition unicode action user_id slug now db).1
transition-Valid unicode action user_id slug now db v =
    Done-keeps {Q = IsTransition unicode action user_id slug now db} Valid db _
      (λ view d t. subst Valid (sym t.state) (
        assigned-Valid (effect action now) t.row db (effect_key action now)
          (row_Only user_id slug t.row db v t.mine)
          (effect-IsPublication action now t.row t.allowed) v))
      v (transition-Done unicode user_id slug now db action)

created-Ensures :
    (n user_id : ℕ) (draws : ℕ → ListingDraw) (round : ℕ) (body : ProductCreate) (city : City)
    (category : Category) (db : MarketDb)
    → Valid db
    → Ensures (λ row d. Valid d) (create_attempts n user_id draws round body city category db)
unfolding create_attempts
created-Ensures zero user_id draws round body city category db v = Ensures-fail _ db
created-Ensures (suc n) user_id draws round body city category db v =
    Ensures-unless _ db (λ d. is_some (first? (has_id (draws round).id) d.listings)) _
      λ fresh. Ensures-gets _ db _ (
        go (is_some (first? (has_slug (draws round).public_slug) db.listings)) refl fresh
          (created-Ensures n user_id draws (round + 1) body city category db v))
  where
    go :
        (taken : Bool)
        → is_some (first? (has_slug (draws round).public_slug) db.listings) ≡ taken
        → is_some (first? (has_id (draws round).id) db.listings) ≡ false
        → Ensures
            (λ row d. Valid d)
            (create_attempts n user_id draws (round + 1) body city category db)
        → Ensures
            (λ row d. Valid d)
            (insert_or_retry taken
              (new_listing user_id (draws round) body city category)
              (create_attempts n user_id draws (round + 1) body city category)
              db)
    go true e fresh rest = unfold insert_or_retry in rest
    go false e fresh rest =
        unfold insert_or_retry add_listing new_listing count in
        Ensures-modify _ db _ (
          Ensures-pure _ _ (record {
            unique_id = λ i. ground (
              arith,
              v.unique_id i,
              count-none (has_id (draws round).id) db.listings (ground arith),
            );
            unique_slug = λ s. ground (
              arith,
              v.unique_slug s,
              count-none (has_slug (draws round).public_slug) db.listings (ground arith),
            );
            publication = (refl, v.publication);
          }))

pub create-Valid :
    (user_id : ℕ) (draws : ℕ → ListingDraw) (body : ProductCreate) (db : MarketDb)
    → Valid db
    → Valid (Service.create user_id draws body db).1
unfolding Service.create resolve_active_city resolve_active Service.own_response
create-Valid user_id draws body db v =
    Done-keeps {Q = λ (view : View) d. Valid d} Valid db _ (λ a d q. q) v
      (transaction-Done _ db (
        Ensures-check _ db _ (λ _. IsEligible user_id db) (eligible-Ensures user_id db)
          λ p eligible. Ensures-load _ db (active_city body.city_slug) _ λ city open_city.
            Ensures-load _ db _ _ λ category open_category.
              Ensures-bind _ db _ (λ row d. Valid d)
                (created-Ensures 8 user_id draws 0 body city category db v)
                λ row d w. Ensures-last _ _ d λ view e. w))

edited_key :
    (body : ProductUpdate) (city category : Option ℕ) (l : ProductListing)
    → ((edited body city category l).id ≡ l.id)
      × ((edited body city category l).public_slug ≡ l.public_slug)
unfolding edited
edited_key body city category l = (refl, refl)

edited-IsPublication :
    (body : ProductUpdate) (city category : Option ℕ) (l : ProductListing)
    → IsPublication l
    → IsPublication (edited body city category l)
unfolding edited
edited-IsPublication body city category l p = p

city_read :
    (wanted : Option ℕ) (db : MarketDb)
    → Ensures (λ city db'. (db' ≡ db) × Unit {0}) (requested_city wanted db)
unfolding requested_city resolve_active_city
city_read none db = Ensures-pure none db (refl, tt)
city_read (some slug) db = Ensures-load _ db _ _ λ city e. Ensures-pure _ db (refl, tt)

category_read :
    (wanted : Option ℕ) (db : MarketDb)
    → Ensures (λ category db'. (db' ≡ db) × Unit {0}) (requested_category wanted db)
unfolding requested_category resolve_active
category_read none db = Ensures-pure none db (refl, tt)
category_read (some slug) db = Ensures-load _ db _ _ λ category e. Ensures-pure _ db (refl, tt)

pub update-Valid :
    (user_id slug : ℕ) (body : ProductUpdate) (db : MarketDb)
    → Valid db
    → Valid (Service.update_listing user_id slug body db).1
unfolding Service.update_listing Service.owned Service.own_response
update-Valid user_id slug body db v =
    Done-keeps {Q = λ (view : View) d. Valid d} Valid db _ (λ a d q. q) v
      (transaction-Done _ db (
        Ensures-check _ db _ (λ _. IsEligible user_id db) (eligible-Ensures user_id db)
          λ p eligible. Ensures-load _ db (owned_row user_id slug) _ λ row mine.
            Ensures-unless _ db (λ _. is_archived row.status) _
              λ open_row.
                Ensures-check _ db _ (λ _. Unit {0}) (city_read body.city_slug db)
                  λ city u.
                    Ensures-check _ db _ (λ _. Unit {0}) (category_read body.category_slug db)
                      λ category w. Ensures-modify _ db _ (
                        Ensures-last _ _ _ λ view e.
                          assigned-Valid (edited body city category) row db
                            (edited_key body city category) (row_Only user_id slug row db v mine)
                            (edited-IsPublication body city category row) v)))
