-- ===== src/Products/Published.antt =====
-- What publishing a listing shows to the public.
use unishop_china.Prelude.{ℕ, ◌≡◌, ◌∙◌, refl, sym, subst, true, some, arith, ==_refl}
use unishop_china.Prelude.Rows.{first?}
use unishop_china.Prelude.Rows.Counting.{first?-update}
use unishop_china.Models.{User}
use unishop_china.Repositories.Users
use unishop_china.Market.Tables.{City, UserProfile, ProductListing, MarketDb}
use unishop_china.Market.Call.{Outcome, load, found}
use unishop_china.Market.Rules.{done_lem}
use unishop_china.Catalog.Reach.{IsCatalog}
use unishop_china.Catalog.Repository
use unishop_china.Catalog.Categories.{is_publicly_active, parent_of}
use unishop_china.Profiles.Service.{get_by_user_id, has_verified_attempt}
use unishop_china.Products.Text.{Unicode}
use unishop_china.Products.Service
use unishop_china.Products.Public
use unishop_china.Products.Service.{
  View, ListingAction, has_slug, has_id, is_owned, owned_row, owned_view, joined, joined_option,
  assign, published, withdrawn,
}
use unishop_china.Products.Public.{
  PublicView, public_row, public_of, public_candidate, publicly_visible, is_visible_seller,
}
use unishop_china.Products.Transitions.{IsEligible, IsPlaced, IsTransition, effect, transition-Done}
use unishop_china.Products.Table.{Valid}
use unishop_china.Products.Facts.{IsJoined, joined_facts, city_lem, category_lem, slug_lem}
use unishop_china.Products.Visible.{assigned_slug, seen_lem, eligible_seller}

module _ (unicode : Unicode) (user_id slug now : ℕ) (db db' : MarketDb) (view : View)
    (valid : Valid db) where
  -- What publishing left of the place of the listing.
  place_lem :
      (row : ProductListing) (before : View)
      → IsCatalog db
      → IsJoined row before db
      → IsPlaced before db
      → IsJoined (published now row) view (assign row.id (published now) db)
      → (view.city.is_active ≡ true) × (is_publicly_active view.category view.parent ≡ true)
  unfolding assign published Repository.by_id parent_of
  place_lem row before cat old placed new =
      let same_city : before.city ≡ view.city = ground (arith, old.city, new.city) in
      let same_category : before.category ≡ view.category =
        ground (arith, old.category, new.category) in
      (
        subst (λ (c : City). c.is_active ≡ true) same_city
            (city_lem row.city_id before.city placed.city db cat.city_table old.city
              placed.city_active),
        subst (λ p. is_publicly_active view.category p ≡ true) (sym new.parent)
            (subst (λ c. is_publicly_active c (parent_of c db) ≡ true) same_category
              (category_lem row.category_id before.category db cat.tree old.category
                placed.category_open)),
      )

  owned_after :
      (row : ProductListing)
      → owned_row user_id slug db ≡ some row
      → owned_row user_id slug (assign row.id (published now) db) ≡ some (published now row)
  unfolding owned_row assign published
  owned_after row e =
      first?-update (is_owned user_id slug) (has_id row.id) (published now) db.listings row
        (λ x. ground arith) e
      ∙ ground (arith, ==_refl row.id)

  joined_lem :
      (row : ProductListing) (v : View) (d : MarketDb)
      → owned_row user_id slug d ≡ some row
      → owned_view user_id slug d ≡ some v
      → joined row d ≡ some v
  unfolding owned_view joined_option
  joined_lem row v d mine seen = ground arith

  seller_lem :
      (user : User) (profile : UserProfile) (row : ProductListing)
      → is_visible_seller user profile db ≡ true
      → is_visible_seller user profile (assign row.id (published now) db) ≡ true
  unfolding is_visible_seller has_verified_attempt assign
  seller_lem user profile row e = e

  stored_lem :
      (profile : UserProfile) (row : ProductListing)
      → get_by_user_id user_id db ≡ some profile
      → get_by_user_id user_id (assign row.id (published now) db) ≡ some profile
  unfolding get_by_user_id assign
  stored_lem profile row e = e

  account_lem :
      (user : User) (row : ProductListing)
      → Users.get_by_id user_id db.sellers.accounts ≡ some user
      → Users.get_by_id user_id (assign row.id (published now) db).sellers.accounts ≡ some user
  unfolding assign
  account_lem user row e = e

  condition_lem :
      (row : ProductListing) (user : User) (profile : UserProfile) (d : MarketDb)
      → view.row ≡ published now row
      → is_visible_seller user profile d ≡ true
      → view.city.is_active ≡ true
      → is_publicly_active view.category view.parent ≡ true
      → publicly_visible view user profile d ≡ true
  unfolding publicly_visible published
  condition_lem row user profile d same seller city category = ground arith

  core_lem :
      (row : ProductListing) (before : View)
      → IsCatalog db
      → IsEligible user_id db
      → owned_row user_id slug db ≡ some row
      → owned_view user_id slug db ≡ some before
      → IsPlaced before db
      → owned_view user_id slug (assign row.id (published now) db) ≡ some view
      → (shown : PublicView) × (public_row
            (some (published now row))
            (assign row.id (published now) db)
          ≡ some shown)
        × (shown.view ≡ view)
  core_lem row before cat eligible mine seen placed answer =
      let (user, profile, u, p, seller) = eligible_seller user_id db eligible in
      let (own, owner) = slug_lem user_id slug row db valid mine in
      let j =
        joined_lem (published now row) view (assign row.id (published now) db)
          (owned_after row mine) answer in
      let new = joined_facts (published now row) view (assign row.id (published now) db) j in
      let (city, category) =
        place_lem row before cat (joined_facts row before db (joined_lem row before db mine seen))
          placed new in
      (
        record {
          view = view;
          public_handle = profile.public_handle;
          display_name = profile.display_name;
        },
        seen_lem (published now row) user profile view (assign row.id (published now) db) j
            (subst
              (λ i.
                Users.get_by_id i (assign row.id (published now) db).sellers.accounts ≡ some user)
              (sym (seller_kept row ∙ owner)) (account_lem user row u.row))
            (subst (λ i. get_by_user_id i (assign row.id (published now) db) ≡ some profile)
              (sym (seller_kept row ∙ owner)) (stored_lem profile row p.row))
            (condition_lem row user profile (assign row.id (published now) db) new.same_row
              (seller_lem user profile row seller) city category),
        refl,
      )
    where
      seller_kept : (l : ProductListing) → (published now l).seller_user_id ≡ l.seller_user_id
      seller_kept l = unfold published in refl

  -- Publishing takes effect at once: where the catalog and the listings are well formed, a listing
  -- that was published is found by anybody under its slug, as the view that the seller was answered.
  pub published_visible :
      IsCatalog db
      → Service.transition unicode ListingAction.publish user_id slug now db
        ≡ (Outcome.done view, db')
      → (shown : PublicView) × (Public.public_view slug db' ≡ (Outcome.done shown, db'))
        × (shown.view ≡ view)
  unfolding Public.public_view load found public_candidate effect
  published_visible cat e =
      let t =
        done_lem (IsTransition unicode ListingAction.publish user_id slug now db) db db' view _
          (transition-Done unicode user_id slug now db ListingAction.publish) e in
      let (eligible, (before, seen, placed), ok) = t.checked in
      let (own, seller) = slug_lem user_id slug t.row db valid t.mine in
      let moved = assigned_slug (published now) slug t.row db slug_kept own in
      let answer = subst (λ d. owned_view user_id slug d ≡ some view) t.state t.answer in
      let (shown, found_row, same) = core_lem t.row before cat eligible t.mine seen placed answer in
      let (found', row') =
        subst
          (λ d.
            (first? (has_slug slug) d.listings ≡ some (published now t.row))
            × (public_row (some (published now t.row)) d ≡ some shown))
          (sym t.state) (moved, found_row) in
      (shown, ground (arith, found', row'), same)
    where
      slug_kept : (l : ProductListing) → (published now l).public_slug ≡ l.public_slug
      slug_kept l = unfold published in refl
