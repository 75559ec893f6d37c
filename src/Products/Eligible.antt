-- ===== src/Products/Eligible.antt =====
-- The public condition on a seller, and the check by which sellers are admitted.
use unishop_china.Prelude.Rows.Counting.{first?-holds}
use unishop_china.Prelude.{ℕ, ◌≡◌, refl, subst, true, Bool-eq, Option, none, some, arith, is_some}
use unishop_china.Prelude.Rows.{first?}
use unishop_china.Models.{User}
use unishop_china.Repositories.Users
use unishop_china.Accounts.Service.{lock_active_user}
use unishop_china.Sellers.Tables as Sellers
use unishop_china.Sellers.Tables.{SellerVerification}
use unishop_china.Market.Tables.{UserProfile, ProductListing, MarketDb, is_published}
use unishop_china.Market.Call.{
  Outcome, is_done, Ensures, load, found, authorize, pure, fail_if, ◌>>=◌,
}
use unishop_china.Catalog.Categories.{is_publicly_active}
use unishop_china.Profiles.Service.{
  get_by_user_id, has_verified_attempt, is_verified, completed_profile, is_complete,
  has_required_fields, required_onboarding_fields_valid,
}
use unishop_china.Products.Service
use unishop_china.Products.Public
use unishop_china.Products.Service.{View, has_slug, joined}
use unishop_china.Products.Public.{
  public_row, public_of, public_candidate, publicly_visible, is_visible_seller,
}
use unishop_china.Products.Transitions.{IsEligible, eligible-Ensures}
use unishop_china.Products.Facts.{joined_facts}
use unishop_china.Products.Visible.{eligible_seller, seen_lem}

-- A seller's approved attempt is the latest one.
abbrev pub LatestDecides : ℕ → MarketDb → Type 0
LatestDecides user_id db =
    has_verified_attempt user_id db ≡ true
    → (attempt : SellerVerification) × (Sellers.latest user_id db.sellers ≡ some attempt)
      × (is_verified attempt.status ≡ true)

admitted_lem :
    (user_id : ℕ) (db : MarketDb)
    → is_done (Service.eligible user_id db).0 ≡ true
    → IsEligible user_id db
admitted_lem user_id db e = go (Service.eligible user_id db) (eligible-Ensures user_id db) e
  where
    go :
        (r : Outcome UserProfile × MarketDb)
        → Ensures (λ profile db'. (db' ≡ db) × IsEligible user_id db) r
        → is_done r.0 ≡ true
        → IsEligible user_id db
    go _ (Ensures.returns a d (same, q)) e = q
    go _ (Ensures.raises x d) e = cc

admits_lem :
    (user_id : ℕ) (user : User) (profile : UserProfile) (db : MarketDb)
    → LatestDecides user_id db
    → Users.get_by_id user_id db.sellers.accounts ≡ some user
    → get_by_user_id user_id db ≡ some profile
    → user.id ≡ user_id
    → is_visible_seller user profile db ≡ true
    → is_done (Service.eligible user_id db).0 ≡ true
unfolding Service.eligible Service.lock_verified_seller authorize load found pure fail_if ◌>>=◌
    lock_active_user is_visible_seller completed_profile is_complete has_required_fields
    required_onboarding_fields_valid
admits_lem user_id user profile db latest u p key seen =
    let approved : has_verified_attempt user_id db ≡ true =
      subst (λ i. has_verified_attempt i db ≡ true) key (ground arith) in
    let (attempt, e, ok) = latest approved in ground (arith, u, p, e, ok, seen)

key_lem :
    (user_id : ℕ) (user : User) (db : MarketDb)
    → Users.get_by_id user_id db.sellers.accounts ≡ some user
    → user.id ≡ user_id
unfolding Users.get_by_id
key_lem user_id user db e =
    ground (arith, first?-holds (Users.has_id user_id) db.sellers.accounts.users user e)

-- A listing that is shown has a seller whom the public condition accepts.
shown_seller :
    (row : ProductListing) (view : View) (db : MarketDb)
    → joined row db ≡ some view
    → is_some (public_row (some row) db) ≡ true
    → (user : User) × (profile : UserProfile) × (Users.get_by_id row.seller_user_id
          db.sellers.accounts
        ≡ some user)
      × (get_by_user_id row.seller_user_id db ≡ some profile)
      × (is_visible_seller user profile db ≡ true)
unfolding public_row
shown_seller row view db j e =
    go (Users.get_by_id row.seller_user_id db.sellers.accounts)
      (get_by_user_id row.seller_user_id db)
      (subst
        (λ v.
          is_some (
            public_of v (Users.get_by_id row.seller_user_id db.sellers.accounts)
              (get_by_user_id row.seller_user_id db) db)
          ≡ true)
        j e)
  where
    go :
        (u : Option User) (p : Option UserProfile)
        → is_some (public_of (some view) u p db) ≡ true
        → (user : User) × (profile : UserProfile) × (u ≡ some user)
          × (p ≡ some profile)
          × (is_visible_seller user profile db ≡ true)
    go none p e = absurd (unfold public_of in cc)
    go (some user) none e = absurd (unfold public_of in cc)
    go (some user) (some profile) e =
        (user, profile, refl, refl, unfold public_of publicly_visible in ground arith)

-- The public condition on a seller, written in SQL, and the check of a seller, written in Python,
-- agree: a published listing in an active city and a publicly active category is shown to the public
-- exactly where its seller would be admitted to sell, if the seller's approved verification, where
-- there is one, is the latest.
pub public_view-eq-eligible :
    (slug : ℕ) (row : ProductListing) (view : View) (db : MarketDb)
    → first? (has_slug slug) db.listings ≡ some row
    → joined row db ≡ some view
    → is_published row.status ≡ true
    → is_some row.published_at ≡ true
    → view.city.is_active ≡ true
    → is_publicly_active view.category view.parent ≡ true
    → LatestDecides row.seller_user_id db
    → is_done (Public.public_view slug db).0 ≡ is_done (Service.eligible row.seller_user_id db).0
unfolding Public.public_view load found public_candidate
public_view-eq-eligible slug row view db own j status at city category latest =
    Bool-eq _ _
      (λ shown.
        let (user, profile, u, p, seller) =
          shown_seller row view db j (ground (arith, own, shown)) in
        admits_lem row.seller_user_id user profile db latest u p
          (key_lem row.seller_user_id user db u) seller)
      (λ admitted.
        let (user, profile, u, p, seller) =
          eligible_seller row.seller_user_id db (admitted_lem row.seller_user_id db admitted) in
        ground (
          arith,
          own,
          seen_lem row user profile view db j u.row p.row (condition user profile seller),
        ))
  where
    condition :
        (user : User) (profile : UserProfile)
        → is_visible_seller user profile db ≡ true
        → publicly_visible view user profile db ≡ true
    condition user profile seller =
        unfold publicly_visible in ground (arith, (joined_facts row view db j).same_row)
