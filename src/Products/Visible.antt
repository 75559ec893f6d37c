-- ===== src/Products/Visible.antt =====
-- Who sees a listing: the public condition on its row and its seller, and withdrawals.
use unishop_china.Prelude.{
  ℕ, ◌≡◌, ◌∙◌, ◌⊎◌, refl, sym, subst, true, false, Option, none, some, arith, ==_refl, inl, inr,
}
use unishop_china.Prelude.Rows.{first?}
use unishop_china.Prelude.Rows.Counting.{first?-update}
use unishop_china.Models.{User}
use unishop_china.Repositories.Users
use unishop_china.Market.Tables.{UserProfile, ProductListing, MarketDb, is_published}
use unishop_china.Market.Call.{Fault, Outcome, load, found}
use unishop_china.Market.Rules.{done_lem}
use unishop_china.Profiles.Service.{get_by_user_id, has_verified_attempt}
use unishop_china.Products.Text.{Unicode}
use unishop_china.Products.Service
use unishop_china.Products.Public
use unishop_china.Products.Service.{
  View, ListingAction, has_slug, has_id, is_owned, owned_row, owned_view, joined, joined_option,
  assign, published, withdrawn,
}
use unishop_china.Products.Public.{
  PublicView, public_row, public_of, public_candidate, publicly_visible, is_visible_seller,
}
use unishop_china.Products.Transitions.{IsEligible, IsTransition, effect, transition-Done}
use unishop_china.Products.Table.{Valid}
use unishop_china.Products.Facts.{
  IsContactable, granted_facts, IsOnboarded, completed_facts, approved_lem, joined_facts, slug_lem,
}

-- The listing of a slug after an assignment to it.
pub assigned_slug :
    (f : ProductListing → ProductListing) (slug : ℕ) (row : ProductListing) (db : MarketDb)
    → ((l : ProductListing) → (f l).public_slug ≡ l.public_slug)
    → first? (has_slug slug) db.listings ≡ some row
    → first? (has_slug slug) (assign row.id f db).listings ≡ some (f row)
unfolding assign
assigned_slug f slug row db same e =
    first?-update (has_slug slug) (has_id row.id) f db.listings row (λ x. ground (arith, same x)) e
    ∙ ground (arith, ==_refl row.id)

pub seen_lem :
    (row : ProductListing) (user : User) (profile : UserProfile) (view : View) (db : MarketDb)
    → joined row db ≡ some view
    → Users.get_by_id row.seller_user_id db.sellers.accounts ≡ some user
    → get_by_user_id row.seller_user_id db ≡ some profile
    → publicly_visible view user profile db ≡ true
    → public_row (some row) db
      ≡ some (record {
        view = view;
        public_handle = profile.public_handle;
        display_name = profile.display_name;
      })
unfolding public_row public_of
seen_lem row user profile view db v u p t = ground arith

hidden_lem :
    (row : ProductListing) (db : MarketDb)
    → is_published row.status ≡ false
    → public_row (some row) db ≡ none
unfolding public_row
hidden_lem row db e =
    go (joined row db) (Users.get_by_id row.seller_user_id db.sellers.accounts)
      (get_by_user_id row.seller_user_id db) (λ view j. (joined_facts row view db j).same_row)
  where
    go :
        (v : Option View) (u : Option User) (p : Option UserProfile)
        → ((view : View) → v ≡ some view → view.row ≡ row)
        → public_of v u p db ≡ none
    go none u p same = unfold public_of in refl
    go (some view) none p same = unfold public_of in refl
    go (some view) (some user) none same = unfold public_of in refl
    go (some view) (some user) (some profile) same =
        let closed : is_published view.row.status ≡ false =
          subst (λ (r : ProductListing). is_published r.status ≡ false) (sym (same view refl)) e in
        unfold public_of publicly_visible in ground arith

-- The account and the profile of an eligible seller are those that the public condition wants.
pub eligible_seller :
    (user_id : ℕ) (db : MarketDb)
    → IsEligible user_id db
    → (user : User) × (profile : UserProfile) × IsContactable user_id user db
      × IsOnboarded user_id profile db
      × (is_visible_seller user profile db ≡ true)
unfolding is_visible_seller
eligible_seller user_id db e =
    let u = granted_facts user_id e.user db e.locked in
    let p = completed_facts user_id e.profile db e.completed in
    let approved : has_verified_attempt e.user.id db ≡ true =
      subst (λ i. has_verified_attempt i db ≡ true) (sym u.key)
        (approved_lem user_id e.attempt db e.latest e.is_approved) in
    (
      e.user,
      e.profile,
      u,
      p,
      ground (arith, approved, u.active, u.email, u.phone, p.completed, p.named, p.placed),
    )

module _ (unicode : Unicode) (user_id slug now : ℕ) (db db' : MarketDb) (view : View)
    (valid : Valid db) where
  -- Where the listings are well formed, a listing that its seller has paused or archived is hidden from
  -- the public at once: its slug is answered with 404.
  pub withdrawn_hidden :
      (action : ListingAction)
      → (action ≡ ListingAction.pause) ⊎ (action ≡ ListingAction.archive)
      → Service.transition unicode action user_id slug now db ≡ (Outcome.done view, db')
      → Public.public_view slug db' ≡ (Outcome.failed (Fault.listing 404), db')
  unfolding Public.public_view load found public_candidate
  withdrawn_hidden action which e =
      let t =
        done_lem (IsTransition unicode action user_id slug now db) db db' view _
          (transition-Done unicode user_id slug now db action) e in
      let (own, seller) = slug_lem user_id slug t.row db valid t.mine in
      let moved = assigned_slug (effect action now) slug t.row db (slug_kept action) own in
      ground (
        arith,
        subst (λ d. first? (has_slug slug) d.listings ≡ some (effect action now t.row))
            (sym t.state) moved,
        hidden_lem (effect action now t.row) db' (unpublished action t.row which),
      )
    where
      slug_kept :
          (action : ListingAction) (l : ProductListing)
          → (effect action now l).public_slug ≡ l.public_slug
      slug_kept ListingAction.publish l = unfold effect published in refl
      slug_kept ListingAction.pause l = unfold effect withdrawn in refl
      slug_kept ListingAction.archive l = unfold effect withdrawn in refl
      slug_kept ListingAction.other l = unfold effect withdrawn in refl

      unpublished :
          (action : ListingAction) (l : ProductListing)
          → (action ≡ ListingAction.pause) ⊎ (action ≡ ListingAction.archive)
          → is_published (effect action now l).status ≡ false
      unpublished ListingAction.publish l (inl p) = absurd (cc)
      unpublished ListingAction.publish l (inr p) = absurd (cc)
      unpublished ListingAction.pause l p = unfold effect withdrawn in refl
      unpublished ListingAction.archive l p = unfold effect withdrawn in refl
      unpublished ListingAction.other l p = unfold effect withdrawn in refl
