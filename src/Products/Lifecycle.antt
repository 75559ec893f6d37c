-- ===== src/Products/Lifecycle.antt =====
-- The transitions of a listing keep to their promise.
use unishop_china.Prelude.{
  ℕ, ◌≤◌, ◌≡◌, ◌∙◌, inl, inr, refl, sym, ap, true, false, Bool, Option, none, some, List, arith,
  is_some, is_none, ◌==◌, length, if◌then◌else◌, Option-cases,
}
use unishop_china.Prelude.Rows.{update}
use unishop_china.Models.{is_active_lem}
use unishop_china.Repositories.Users
use unishop_china.Accounts.Service.{lock_active_user}
use unishop_china.Sellers.Tables.{VerificationStatus}
use unishop_china.Market.Tables.{City, Category, ProductListing, ProductStatus, MarketDb}
use unishop_china.Market.Call.{Done}
use unishop_china.Market.Rules.{Done-map}
use unishop_china.Catalog.Cities.{active_city, is_open_city}
use unishop_china.Catalog.Categories.{is_open, is_publicly_active, is_active_root, parent_of}
use unishop_china.Catalog.Repository
use unishop_china.Profiles.Service.{has_length, is_verified}
use unishop_china.Products.Text.{
  Unicode, normalize_plain_text, strip, joined, replace_newlines, title_text, description_text,
  is_price, at_least,
}
use unishop_china.Products.Service
use unishop_china.Products.Service.{
  View, ListingAction, owned_row, owned_view, assign, published, withdrawn, is_allowed,
  is_valid_listing,
}
use unishop_china.Products.Facts.{granted_facts, completed_facts}
use unishop_china.Products.Transitions.{
  IsEligible, IsPresent, IsPlaced, IsChecked, IsTransition, effect, transition-Done,
}
use unishop_china.Products.Promise.{
  Allowed, target, first_time, stamped, IsActiveAccount, IsSeller, IsText, IsSellable, IsRooted,
  IsOffered, Publishable, Promise,
}

allowed_lem :
    (action : ListingAction) (s : ProductStatus) → is_allowed action s ≡ true → Allowed action s
unfolding is_allowed
allowed_lem ListingAction.publish ProductStatus.draft e = inl refl
allowed_lem ListingAction.publish ProductStatus.paused e = inr refl
allowed_lem ListingAction.publish ProductStatus.published e = absurd (ground arith)
allowed_lem ListingAction.publish ProductStatus.archived e = absurd (ground arith)
allowed_lem ListingAction.pause ProductStatus.published e = refl
allowed_lem ListingAction.pause ProductStatus.draft e = absurd (ground arith)
allowed_lem ListingAction.pause ProductStatus.paused e = absurd (ground arith)
allowed_lem ListingAction.pause ProductStatus.archived e = absurd (ground arith)
allowed_lem ListingAction.archive ProductStatus.draft e = inl refl
allowed_lem ListingAction.archive ProductStatus.published e = inr (inl refl)
allowed_lem ListingAction.archive ProductStatus.paused e = inr (inr refl)
allowed_lem ListingAction.archive ProductStatus.archived e = absurd (ground arith)
allowed_lem ListingAction.other s e = absurd (ground arith)

verified_lem : (s : VerificationStatus) → is_verified s ≡ true → s ≡ VerificationStatus.verified
verified_lem VerificationStatus.verified e = refl
verified_lem VerificationStatus.pending e = absurd (ground arith)
verified_lem VerificationStatus.under_review e = absurd (ground arith)
verified_lem VerificationStatus.rejected e = absurd (ground arith)

name_lem :
    (o : Option (List ℕ))
    → has_length o ≡ true
    → (name : List ℕ) × (o ≡ some name) × (2 ≤ length name) × (length name ≤ 50)
unfolding has_length
name_lem none e = absurd (ground arith)
name_lem (some name) e = (name, refl, ground arith, ground arith)

seller_lem : (user_id : ℕ) (db : MarketDb) → IsEligible user_id db → IsSeller user_id db
seller_lem user_id db e =
    let u = granted_facts user_id e.user db e.locked in
    let p = completed_facts user_id e.profile db e.completed in
    let (name, named, long, short) = name_lem e.profile.display_name p.named in
    record {
      user = e.user;
      attempt = e.attempt;
      profile = e.profile;
      name = name;
      account = u.row;
      active = is_active_lem e.user.account_status u.active;
      email = u.email;
      phone = u.phone;
      latest = e.latest;
      approved = verified_lem e.attempt.status e.is_approved;
      row = p.row;
      onboarded = p.completed;
      named = named;
      long = long;
      short = short;
      located = p.placed;
    }

present_lem : (user_id : ℕ) (db : MarketDb) → IsPresent user_id db → IsActiveAccount user_id db
unfolding lock_active_user
present_lem user_id db (user, locked) =
    elim (Option-cases (Users.get_by_id user_id db.sellers.accounts)) [
      | inl missing ↦ absurd (ground arith)
      | inr (u, found) ↦ (u, found, is_active_lem u.account_status (ground arith))
    ]

module _ (unicode : Unicode) where
  normalized_lem :
      (maximum : ℕ) (allow_newlines : Bool) (value text : List ℕ)
      → normalize_plain_text unicode maximum allow_newlines value ≡ some text
      → IsText unicode maximum allow_newlines value text
  unfolding normalize_plain_text
  normalized_lem maximum allow_newlines value text e =
      let form : strip unicode (unicode.nfc value) ≡ text = ground arith in
      record { form = sym form; bounded = ground arith; supported = ground arith }

  title_lem :
      (value : List ℕ)
      → is_some (title_text unicode value) ≡ true
      → (text : List ℕ) × IsText unicode 120 false value text
        × (3 ≤ length (joined unicode false false text))
  unfolding title_text at_least
  title_lem value e = elim (Option-cases (normalize_plain_text unicode 120 false value)) [
    | inl refused ↦ absurd (ground arith)
    | inr (text, found) ↦ (text, normalized_lem 120 false value text found, ground arith)
  ]

  description_lem :
      (value : List ℕ)
      → is_some (description_text unicode value) ≡ true
      → (text : List ℕ) × IsText unicode 5000 true (replace_newlines value) text
        × (10 ≤ length text)
  unfolding description_text at_least
  description_lem value e =
      elim (Option-cases (normalize_plain_text unicode 5000 true (replace_newlines value))) [
        | inl refused ↦ absurd (ground arith)
        | inr (text, found) ↦
            (text, normalized_lem 5000 true (replace_newlines value) text found, ground arith)
      ]

  sellable_lem : (l : ProductListing) → is_valid_listing unicode l ≡ true → IsSellable unicode l
  unfolding is_valid_listing is_price
  sellable_lem l e =
      let (title, t, title_long) = title_lem l.title (ground arith) in
      let (description, d, description_long) = description_lem l.description (ground arith) in
      record {
        title = title;
        description = description;
        title_limit = ground arith;
        title_text = t;
        title_long = title_long;
        description_limit = ground arith;
        description_text = d;
        description_long = description_long;
        positive = ground arith;
        payable = ground arith;
      }

city_lem :
    (slug : ℕ) (city : City) (db : MarketDb)
    → active_city slug db ≡ some city
    → (Repository.get_city slug db ≡ some city) × (city.is_active ≡ true)
unfolding active_city is_open_city
city_lem slug city db e = elim (Option-cases (Repository.get_city slug db)) [
  | inl missing ↦ absurd (ground arith)
  | inr (c, found) ↦ let same : c ≡ city = ground arith in (found ∙ ap some same, ground arith)
]

rooted_lem :
    (c : Category) (db : MarketDb)
    → is_publicly_active c (parent_of c db) ≡ true
    → IsRooted c.parent_id db
unfolding is_publicly_active parent_of is_active_root
rooted_lem c db e = go c.parent_id refl
  where
    go : (p : Option ℕ) → c.parent_id ≡ p → IsRooted p db
    go none q = tt
    go (some id) q = elim (Option-cases (Repository.by_id id db)) [
      | inl missing ↦ absurd (ground arith)
      | inr (parent, found) ↦ (parent, found, ground arith, ground arith)
    ]

category_lem :
    (slug : ℕ) (db : MarketDb)
    → is_open (Repository.get slug db) db ≡ true
    → (c : Category) × (Repository.get slug db ≡ some c)
      × (c.is_active ≡ true)
      × IsRooted c.parent_id db
category_lem slug db e = elim (Option-cases (Repository.get slug db)) [
  | inl missing ↦ absurd (unfold is_open in ground arith)
  | inr (c, found) ↦
      let seen : is_publicly_active c (parent_of c db) ≡ true = unfold is_open in ground arith in
      (c, found, unfold is_publicly_active in ground arith, rooted_lem c db seen)
]

offered_lem :
    (user_id slug : ℕ) (view : View) (db : MarketDb)
    → owned_view user_id slug db ≡ some view
    → IsPlaced view db
    → IsOffered user_id slug db
offered_lem user_id slug view db seen p =
    let (city_row, city_active) = city_lem view.city.slug p.city db p.city_active in
    let (category, category_row, category_active, rooted) =
      category_lem view.category.slug db p.category_open in
    record {
      view = view;
      city = p.city;
      category = category;
      seen = seen;
      city_row = city_row;
      city_active = city_active;
      category_row = category_row;
      category_active = category_active;
      rooted = rooted;
    }

stamp_lem : (now : ℕ) (o : Option ℕ) → (if is_none o then some now else o) ≡ first_time now o
stamp_lem now none = refl
stamp_lem now (some t) = refl

effect_lem :
    (action : ListingAction) (now : ℕ) (l : ProductListing)
    → effect action now l
      ≡ record l { status = target action; published_at = stamped action now l.published_at }
unfolding effect published withdrawn
effect_lem ListingAction.publish now l =
    ap (λ (t : Option ℕ). record l { status = ProductStatus.published; published_at = t })
      (stamp_lem now l.published_at)
effect_lem ListingAction.pause now l = refl
effect_lem ListingAction.archive now l = refl
effect_lem ListingAction.other now l = refl

written_lem :
    (action : ListingAction) (now id : ℕ) (db : MarketDb)
    → assign id (effect action now) db ≡ record db {
      listings =
          update
            (λ l. l.id == id)
            (λ l. record l {
              status = target action;
              published_at = stamped action now l.published_at;
            })
            db.listings;
    }
unfolding assign
written_lem action now id db =
    ap
      (λ (f : ProductListing → ProductListing). record db {
        listings = update (λ l. l.id == id) f db.listings;
      })
      (λ i l. effect_lem action now l i)

module _ (unicode : Unicode) (user_id slug now : ℕ) (db : MarketDb) where
  checked_lem :
      (action : ListingAction) (row : ProductListing)
      → IsChecked unicode action user_id slug row db
      → IsActiveAccount user_id db × Publishable unicode action user_id slug row db
  checked_lem ListingAction.publish row (eligible, (view, seen, placed), ok) =
      let s = seller_lem user_id db eligible in
      (
        (s.user, s.account, s.active),
        (s, sellable_lem unicode row ok, offered_lem user_id slug view db seen placed),
      )
  checked_lem ListingAction.pause row present = (present_lem user_id db present, tt)
  checked_lem ListingAction.archive row present = (present_lem user_id db present, tt)
  checked_lem ListingAction.other row present = (present_lem user_id db present, tt)

  -- A transition that is carried out is one of publish, from draft or paused, pause, from published,
  -- and archive, from any other status, on a listing of an active account. It writes only the
  -- listing's status and, on a first publication, its time of publication, and answers the new view.
  -- It publishes only for a seller with verified contacts, whose latest verification is approved
  -- and whose profile is complete, a listing with texts and a price within their limits, in an active
  -- city and a category that is active, as its parent, if it has one. A refused transition changes
  -- nothing.
  pub transition-Promise :
      (action : ListingAction)
      → Done
          (Promise unicode action user_id slug now db)
          db
          (Service.transition unicode action user_id slug now db)
  transition-Promise action =
      Done-map (IsTransition unicode action user_id slug now db)
        (Promise unicode action user_id slug now db) db _
        (λ view db' t.
          let (account, publishable) = checked_lem action t.row t.checked in
          record {
            row = t.row;
            mine = unfold owned_row in t.mine;
            account = account;
            allowed = allowed_lem action t.row.status t.allowed;
            publishable = publishable;
            written = t.state ∙ written_lem action now t.row.id db;
            answer = t.answer;
          })
        (transition-Done unicode user_id slug now db action)
