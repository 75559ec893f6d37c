-- ===== src/Profiles/Onboarding.antt =====
-- What onboarding means for selling and for the public profile.
use unishop_china.Prelude.Rows.Unique.{first?-own}
use unishop_china.Prelude.{
  ==_refl, ◌&&◌, List, ℕ, ◌≡◌, ◌∙◌, refl, sym, subst, ap, true, false, Option, none, some, ◌⊎◌, inl,
  inr, Option-cases, arith,
}
use unishop_china.Catalog.Repository
use unishop_china.Models.{User}
use unishop_china.Prelude.Rows.{first?}
use unishop_china.Market.Tables.{City, UserProfile, MarketDb}
use unishop_china.Market.Call.{Fault, found, Outcome, Done, load}
use unishop_china.Market.Rules.{
  done_lem, Ensures-get, Ensures-bind, Ensures-load, transaction-Done, Done-keeps,
}
use unishop_china.Profiles.Service
use unishop_china.Profiles.Service.{
  has_handle, is_profile_of, PublicProfile, active_user, ProfileUpdate, OwnProfile, get_by_user_id,
  completed_profile, is_complete, has_required_fields, required_onboarding_fields_valid, has_length,
  onboarded, edited, demoted, with_name, with_bio, with_city,
}
use unishop_china.Profiles.Table.{IsTable, load-Ensures}
use unishop_china.Profiles.Changes.{owner_lem, IsRequested, UpdatePromise, update_own-Done}
use unishop_china.Profiles.Completion.{CompletionPromise, complete_onboarding-Done}

-- The calls on the own profile.
pub data ProfileCall : Type 0 where
  get_or_create complete : ProfileCall
  update : ProfileUpdate → ProfileCall

unfoldable pub after : ProfileCall → ℕ → (ℕ → ℕ) → MarketDb → MarketDb
after ProfileCall.get_or_create user_id handles db =
    (Service.get_or_create_own user_id handles db).1
after ProfileCall.complete user_id handles db = (Service.complete_onboarding user_id handles db).1
after (ProfileCall.update request) user_id handles db =
    (Service.update_own user_id handles request db).1

created-IsTable :
    (user_id : ℕ) (handles : ℕ → ℕ) (db : MarketDb)
    → IsTable db.profiles
    → Done (λ reply db'. IsTable db'.profiles) db (Service.get_or_create_own user_id handles db)
unfolding Service.get_or_create_own
created-IsTable user_id handles db v = transaction-Done _ db (
    Ensures-load _ db (active_user user_id) _ λ user active.
      Ensures-bind _ db _ _ (load-Ensures user.id handles db v)
        λ profile mid l. Ensures-get _ _ l.table)

-- Every call on the own profile, carried out or refused, keeps the profiles well formed: one profile
-- of a user, one user of a handle, every onboarded profile with a display name of 2 to 50 characters
-- and a city, and the name of a city beside its key.
profile_call-IsTable :
    (call : ProfileCall) (user_id : ℕ) (handles : ℕ → ℕ) (db : MarketDb)
    → IsTable db.profiles
    → IsTable (after call user_id handles db).profiles
unfolding after
profile_call-IsTable ProfileCall.get_or_create user_id handles db v =
    Done-keeps (λ d. IsTable d.profiles) db _ (λ a d t. t) v (created-IsTable user_id handles db v)
profile_call-IsTable ProfileCall.complete user_id handles db v =
    Done-keeps {Q = λ reply d. CompletionPromise user_id db d} (λ d. IsTable d.profiles) db _
      (λ a d c. c.1.table) v (complete_onboarding-Done user_id handles db v)
profile_call-IsTable (ProfileCall.update request) user_id handles db v =
    Done-keeps {Q = λ reply d. UpdatePromise user_id request db d} (λ d. IsTable d.profiles) db _
      (λ a d c. c.3.table) v (update_own-Done user_id handles request db v)

name_lem :
    (p : UserProfile)
    → has_required_fields p ≡ true
    → (name : List ℕ) × (p.display_name ≡ some name)
unfolding has_required_fields
name_lem p full = elim (Option-cases p.display_name) [
  | inl missing ↦ absurd (ground arith)
  | inr named ↦ named
]

completed_lem :
    (user_id : ℕ) (p : UserProfile) (db : MarketDb)
    → get_by_user_id user_id db ≡ some (onboarded p)
    → has_required_fields p ≡ true
    → completed_profile user_id db ≡ some (onboarded p)
unfolding completed_profile is_complete onboarded has_required_fields
completed_lem user_id p db e full = ground arith

active_lem :
    (user_id : ℕ) (db db' : MarketDb)
    → db'.sellers ≡ db.sellers
    → active_user user_id db' ≡ active_user user_id db
unfolding active_user
active_lem user_id db db' e = ground arith

shown_lem :
    (p : UserProfile) (user : User) (name : List ℕ) (city : City) (db : MarketDb)
    → first? (has_handle p.public_handle) db.profiles ≡ some p
    → p.onboarding_completed ≡ true
    → active_user p.user_id db ≡ some user
    → p.display_name ≡ some name
    → Repository.city_by_id p.city_id db ≡ some city
    → (shown : PublicProfile) × (Service.get_public p.public_handle db ≡ some shown)
      × (some shown.display_name ≡ p.display_name)
      × (shown.city ≡ city.name_en)
unfolding Service.get_public Service.active_public Service.public_result
shown_lem p user name city db own full active named here = (
  record {
    public_handle = p.public_handle;
    display_name = name;
    bio = p.bio;
    city = city.name_en;
    member_since = user.created_at;
    email_verified = user.email_verified;
    phone_verified = user.phone_verified;
    seller_verified =
        user.email_verified && user.phone_verified && Service.has_verified_attempt user.id db;
  },
  ground arith,
  sym named,
  refl,
)

-- Onboarding opens the way to selling and to a public profile. After it was completed, in a well-formed
-- table of profiles, the check of a seller's profile finds the account's profile complete; and the
-- public page of its handle shows its display name and its city, if that city is a row of the catalog.
pub complete_onboarding-get_public :
    (user_id : ℕ) (handles : ℕ → ℕ) (db db' : MarketDb) (reply : OwnProfile) (profile : UserProfile)
    (city : City)
    → IsTable db.profiles
    → Service.complete_onboarding user_id handles db ≡ (Outcome.done reply, db')
    → get_by_user_id user_id db' ≡ some profile
    → Repository.city_by_id profile.city_id db' ≡ some city
    → (completed_profile user_id db' ≡ some profile)
      × ((shown : PublicProfile) × (Service.get_public profile.public_handle db' ≡ some shown)
          × (some shown.display_name ≡ profile.display_name)
          × (shown.city ≡ city.name_en))
complete_onboarding-get_public user_id handles db db' reply profile city v e mine here =
    let (p, c, full, open_city) =
      done_lem (λ reply d. CompletionPromise user_id db d) db db' reply _
        (complete_onboarding-Done user_id handles db v) e in
    let same : onboarded p ≡ profile = cc in
    let (name, named) = name_lem p full in
    (
      completed_lem user_id p db' c.stored full ∙ ap some same,
      shown_lem profile c.user name city db'
          (first?-own (has_handle profile.public_handle) (is_profile_of user_id) db'.profiles
            profile (c.table.unique_handle profile.public_handle) (row_lem mine)
            (==_refl profile.public_handle))
          (subst (λ (q : UserProfile). q.onboarding_completed ≡ true) same (flag_lem p))
          (subst (λ u. active_user u db' ≡ some c.user) (sym (owner_lem user_id profile db' mine))
            (active_lem user_id db db' (ap (λ (d : MarketDb). d.sellers) c.others) ∙ c.active))
          (subst (λ (q : UserProfile). q.display_name ≡ some name) same (kept_lem p ∙ named)) here,
    )
  where
    row_lem :
        get_by_user_id user_id db' ≡ some profile
        → first? (is_profile_of user_id) db'.profiles ≡ some profile
    row_lem q = unfold get_by_user_id in q

    flag_lem : (q : UserProfile) → (onboarded q).onboarding_completed ≡ true
    flag_lem q = unfold onboarded in refl

    kept_lem : (q : UserProfile) → (onboarded q).display_name ≡ q.display_name
    kept_lem q = unfold onboarded in refl

-- A request that removes the display name or the city.
abbrev pub Withdraws : ProfileUpdate → Type 0
Withdraws request = (request.display_name ≡ some none) ⊎ (request.city ≡ some none)

withdrawn_lem :
    (request : ProfileUpdate) (city : Option (Option City)) (p : UserProfile) (db : MarketDb)
    → (request.display_name ≡ some none) ⊎ (city ≡ some none)
    → is_complete (some (edited request city p)) ≡ false
unfolding is_complete edited demoted has_required_fields with_bio with_name with_city
    required_onboarding_fields_valid has_length
withdrawn_lem request city p db (inl nameless) = ground arith
withdrawn_lem request city p db (inr cityless) = ground arith

no_city :
    (request : ProfileUpdate) (city : Option (Option City)) (db : MarketDb)
    → IsRequested request.city db city
    → request.city ≡ some none
    → city ≡ some none
no_city request city db named e = subst (λ w. IsRequested w db city) e named

-- A profile without a display name or without a city does not sell: after an update that removed one
-- of them, the check of a seller's profile refuses the account, also if it was onboarded before.
update_own-Withdraws :
    (user_id : ℕ) (handles : ℕ → ℕ) (request : ProfileUpdate) (db db' : MarketDb)
    (reply : OwnProfile)
    → IsTable db.profiles
    → Withdraws request
    → Service.update_own user_id handles request db ≡ (Outcome.done reply, db')
    → Service.get_completed_for_update user_id db'
      ≡ (Outcome.failed Fault.onboarding_incomplete, db')
unfolding Service.get_completed_for_update load found completed_profile
update_own-Withdraws user_id handles request db db' reply v w e =
    let (city, profile, named, c) =
      done_lem (λ reply d. UpdatePromise user_id request db d) db db' reply _
        (update_own-Done user_id handles request db v) e in
    ground (arith, c.stored, withdrawn_lem request city profile db' (go city named w))
  where
    go :
        (city : Option (Option City))
        → IsRequested request.city db city
        → Withdraws request
        → (request.display_name ≡ some none) ⊎ (city ≡ some none)
    go city named (inl nameless) = inl nameless
    go city named (inr cityless) = inr (no_city request city db named cityless)
