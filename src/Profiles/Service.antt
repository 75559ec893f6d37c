-- ===== src/Profiles/Service.antt =====
-- `ProfileService` and `ProfileRepository`, method by method.
use unishop_china.Prelude.{
  ℕ, zero, suc, ◌+◌, Bool, true, false, not, ◌&&◌, Option, none, some, List, ◌∷◌, is_some, leb,
  ◌==◌, if◌then◌else◌, length,
}
use unishop_china.Prelude.Rows.{first?, update}
use unishop_china.Models.{User, is_active}
use unishop_china.Repositories.Users
use unishop_china.Sellers.Tables.{VerificationStatus, SellerVerification}
use unishop_china.Market.Tables.{City, UserProfile, MarketDb}
use unishop_china.Market.Call.{
  Fault, Call, pure, fail, gets, load, transaction, ◌>>=◌, ◌>>◌, modify, fail_if,
}
use unishop_china.Catalog.Repository
use unishop_china.Catalog.Cities.{resolve_active_city}

-- `ProfileUpdateRequest`; an absent field is `none`, a null is `some none`.
pub record ProfileUpdate : Type 0 where
  pub display_name : Option (Option (List ℕ))
  pub bio : Option (Option ℕ)
  pub city : Option (Option ℕ)

pub record OwnProfile : Type 0 where
  pub public_handle : ℕ
  pub display_name : Option (List ℕ)
  pub bio : Option ℕ
  pub city : Option ℕ
  pub city_slug : Option ℕ
  pub city_active : Bool
  pub onboarding_completed : Bool
  pub member_since : ℕ
  pub email_verified : Bool
  pub phone_verified : Bool

pub record PublicProfile : Type 0 where
  pub public_handle : ℕ
  pub display_name : List ℕ
  pub bio : Option ℕ
  pub city : ℕ
  pub member_since : ℕ
  pub email_verified : Bool
  pub phone_verified : Bool
  pub seller_verified : Bool

abbrev pub is_profile_of : ℕ → UserProfile → Bool
is_profile_of user_id p = p.user_id == user_id

abbrev pub has_handle : ℕ → UserProfile → Bool
has_handle handle p = p.public_handle == handle

unfoldable pub get_by_user_id : ℕ → MarketDb → Option UserProfile
get_by_user_id user_id db = first? (is_profile_of user_id) db.profiles

unfoldable pub new_profile : ℕ → ℕ → UserProfile
new_profile user_id handle = record {
  user_id = user_id;
  public_handle = handle;
  display_name = none;
  bio = none;
  city = none;
  city_id = none;
  onboarding_completed = false;
}

unfoldable pub add_profile : UserProfile → MarketDb → MarketDb
add_profile row db = record db { profiles = row ∷ db.profiles }

-- The insertion in its savepoint: a handle that is taken is retried.
unfoldable pub insert_or_retry : Bool → UserProfile → Call UserProfile → Call UserProfile
insert_or_retry true row retry = retry
insert_or_retry false row retry = do modify (add_profile row); pure row

-- The rounds that are left, and the round that runs; `handles` are those that the generator draws.
unfoldable pub create_attempts : ℕ → ℕ → (ℕ → ℕ) → ℕ → Call UserProfile
create_attempts zero user_id handles round = fail Fault.runtime_error
create_attempts (suc n) user_id handles round =
    let retry = create_attempts n user_id handles (round + 1) in
    do
      fail_if (λ db. is_some (get_by_user_id user_id db)) Fault.integrity_error
      taken ← gets (λ db. is_some (first? (has_handle (handles round)) db.profiles))
      insert_or_retry taken (new_profile user_id (handles round)) retry

unfoldable pub create : ℕ → (ℕ → ℕ) → Call UserProfile
create user_id handles = create_attempts 8 user_id handles 0

-- The account, if it is active.
unfoldable pub active_user : ℕ → MarketDb → Option User
active_user user_id db = elim (Users.get_by_id user_id db.sellers.accounts) [
  | none ↦ none
  | some user ↦ if is_active user.account_status then some user else none
]

unfoldable pub or_create : ℕ → (ℕ → ℕ) → Option UserProfile → Call UserProfile
or_create user_id handles none = create user_id handles
or_create user_id handles (some profile) = pure profile

unfoldable pub profile_for_update_or_create : ℕ → (ℕ → ℕ) → Call UserProfile
profile_for_update_or_create user_id handles = do
  profile ← gets (get_by_user_id user_id)
  or_create user_id handles profile

unfoldable pub has_length : Option (List ℕ) → Bool
has_length none = false
has_length (some name) = leb 2 (length name) && leb (length name) 50

unfoldable pub required_onboarding_fields_valid : Option (List ℕ) → Option ℕ → Bool
unfolding has_length
required_onboarding_fields_valid display_name city_id = has_length display_name && is_some city_id

unfoldable pub has_required_fields : UserProfile → Bool
unfolding required_onboarding_fields_valid
has_required_fields p = required_onboarding_fields_valid p.display_name p.city_id

unfoldable pub city_is_active : Option City → Bool
city_is_active none = false
city_is_active (some city) = city.is_active

abbrev name_of : Option City → Option ℕ
name_of none = none
name_of (some city) = some city.name_en

abbrev slug_of : Option City → Option ℕ
slug_of none = none
slug_of (some city) = some city.slug

unfoldable pub own_result : UserProfile → User → MarketDb → OwnProfile
unfolding city_is_active
own_result profile user db =
    let city = Repository.city_by_id profile.city_id db in
    record {
      public_handle = profile.public_handle;
      display_name = profile.display_name;
      bio = profile.bio;
      city = name_of city;
      city_slug = slug_of city;
      city_active = city_is_active city;
      onboarding_completed = profile.onboarding_completed;
      member_since = user.created_at;
      email_verified = user.email_verified;
      phone_verified = user.phone_verified;
    }

unfoldable pub get_or_create_own : ℕ → (ℕ → ℕ) → Call OwnProfile
get_or_create_own user_id handles = transaction (do
  user ← load (active_user user_id) Fault.profile_unavailable
  profile ← profile_for_update_or_create user.id handles
  gets (own_result profile user))

-- The city that a request names, if it names one.
unfoldable pub requested_city : Option (Option ℕ) → Call (Option (Option City))
requested_city none = pure none
requested_city (some none) = pure (some none)
requested_city (some (some slug)) = do city ← resolve_active_city slug; pure (some (some city))

unfoldable pub with_city : Option (Option City) → UserProfile → UserProfile
with_city none p = p
with_city (some none) p = record p { city_id = none; city = none }
with_city (some (some city)) p = record p { city_id = some city.id; city = some city.name_en }

unfoldable pub with_name : Option (Option (List ℕ)) → UserProfile → UserProfile
with_name none p = p
with_name (some name) p = record p { display_name = name }

unfoldable pub with_bio : Option (Option ℕ) → UserProfile → UserProfile
with_bio none p = p
with_bio (some bio) p = record p { bio = bio }

-- A profile that lost a required field is not onboarded any more.
unfoldable pub demoted : UserProfile → UserProfile
demoted p = if has_required_fields p then p else record p { onboarding_completed = false }

unfoldable pub edited : ProfileUpdate → Option (Option City) → UserProfile → UserProfile
unfolding demoted with_bio with_name with_city
edited request city p =
    demoted (with_bio request.bio (with_name request.display_name (with_city city p)))

-- Assignments to the loaded row.
unfoldable pub assign : ℕ → (UserProfile → UserProfile) → MarketDb → MarketDb
assign user_id f db = record db { profiles = update (is_profile_of user_id) f db.profiles }

unfoldable pub update_own : ℕ → (ℕ → ℕ) → ProfileUpdate → Call OwnProfile
update_own user_id handles request = transaction (do
  user ← load (active_user user_id) Fault.profile_unavailable
  profile ← profile_for_update_or_create user.id handles
  city ← requested_city request.city
  modify (assign user.id (edited request city))
  gets (own_result (edited request city profile) user))

unfoldable pub onboarded : UserProfile → UserProfile
onboarded p = record p { onboarding_completed = true }

unfoldable pub complete_onboarding : ℕ → (ℕ → ℕ) → Call OwnProfile
complete_onboarding user_id handles = transaction (do
  user ← load (active_user user_id) Fault.profile_unavailable
  profile ← profile_for_update_or_create user.id handles
  fail_if (λ _. not (has_required_fields profile)) Fault.onboarding_incomplete
  fail_if
      (λ db.
        not profile.onboarding_completed
        && not (city_is_active (Repository.city_by_id profile.city_id db)))
      Fault.onboarding_incomplete
  modify (assign user.id onboarded)
  gets (own_result (onboarded profile) user))

-- The locked profile of a listing's seller, if it is complete.
unfoldable pub is_complete : Option UserProfile → Bool
unfolding has_required_fields
is_complete none = false
is_complete (some p) = p.onboarding_completed && has_required_fields p

unfoldable pub completed_profile : ℕ → MarketDb → Option UserProfile
unfolding is_complete
completed_profile user_id db =
    let profile = get_by_user_id user_id db in if is_complete profile then profile else none

unfoldable pub get_completed_for_update : ℕ → Call UserProfile
get_completed_for_update user_id = load (completed_profile user_id) Fault.onboarding_incomplete

abbrev pub is_verified : VerificationStatus → Bool
is_verified VerificationStatus.verified = true
is_verified _ = false

-- `verified_predicate`
unfoldable pub is_verified_of : ℕ → SellerVerification → Bool
is_verified_of user_id v = v.user_id == user_id && is_verified v.status

unfoldable pub has_verified_attempt : ℕ → MarketDb → Bool
has_verified_attempt user_id db = is_some (first? (is_verified_of user_id) db.sellers.verifications)

-- The join of the profile and its account.
unfoldable pub active_public : Option UserProfile → MarketDb → Option (UserProfile × User)
active_public none db = none
active_public (some profile) db =
    if profile.onboarding_completed
    then elim (active_user profile.user_id db) [ none ↦ none | some user ↦ some (profile, user) ]
    else none

unfoldable pub public_result :
    UserProfile → User → Option (List ℕ) → Option City → MarketDb → Option PublicProfile
public_result profile user none city db = none
public_result profile user (some name) none db = none
public_result profile user (some name) (some city) db = some (record {
  public_handle = profile.public_handle;
  display_name = name;
  bio = profile.bio;
  city = city.name_en;
  member_since = user.created_at;
  email_verified = user.email_verified;
  phone_verified = user.phone_verified;
  seller_verified = user.email_verified && user.phone_verified && has_verified_attempt user.id db;
})

unfoldable pub get_public : ℕ → MarketDb → Option PublicProfile
get_public handle db = elim (active_public (first? (has_handle handle) db.profiles) db) [
  | none ↦ none
  | some (profile, user) ↦
      public_result profile user profile.display_name (Repository.city_by_id profile.city_id db) db
]
