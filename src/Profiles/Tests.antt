-- ===== src/Profiles/Tests.antt =====
-- Runs of the onboarding, and the theorems applied to them.
use unishop_china.Prelude.{ℕ, ◌+◌, ◌≡◌, refl, true, false, none, some, [], ◌∷◌, arith}
use unishop_china.Prelude.Rows.{select, first?, update, count}
use unishop_china.Repositories.Users
use unishop_china.Market.Tables.{UserProfile, MarketDb}
use unishop_china.Market.Call
use unishop_china.Market.Call.{Fault, Outcome, ◌>>=◌}
use unishop_china.Market.Samples.{city, profile, market}
use unishop_china.Catalog.Repository
use unishop_china.Catalog.Cities
use unishop_china.Profiles.Service
use unishop_china.Profiles.Service.{ProfileUpdate, OwnProfile, PublicProfile}
use unishop_china.Profiles.Table.{IsTable}
use unishop_china.Profiles.Onboarding.{complete_onboarding-get_public}

program : Unit {0}
unfolding select first? update count Users.get_by_id Call.pure Call.fail Call.gets Call.found
    Call.load Call.transaction ◌>>=◌ Call.modify Call.fail_if Repository.city_by_id
    Repository.get_city Cities.active_city Cities.resolve_active_city Service.get_by_user_id
    Service.new_profile Service.add_profile Service.insert_or_retry Service.create_attempts
    Service.create Service.active_user Service.or_create Service.profile_for_update_or_create
    Service.has_length Service.required_onboarding_fields_valid Service.has_required_fields
    Service.city_is_active Service.own_result Service.get_or_create_own Service.requested_city
    Service.with_city Service.with_name Service.with_bio Service.demoted Service.edited
    Service.assign Service.update_own Service.onboarded Service.complete_onboarding
program = tt

abbrev handles : ℕ → ℕ
handles round = 71 + round

-- The seller's profile is filled in, and not complete yet.
abbrev filled : MarketDb
filled = record market { profiles = record profile { onboarding_completed = false } ∷ [] }

abbrev reply : OwnProfile
reply = record {
  public_handle = 71;
  display_name = some (65 ∷ 66 ∷ 67 ∷ []);
  bio = none;
  city = some 7;
  city_slug = some 100;
  city_active = true;
  onboarding_completed = true;
  member_since = 5;
  email_verified = true;
  phone_verified = true;
}

completes : Service.complete_onboarding 1 handles filled ≡ (Outcome.done reply, market)
unfolding program
completes = refl

-- The handle 71 is taken, so that the administrator's new profile has the second draw.
retries :
    (Service.get_or_create_own 2 handles market).1.profiles
    ≡ Service.new_profile 2 72 ∷ profile ∷ []
unfolding program
retries = refl

filled-IsTable : IsTable filled.profiles
filled-IsTable = record {
  unique_user = λ u. unfold count in ground arith;
  unique_handle = λ h. unfold count in ground arith;
  complete = (((λ e. absurd (ground arith)), refl), tt);
}

market-IsTable : IsTable market.profiles
market-IsTable = record {
  unique_user = λ u. unfold count in ground arith;
  unique_handle = λ h. unfold count in ground arith;
  complete = (((λ e. unfold program in refl), refl), tt);
}

abbrev request : ProfileUpdate
request = record { display_name = some none; bio = none; city = none }

abbrev withdrawn : UserProfile
withdrawn = record profile { display_name = none; onboarding_completed = false }

abbrev withdrawn_reply : OwnProfile
withdrawn_reply = record reply { display_name = none; onboarding_completed = false }

complete_onboarding-get_public_example :
    (Service.completed_profile 1 market ≡ some profile)
    × ((shown : PublicProfile) × (Service.get_public 71 market ≡ some shown)
        × (some shown.display_name ≡ some (65 ∷ 66 ∷ 67 ∷ []))
        × (shown.city ≡ 7))
unfolding program
complete_onboarding-get_public_example =
    complete_onboarding-get_public 1 handles filled market reply profile city filled-IsTable
      completes refl refl
