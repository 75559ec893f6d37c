-- ===== src/Profiles/Completion.antt =====
-- What the completion of the onboarding promises.
use unishop_china.Prelude.{
  ℕ, ◌≡◌, refl, subst, ap, true, false, not, ◌&&◌, Option, none, some, arith,
}
use unishop_china.Prelude.Rows.{first?}
use unishop_china.Market.Tables.{UserProfile, MarketDb}
use unishop_china.Market.Call.{Done}
use unishop_china.Market.Rules.{
  Ensures-get, Ensures-load, Ensures-unless, Ensures-bind, Ensures-modify, transaction-Done,
}
use unishop_china.Catalog.Repository
use unishop_china.Profiles.Service
use unishop_china.Profiles.Service.{
  ProfileUpdate, OwnProfile, is_profile_of, get_by_user_id, active_user, has_required_fields,
  own_result, onboarded, edited, demoted, with_bio, with_name, with_city, requested_city,
  city_is_active, assign,
}
use unishop_china.Profiles.Table.{Complete, IsTable, load-Ensures}
use unishop_china.Profiles.Changes.{changed_lem, Changed}

pub city_lem :
    (id : Option ℕ) (db db' : MarketDb)
    → db.cities ≡ db'.cities
    → Repository.city_by_id id db ≡ Repository.city_by_id id db'
unfolding Repository.city_by_id
city_lem none db db' e = refl
city_lem (some id) db db' e = ap (first? (Repository.city_has_id id)) e

-- What completing the onboarding promises: the profile has the required fields and, if it was not
-- onboarded before, an active city.
abbrev pub CompletionPromise : ℕ → MarketDb → MarketDb → Type 0
CompletionPromise user_id before db =
    (profile : UserProfile) × Changed user_id onboarded profile before db
    × (has_required_fields profile ≡ true)
    × ((not profile.onboarding_completed
          && not (city_is_active (Repository.city_by_id profile.city_id before)))
        ≡ false)

onboarded_key :
    (p : UserProfile)
    → ((onboarded p).user_id ≡ p.user_id) × ((onboarded p).public_handle ≡ p.public_handle)
unfolding onboarded
onboarded_key p = (refl, refl)

onboarded-Complete :
    (p : UserProfile) → has_required_fields p ≡ true → Complete p → Complete (onboarded p)
unfolding onboarded has_required_fields
onboarded-Complete p full c = ((λ e. full), c.1)

pub complete_onboarding-Done :
    (user_id : ℕ) (handles : ℕ → ℕ) (db : MarketDb)
    → IsTable db.profiles
    → Done
        (λ reply db'. CompletionPromise user_id db db')
        db
        (Service.complete_onboarding user_id handles db)
unfolding Service.complete_onboarding
complete_onboarding-Done user_id handles db v = transaction-Done _ db (
    Ensures-load _ db (active_user user_id) _ λ user active.
      Ensures-bind _ db _ _ (load-Ensures user.id handles db v) λ profile mid l.
        Ensures-unless _ mid _ _ λ full. Ensures-unless _ mid _ _ λ open_city.
          Ensures-modify _ mid _ (
            Ensures-get _ _ (
              profile,
              changed_lem user_id onboarded user profile db mid onboarded_key
                  (onboarded-Complete profile (ground arith)) active l,
              ground arith,
              subst (λ c. (not profile.onboarding_completed && not (city_is_active c)) ≡ false)
                  (city_lem profile.city_id mid db (ap (λ (d : MarketDb). d.cities) l.others))
                  open_city,
            )))
