-- ===== src/Profiles/Changes.antt =====
-- What the calls on the own profile promise.
use unishop_china.Prelude.{
  ℕ, ◌≡◌, ◌∙◌, refl, sym, subst, ap, true, Option, none, some, arith, Bool-cases, Option-cases, inl,
  inr, is_some,
}
use unishop_china.Prelude.Rows.{first?, update}
use unishop_china.Prelude.Rows.Counting.{first?-update, first?-holds}
use unishop_china.Models.{User, is_active}
use unishop_china.Repositories.Users
use unishop_china.Market.Tables.{City, UserProfile, MarketDb}
use unishop_china.Market.Call.{Done, Ensures}
use unishop_china.Market.Rules.{
  Ensures-get, Ensures-load, Ensures-pure, Ensures-check, Ensures-bind, Ensures-modify,
  transaction-Done,
}
use unishop_china.Catalog.Repository
use unishop_china.Catalog.Cities.{active_city, resolve_active_city}
use unishop_china.Profiles.Service
use unishop_china.Profiles.Service.{
  ProfileUpdate, OwnProfile, is_profile_of, get_by_user_id, active_user, has_required_fields,
  own_result, onboarded, edited, demoted, with_bio, with_name, with_city, requested_city,
  city_is_active, assign,
}
use unishop_china.Profiles.Table.{Complete, IsTable, Loaded, load-Ensures, assigned-IsTable}

pub active_id :
    (user_id : ℕ) (user : User) (db : MarketDb)
    → active_user user_id db ≡ some user
    → (user.id ≡ user_id)
      × (Users.get_by_id user_id db.sellers.accounts ≡ some user)
      × (is_active user.account_status ≡ true)
unfolding active_user Users.get_by_id
active_id user_id user db e =
    elim (Option-cases (first? (Users.has_id user_id) db.sellers.accounts.users)) [
      | inl missing ↦ absurd (ground arith)
      | inr (u, found) ↦
          let own = first?-holds (Users.has_id user_id) db.sellers.accounts.users u found in
          elim (Bool-cases (is_active u.account_status)) [
            | inl active ↦
                let same : u ≡ user = ground arith in
                (
                  subst (λ (w : User). w.id ≡ user_id) same (ground arith),
                  found ∙ ap some same,
                  subst (λ (w : User). is_active w.account_status ≡ true) same active,
                )
            | inr closed ↦ absurd (ground arith)
          ]
    ]

assign-found :
    (user_id : ℕ) (f : UserProfile → UserProfile) (profile : UserProfile) (db : MarketDb)
    → ((p : UserProfile) → (f p).user_id ≡ p.user_id)
    → get_by_user_id user_id db ≡ some profile
    → get_by_user_id user_id (assign user_id f db) ≡ some (f profile)
unfolding get_by_user_id assign
assign-found user_id f profile db same e =
    first?-update (is_profile_of user_id) (is_profile_of user_id) f db.profiles profile
      (λ x. ground (arith, same x)) e
    ∙ ground (arith, first?-holds (is_profile_of user_id) db.profiles profile e)

pub found_lem :
    (user_id : ℕ) (profile : UserProfile) (db : MarketDb)
    → get_by_user_id user_id db ≡ some profile
    → first? (is_profile_of user_id) db.profiles ≡ some profile
unfolding get_by_user_id
found_lem user_id profile db e = e

pub owner_lem :
    (user_id : ℕ) (profile : UserProfile) (db : MarketDb)
    → get_by_user_id user_id db ≡ some profile
    → profile.user_id ≡ user_id
unfolding get_by_user_id
owner_lem user_id profile db e =
    ground (arith, first?-holds (is_profile_of user_id) db.profiles profile e)

-- The profile was loaded or created, and one assignment was made to it.
pub record Changed (user_id : ℕ) (f : UserProfile → UserProfile) (profile : UserProfile)
    (before db : MarketDb) : Type 0 where
  pub user : User
  pub active : active_user user_id before ≡ some user
  pub stored : get_by_user_id user_id db ≡ some (f profile)
  pub table : IsTable db.profiles
  pub others : db ≡ record before { profiles = db.profiles }

pub changed_lem :
    (user_id : ℕ) (f : UserProfile → UserProfile) (user : User) (profile : UserProfile)
    (before db : MarketDb)
    → ((p : UserProfile) → ((f p).user_id ≡ p.user_id) × ((f p).public_handle ≡ p.public_handle))
    → (Complete profile → Complete (f profile))
    → active_user user_id before ≡ some user
    → Loaded user.id before profile db
    → Changed user_id f profile before (assign user.id f db)
unfolding assign
changed_lem user_id f user profile before db same keep active l =
    let key = (active_id user_id user before active).0 in
    let owner : profile.user_id ≡ user.id = owner_lem user.id profile db l.found in
    record {
      user = user;
      active = active;
      stored =
          subst (λ u. get_by_user_id u (assign user.id f db) ≡ some (f profile)) key
            (assign-found user.id f profile db (λ p. (same p).0) l.found);
      table =
          subst (λ u. IsTable (update (is_profile_of u) f db.profiles)) owner
            (assigned-IsTable f profile db.profiles same keep
              (subst (λ u. first? (is_profile_of u) db.profiles ≡ some profile) (sym owner)
                (found_lem user.id profile db l.found))
              l.table);
      others =
          ap
            (λ (d : MarketDb). record d { profiles = update (is_profile_of user.id) f db.profiles })
            l.others;
    }

edited_key :
    (request : ProfileUpdate) (city : Option (Option City)) (p : UserProfile)
    → ((edited request city p).user_id ≡ p.user_id)
      × ((edited request city p).public_handle ≡ p.public_handle)
unfolding edited demoted with_bio with_name with_city
edited_key request city p = ground arith

demoted-Complete : (p : UserProfile) → is_some p.city ≡ is_some p.city_id → Complete (demoted p)
unfolding demoted
demoted-Complete p c = elim (Bool-cases (has_required_fields p)) [
  | inl full ↦ rw full ((λ e. full), c)
  | inr partial ↦ rw partial ((λ e. absurd (ground arith)), c)
]

city-paired :
    (request : ProfileUpdate) (city : Option (Option City)) (p : UserProfile)
    → is_some p.city ≡ is_some p.city_id
    → let q = with_bio request.bio (with_name request.display_name (with_city city p)) in
      is_some q.city ≡ is_some q.city_id
unfolding with_bio with_name with_city
city-paired request city p c = ground arith

edited-Complete :
    (request : ProfileUpdate) (city : Option (Option City)) (p : UserProfile)
    → Complete p
    → Complete (edited request city p)
unfolding edited
edited-Complete request city p c = demoted-Complete _ (city-paired request city p c.1)

-- The city that a request names was active.
abbrev pub IsRequested : Option (Option ℕ) → MarketDb → Option (Option City) → Type 0
IsRequested none db city = city ≡ none
IsRequested (some none) db city = city ≡ some none
IsRequested (some (some slug)) db city =
    (c : City) × (active_city slug db ≡ some c) × (city ≡ some (some c))

IsRequested-Ensures :
    (wanted : Option (Option ℕ)) (db : MarketDb)
    → Ensures (λ city db'. (db' ≡ db) × IsRequested wanted db city) (requested_city wanted db)
unfolding requested_city resolve_active_city
IsRequested-Ensures none db = Ensures-pure _ db (refl, refl)
IsRequested-Ensures (some none) db = Ensures-pure _ db (refl, refl)
IsRequested-Ensures (some (some slug)) db =
    Ensures-load _ db (active_city slug) _
      λ city found. Ensures-pure _ db (refl, (city, found, refl))

IsRequested-before :
    (wanted : Option (Option ℕ)) (city : Option (Option City)) (mid before : MarketDb)
    → mid.cities ≡ before.cities
    → IsRequested wanted mid city
    → IsRequested wanted before city
unfolding active_city Repository.get_city
IsRequested-before none city mid before same n = n
IsRequested-before (some none) city mid before same n = n
IsRequested-before (some (some slug)) city mid before same (c, found, e) =
    (c, ground (arith, same, found), e)

-- What an update promises: the loaded or new profile has the edits of the request.
abbrev pub UpdatePromise : ℕ → ProfileUpdate → MarketDb → MarketDb → Type 0
UpdatePromise user_id request before db =
    (city : Option (Option City)) × (profile : UserProfile) × IsRequested request.city before city
    × Changed user_id (edited request city) profile before db

pub update_own-Done :
    (user_id : ℕ) (handles : ℕ → ℕ) (request : ProfileUpdate) (db : MarketDb)
    → IsTable db.profiles
    → Done
        (λ reply db'. UpdatePromise user_id request db db')
        db
        (Service.update_own user_id handles request db)
unfolding Service.update_own
update_own-Done user_id handles request db v = transaction-Done _ db (
    Ensures-load _ db (active_user user_id) _ λ user active.
      Ensures-bind _ db _ _ (load-Ensures user.id handles db v) λ profile mid l.
        Ensures-check _ mid _ _ (IsRequested-Ensures request.city mid) λ city named.
          Ensures-modify _ mid _ (
            Ensures-get _ _ (
              city,
              profile,
              IsRequested-before request.city city mid db (ap (λ (d : MarketDb). d.cities) l.others)
                  named,
              changed_lem user_id (edited request city) user profile db mid
                  (edited_key request city) (edited-Complete request city profile) active l,
            )))
