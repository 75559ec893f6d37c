-- ===== src/Profiles/Table.antt =====
-- The profiles stay well formed, and what loading or creating a profile gives.
use unishop_china.Prelude.{
  ℕ, zero, suc, ◌+◌, ◌≤◌, ◌≡◌, refl, true, false, Bool, Option, none, some, List, ◌∷◌, arith,
  is_some, ==_refl,
}
use unishop_china.Prelude.Rows.{first?, update, count, All}
use unishop_china.Prelude.Rows.Counting.{count-update_eq, count-none}
use unishop_china.Prelude.Rows.Unique.{first?-Only, All-update-Only}
use unishop_china.Market.Tables.{UserProfile, MarketDb}
use unishop_china.Market.Call.{Ensures}
use unishop_china.Market.Rules.{
  Ensures-pure, Ensures-fail, Ensures-gets, Ensures-unless, Ensures-modify,
}
use unishop_china.Profiles.Service
use unishop_china.Profiles.Service.{
  is_profile_of, has_handle, get_by_user_id, new_profile, insert_or_retry, create_attempts,
  or_create, profile_for_update_or_create, has_required_fields, add_profile,
}

-- An onboarded profile has what onboarding requires, and the two city columns go together.
abbrev pub Complete : UserProfile → Type 0
Complete p =
    (p.onboarding_completed ≡ true → has_required_fields p ≡ true)
    × (is_some p.city ≡ is_some p.city_id)

pub record IsTable (rows : List UserProfile) : Type 0 where
  pub unique_user : (u : ℕ) → count (is_profile_of u) rows ≤ 1
  pub unique_handle : (h : ℕ) → count (has_handle h) rows ≤ 1
  pub complete : All Complete rows

pub added-IsTable :
    (user_id handle : ℕ) (rows : List UserProfile)
    → first? (is_profile_of user_id) rows ≡ none
    → first? (has_handle handle) rows ≡ none
    → IsTable rows
    → IsTable (new_profile user_id handle ∷ rows)
unfolding count new_profile
added-IsTable user_id handle rows no_user no_handle v = record {
  unique_user =
      λ u. ground (arith, v.unique_user u, count-none (is_profile_of user_id) rows no_user);
  unique_handle =
      λ h. ground (arith, v.unique_handle h, count-none (has_handle handle) rows no_handle);
  complete = (((λ e. absurd (ground arith)), refl), v.complete);
}

pub assigned-IsTable :
    (f : UserProfile → UserProfile) (profile : UserProfile) (rows : List UserProfile)
    → ((p : UserProfile) → ((f p).user_id ≡ p.user_id) × ((f p).public_handle ≡ p.public_handle))
    → (Complete profile → Complete (f profile))
    → first? (is_profile_of profile.user_id) rows ≡ some profile
    → IsTable rows
    → IsTable (update (is_profile_of profile.user_id) f rows)
assigned-IsTable f profile rows same keep e v = record {
  unique_user = λ u.
      rw
        (count-update_eq (is_profile_of u) (is_profile_of profile.user_id) f rows
          (λ x. ground (arith, same x)))
        (v.unique_user u);
  unique_handle = λ h.
      rw
        (count-update_eq (has_handle h) (is_profile_of profile.user_id) f rows
          (λ x. ground (arith, same x)))
        (v.unique_handle h);
  complete =
      All-update-Only Complete (is_profile_of profile.user_id) f profile rows
        (first?-Only (is_profile_of profile.user_id) (is_profile_of profile.user_id) rows profile
          (v.unique_user profile.user_id) e (==_refl profile.user_id))
        keep v.complete;
}

-- The profile is a row of the table, and only the profiles may have changed.
pub record Loaded (user_id : ℕ) (before : MarketDb) (profile : UserProfile) (db : MarketDb)
    : Type 0 where
  pub found : get_by_user_id user_id db ≡ some profile
  pub table : IsTable db.profiles
  pub others : db ≡ record before { profiles = db.profiles }

create-Ensures :
    (n user_id : ℕ) (handles : ℕ → ℕ) (round : ℕ) (db : MarketDb)
    → IsTable db.profiles
    → Ensures (Loaded user_id db) (create_attempts n user_id handles round db)
unfolding create_attempts
create-Ensures zero user_id handles round db v = Ensures-fail _ db
create-Ensures (suc n) user_id handles round db v =
    Ensures-unless _ db (λ d. is_some (get_by_user_id user_id d)) _
      λ fresh. Ensures-gets _ db _ (
        go (is_some (first? (has_handle (handles round)) db.profiles)) refl fresh
          (create-Ensures n user_id handles (round + 1) db v))
  where
    go :
        (taken : Bool)
        → is_some (first? (has_handle (handles round)) db.profiles) ≡ taken
        → is_some (get_by_user_id user_id db) ≡ false
        → Ensures (Loaded user_id db) (create_attempts n user_id handles (round + 1) db)
        → Ensures (Loaded user_id db) (
            insert_or_retry taken
              (new_profile user_id (handles round))
              (create_attempts n user_id handles (round + 1))
              db)
    go true e fresh rest = unfold insert_or_retry in rest
    go false e fresh rest =
        unfold insert_or_retry add_profile get_by_user_id first? new_profile in
        Ensures-modify _ db _ (
          Ensures-pure _ _ (record {
            found = ground arith;
            table =
                added-IsTable user_id (handles round) db.profiles (ground arith) (ground arith) v;
            others = refl;
          }))

pub load-Ensures :
    (user_id : ℕ) (handles : ℕ → ℕ) (db : MarketDb)
    → IsTable db.profiles
    → Ensures (Loaded user_id db) (profile_for_update_or_create user_id handles db)
unfolding profile_for_update_or_create
load-Ensures user_id handles db v = Ensures-gets _ db _ (go (get_by_user_id user_id db) refl)
  where
    go :
        (o : Option UserProfile)
        → get_by_user_id user_id db ≡ o
        → Ensures (Loaded user_id db) (or_create user_id handles o db)
    go none e = unfold or_create Service.create in create-Ensures 8 user_id handles 0 db v
    go (some profile) e =
        unfold or_create in Ensures-pure profile db (record { found = e; table = v; others = refl })
