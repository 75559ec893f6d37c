-- ===== src/Sessions/Tests.antt =====
-- Runs of the session calls on a small table, and the theorems applied to it.
use unishop_china.Prelude.{
  ◌==◌, not, ℕ, zero, suc, ◌+◌, ◌<◌, ◌≤◌, ◌≡◌, refl, Bool, true, false, none, some, List, [], ◌∷◌,
  arith, is_some,
}
use unishop_china.Prelude.Rows.{select, first?, update, count, top?}
use unishop_china.Models.{RefreshToken, RevocationReason, User, AccountStatus, Db, days}
use unishop_china.Action.{ok, err, Error}
use unishop_china.Repositories.Users
use unishop_china.Repositories.RefreshTokens
use unishop_china.Sessions.Csrf.{validate_csrf_tokens}
use unishop_china.Sessions.Service
use unishop_china.Sessions.Service.{SessionEnv, Draw, AuthCookieMaterial, RefreshAccessResult}
use unishop_china.Sessions.Invariant.{IsValid, live_in}
use unishop_china.Sessions.Refresh.{Promise, rotate_session-Promise, rotate_session_reuse}
use unishop_china.Sessions.Progress.{rotate_session_succeeds}
use unishop_china.Sessions.Login.{create_login_session_limit}
use unishop_china.Sessions.Reach.{here, next, rotates, Reach-IsValid}

abbrev env : SessionEnv
env = record {
  collision_attempts = 3;
  refresh_token_expire_days = 7;
  refresh_session_absolute_days = 30;
  max_active_session_families_per_user = 2;
  hash_refresh_token = λ raw. raw + 100;
  hash_csrf_token = λ raw. raw + 500;
  create_access_token = λ user. user + 9000;
  expires_in_seconds = 900;
}

abbrev alice : User
alice = record {
  id = 1;
  email = some 31;
  phone_number = none;
  password_hash = 77;
  phone_verified = false;
  email_verified = true;
  account_status = AccountStatus.active;
  created_at = 5;
}

-- The live token of family 7: raw token 1, CSRF token 5.
abbrev live : RefreshToken
live = record {
  id = 11;
  created_at = 20;
  user_id = 1;
  token_hash = 101;
  family_id = 7;
  csrf_token_hash = 505;
  expires_at = 1000000000;
  family_expires_at = 5000000000;
  last_used_at = none;
  revoked_at = none;
  revocation_reason = none;
  replaced_by_token_id = none;
}

-- The token that it replaced: raw token 2.
abbrev spent : RefreshToken
spent = record live {
  id = 10;
  created_at = 10;
  token_hash = 102;
  revoked_at = some 20;
  revocation_reason = some RevocationReason.rotated;
  replaced_by_token_id = some 11;
}

-- A session of another user.
abbrev foreign : RefreshToken
foreign = record live { id = 12; token_hash = 104; family_id = 8; user_id = 2 }

abbrev db : Db
db = record {
  users = alice ∷ [];
  roles = [];
  refresh_tokens = live ∷ spent ∷ foreign ∷ [];
  email_codes = [];
  reset_codes = [];
  phone_codes = [];
  calls = [];
}

-- The first round draws the raw token 1, which is taken; the second draws 3.
abbrev draws : ℕ → Draw
draws zero = record { raw_refresh_token = 1; csrf_token = 5; record_id = 20; created_at = 30 }
draws (suc n) = record { raw_refresh_token = 3; csrf_token = 6; record_id = 21; created_at = 30 }

abbrev map_revoked : List RefreshToken → List Bool
map_revoked [] = []
map_revoked (t ∷ rows) = is_some t.revoked_at ∷ map_revoked rows

program : Unit {0}
unfolding Service.create_attempts Service.try_draw Service.create_token_record Service.revoke_oldest
    Service.create_login_session Service.rotate_session Service.logout_current Service.logout_all
    Service.rotate_locked validate_csrf_tokens days select first? update count top? Users.get_by_id
    RefreshTokens.get_for_update_by_hash RefreshTokens.count_active_families
    RefreshTokens.active_families RefreshTokens.distinct RefreshTokens.remove
    RefreshTokens.is_active_for RefreshTokens.is_older RefreshTokens.get_oldest_active_family
    RefreshTokens.revoke_family RefreshTokens.in_family RefreshTokens.mark_token_rotated
    RefreshTokens.rotated_to RefreshTokens.revoke_all_for_user RefreshTokens.is_unrevoked_of
    RefreshTokens.revoked
program = tt

abbrev rotated_row : RefreshToken
rotated_row = record live {
  last_used_at = some 40;
  revoked_at = some 40;
  revocation_reason = some RevocationReason.rotated;
  replaced_by_token_id = some 21;
}

abbrev replacement : RefreshToken
replacement = record live {
  id = 21;
  created_at = 30;
  token_hash = 103;
  csrf_token_hash = 506;
  expires_at = 5000000000;
}

abbrev added : Db
added = record db { refresh_tokens = replacement ∷ live ∷ spent ∷ foreign ∷ [] }

-- The first round collides; the new row is of the second.
rotate_live_token :
    (Service.rotate_session env 1 (some 5) (some 5) 40 draws db).1.refresh_tokens
    ≡ replacement ∷ rotated_row ∷ spent ∷ foreign ∷ []
unfolding program
rotate_live_token = refl

-- The raw token 2 was rotated before: its family is revoked, the foreign one is not.
rotate_spent_token :
    map_revoked (Service.rotate_session env 2 (some 5) (some 5) 40 draws db).1.refresh_tokens
    ≡ true ∷ true ∷ false ∷ []
unfolding program
rotate_spent_token = refl

db-IsValid : IsValid db.refresh_tokens
unfolding count
db-IsValid = record {
  unique_id = λ i. ground arith;
  unique_hash = λ h. ground arith;
  one_live = λ f. ground arith;
  within_family = omega arith;
}

abbrev result : RefreshAccessResult
result = record {
  access_token = 9001;
  expires_in = 900;
  cookies = record { refresh_token = 3; csrf_token = 6; max_age = 4999 };
}

abbrev after_rotation : Db
after_rotation = record db { refresh_tokens = replacement ∷ rotated_row ∷ spent ∷ foreign ∷ [] }

rotate_session-Promise_example :
    Promise env 1
      (some 5)
      (some 5)
      40
      db
      (Service.rotate_session env 1 (some 5) (some 5) 40 draws db)
rotate_session-Promise_example = rotate_session-Promise env 1 (some 5) (some 5) 40 draws db

rotate_session_reuse_example :
    let (r, db') = Service.rotate_session env 2 (some 5) (some 5) 40 draws db in
    (r ≡ err Error.session_refresh)
    × (count (live_in 7) db'.refresh_tokens ≡ 0)
    × (select (λ t. not (t.family_id == 7)) db'.refresh_tokens
        ≡ select (λ t. not (t.family_id == 7)) db.refresh_tokens)
    × (record db' { refresh_tokens = db.refresh_tokens } ≡ db)
unfolding program
rotate_session_reuse_example =
    rotate_session_reuse env 2 (some 5) (some 5) 40 draws db spent refl refl refl refl

rotate_session_succeeds_example :
    Service.rotate_session env 1 (some 5) (some 5) 40 draws db
    ≡ (ok result, RefreshTokens.mark_token_rotated live 21 40 added)
unfolding program
rotate_session_succeeds_example =
    rotate_session_succeeds env 1 (some 5) (some 5) 40 draws db live alice 1 added refl refl refl
      refl (omega arith) (omega arith) refl refl (omega arith) (omega arith) below refl
  where
    below :
        (j : ℕ)
        → j < 1
        → Service.try_draw env 1 7 5000000000 5000000000 40 (draws (0 + j)) db ≡ none
    below zero h = refl
    below (suc j) h = absurd (omega arith)

-- Two families are active, so the third login revokes the oldest of them.
abbrev crowded : Db
crowded = record db { refresh_tokens = record foreign { user_id = 1; created_at = 30 } ∷ live ∷ [] }

create_login_session_limit_example :
    let db' = (Service.create_login_session env 1 40 9 draws crowded).1 in
    (RefreshTokens.count_active_families 1 40 db' ≤ 2)
    × (RefreshTokens.count_active_families 1 40 crowded < 2
        → (t : RefreshToken) × (db'.refresh_tokens ≡ t ∷ crowded.refresh_tokens))
unfolding program
create_login_session_limit_example =
    create_login_session_limit env 1 40 9 draws crowded
      (record { refresh_token = 3; csrf_token = 6; max_age = 604800 }) _ (omega arith) refl

Reach-IsValid_example : IsValid after_rotation.refresh_tokens
unfolding program
Reach-IsValid_example =
    Reach-IsValid env db after_rotation db-IsValid
      (next here (rotates 1 (some 5) (some 5) 40 draws refl))
