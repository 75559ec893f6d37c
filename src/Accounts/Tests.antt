-- ===== src/Accounts/Tests.antt =====
-- Runs of the login and the registration on a small table, and the theorems applied to it.
use unishop_china.Prelude.{ℕ, ◌+◌, ◌≡◌, refl, Bool, true, false, none, some, [], ◌∷◌, arith, ◌==◌}
use unishop_china.Prelude.Rows.{select, first?, update, count, top?}
use unishop_china.Models.{
  User, UserRoleType, AccountStatus, IdentifierKind, Db, Delivery, log_call, days, seconds, minutes,
}
use unishop_china.Action.{Result, err, Error, transaction}
use unishop_china.Repositories.Users
use unishop_china.Repositories.PhoneCodes
use unishop_china.Repositories.RefreshTokens
use unishop_china.Sessions.Service.{SessionEnv, Draw}
use unishop_china.Sessions.Service
use unishop_china.PhoneVerification.Service.{expire_unsent_code}
use unishop_china.Accounts.Service as Accounts
use unishop_china.Accounts.Service.{
  RegisterRequest, RegisterDraw, RegistrationResult, Authorization,
}
use unishop_china.Accounts.Registration.{IsValid, new_account}
use unishop_china.Accounts.Unique.{register-IsValid, register_authenticates}

abbrev env : SessionEnv
env = record {
  collision_attempts = 3;
  refresh_token_expire_days = 7;
  refresh_session_absolute_days = 30;
  max_active_session_families_per_user = 2;
  hash_refresh_token = λ raw. raw + 100;
  hash_csrf_token = λ raw. raw + 500;
  create_access_token = λ user. user + 9000;
  expires_in_seconds = 900;
}

abbrev hash_password : ℕ → ℕ
hash_password password = password + 1000

abbrev hash_code : ℕ → ℕ
hash_code code = code + 100

abbrev verifier : ℕ → ℕ → Bool
verifier password hash = password + 1000 == hash

abbrev alice : User
alice = record {
  id = 1;
  email = some 31;
  phone_number = none;
  password_hash = 1077;
  phone_verified = false;
  email_verified = true;
  account_status = AccountStatus.active;
  created_at = 5;
}

abbrev db : Db
db = record {
  users = alice ∷ [];
  roles = record { user_id = 1; role = UserRoleType.admin } ∷ [];
  refresh_tokens = [];
  email_codes = [];
  reset_codes = [];
  phone_codes = [];
  calls = [];
}

abbrev draws : ℕ → Draw
draws n = record { raw_refresh_token = 3; csrf_token = 6; record_id = 21; created_at = 30 }

abbrev request : RegisterRequest
request = record { email = some 32; phone_number = some 52; password = 88 }

abbrev draw : RegisterDraw
draw = record {
  user_id = 2;
  created_at = 40;
  code = record { raw_code = 8; code_id = 22; created_at = 41 };
}

program : Unit {0}
unfolding Accounts.safe_user Accounts.load_current_user Accounts.verified_hash
    Accounts.complete_login Accounts.check_credentials Accounts.authenticate Accounts.check_email
    Accounts.check_phone Accounts.check_duplicates Accounts.safe_integrity_conflict
    Accounts.create_user Accounts.registration_result Accounts.registered Accounts.store_code
    Accounts.register_locked Accounts.send_code Accounts.register Accounts.lock_active_user
    Accounts.is_admin_row Accounts.require_db_admin expire_unsent_code Service.create_attempts
    Service.try_draw Service.create_token_record Service.revoke_oldest Service.create_login_session
    log_call days seconds minutes select first? update count top? Users.find Users.get_by_id
    Users.get_by_email Users.get_by_phone Users.new_user Users.is_taken Users.create
    Users.create_role Users.roles_of Users.list_roles_for_user PhoneCodes.new_code
    PhoneCodes.create_code PhoneCodes.get_by_id PhoneCodes.expire_code
    RefreshTokens.count_active_families RefreshTokens.active_families RefreshTokens.distinct
    RefreshTokens.remove RefreshTokens.is_active_for
program = tt

abbrev registered : Result RegistrationResult × Db
registered =
    Accounts.register hash_password hash_code request 45 draw (λ d. d) Delivery.delivered 50 db

-- A used e-mail address is refused.
register_duplicate :
    Accounts.register hash_password hash_code
      (record request { email = some 31 })
      45
      draw
      (λ d. d)
      Delivery.delivered
      50
      db
    ≡ (err Error.email_already_registered, db)
unfolding program
register_duplicate = refl

-- The new account has the buyer role, and is not an administrator.
register_roles : Users.list_roles_for_user 2 registered.1 ≡ UserRoleType.buyer ∷ []
unfolding program
register_roles = refl

register_denied : Accounts.require_db_admin 2 registered.1 ≡ Authorization.denied 403
unfolding program
register_denied = refl

db-IsValid : IsValid db.users
unfolding count
db-IsValid = record {
  unique_id = λ i. ground arith;
  unique_email = λ v. ground arith;
  unique_phone = λ v. ground arith;
}

register-IsValid_example : IsValid registered.1.users
register-IsValid_example =
    register-IsValid hash_password hash_code request 45 draw Delivery.delivered 50 db db-IsValid

register_authenticates_example :
    Accounts.authenticate env verifier 0 IdentifierKind.by_phone 52 88 60 9 draws registered.1
    ≡ transaction
        (Accounts.complete_login env verifier 0
          (new_account hash_password hash_code request 45 draw)
          60
          9
          draws)
        registered.1
unfolding program
register_authenticates_example =
    register_authenticates hash_password hash_code request 45 draw Delivery.delivered 50 db env
      verifier 0 IdentifierKind.by_phone 52 60 9 draws _ registered.1 refl refl refl
