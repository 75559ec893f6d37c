-- ===== src/Passwords/Tests.antt =====
-- Runs of the password services on a small table, and the theorems applied to it.
use unishop_china.Prelude.{
  not, inr, ℕ, ◌+◌, ◌≤◌, ◌≡◌, refl, Bool, true, false, none, some, [], ◌∷◌, arith, ◌==◌,
}
use unishop_china.Prelude.Rows.{select, first?, update, count, top?}
use unishop_china.Models.{
  User, AccountStatus, PasswordResetCode, RefreshToken, IdentifierKind, Db, Delivery, log_call,
  seconds, minutes, hours,
}
use unishop_china.Action.{Result, ok, err, Error}
use unishop_china.Repositories.Users
use unishop_china.Repositories.ResetCodes
use unishop_china.Repositories.RefreshTokens
use unishop_china.Passwords.Service
use unishop_china.Passwords.Service.{ResetEnv, ResetDraw, PendingReset}
use unishop_china.Passwords.Change.{
  replace_password, change_for, change_password, ChangePromise, change_password-Promise,
}
use unishop_china.Passwords.Request.{MayIssue}
use unishop_china.Passwords.Unusable.{request_reset_unusable}
use unishop_china.Passwords.Completion.{ResetPromise, reset_password-Promise}
use unishop_china.Passwords.Spent.{reset_password_once, reset_password_ends}
use unishop_china.Passwords.Roundtrip.{request_reset_redeems}

abbrev env : ResetEnv
env = record {
  code_expiry_minutes = 15;
  cooldown_seconds = 60;
  hourly_limit_requests = 5;
  max_attempts = 5;
  hash_code = λ code. code + 100;
  hash_password = λ password. password + 1000;
  dummy_user_id = 9;
  dummy_code_hash = 0;
  provider_enabled = true;
  provider_available = true;
}

abbrev verifier : ℕ → ℕ → Bool
verifier password hash = password + 1000 == hash

abbrev alice : User
alice = record {
  id = 1;
  email = some 31;
  phone_number = none;
  password_hash = 1077;
  phone_verified = false;
  email_verified = true;
  account_status = AccountStatus.active;
  created_at = 5;
}

abbrev session : RefreshToken
session = record {
  id = 11;
  created_at = 20;
  user_id = 1;
  token_hash = 101;
  family_id = 7;
  csrf_token_hash = 505;
  expires_at = 1000000000;
  family_expires_at = 5000000000;
  last_used_at = none;
  revoked_at = none;
  revocation_reason = none;
  replaced_by_token_id = none;
}

-- The usable code 6 of the account.
abbrev usable : PasswordResetCode
usable = record {
  id = 21;
  created_at = 30;
  user_id = 1;
  code_hash = 106;
  expires_at = 900000030;
  used_at = none;
  attempts = 0;
}

abbrev db : Db
db = record {
  users = alice ∷ [];
  roles = [];
  refresh_tokens = session ∷ [];
  email_codes = [];
  reset_codes = usable ∷ [];
  phone_codes = [];
  calls = [];
}

abbrev draw : ResetDraw
draw = record { raw_code = 8; code_id = 22 }

program : Unit {0}
unfolding Service.is_active_account Service.may_issue Service.store_pending Service.may_request
    Service.workload_user_id Service.issue_if Service.issue Service.may_activate Service.activate
    Service.after_issue Service.request_reset Service.stored_hash Service.challenge_is_available
    Service.redeem Service.judge Service.reset_locked Service.reset_password replace_password
    change_for change_password log_call seconds minutes hours select first? update count top?
    Users.find Users.get_by_id Users.get_by_email Users.get_by_phone Users.update_password_hash
    ResetCodes.is_newer ResetCodes.get_latest_for_user ResetCodes.count_created_since
    ResetCodes.is_active_for ResetCodes.invalidate_active_for_user ResetCodes.new_pending
    ResetCodes.create_pending ResetCodes.may_activate ResetCodes.activate_pending
    ResetCodes.is_available ResetCodes.increment_attempts_if_available
    ResetCodes.consume_if_available ResetCodes.is_other_unused
    ResetCodes.invalidate_other_active_for_user RefreshTokens.is_unrevoked_of RefreshTokens.revoked
    RefreshTokens.revoke_all_for_user
program = tt

abbrev reset : Result (Unit {0}) × Db
reset = Service.reset_password env IdentifierKind.by_email 31 40 6 50 db

reset_accepts : reset.0 ≡ ok tt
unfolding program
reset_accepts = refl

-- A wrong code costs an attempt.
reset_refuses : Service.reset_password env IdentifierKind.by_email 31 40 7 50 db ≡ (
  err Error.invalid_password_reset,
  record db { reset_codes = record usable { attempts = 1 } ∷ [] },
)
unfolding program
reset_refuses = refl

-- An unconfirmed request retires the usable code, and its own code is not usable.
request_unconfirmed :
    (Service.request_reset env IdentifierKind.by_email 31 60000030 draw
      (λ d. d)
      Delivery.failed
      db).1.reset_codes
    ≡ record {
      id = 22;
      created_at = 60000030;
      user_id = 1;
      code_hash = 108;
      expires_at = 960000030;
      used_at = some 60000030;
      attempts = 0;
    }
      ∷ record usable { used_at = some 60000030 }
      ∷ []
unfolding program
request_unconfirmed = refl

change_password-Promise_example :
    ChangePromise verifier env.hash_password 1 40 77 50 db
      (change_password verifier env.hash_password 1 40 77 50 db)
change_password-Promise_example = change_password-Promise verifier env.hash_password 1 40 77 50 db

reset_password-Promise_example : ResetPromise env IdentifierKind.by_email 31 40 6 50 db reset
reset_password-Promise_example = reset_password-Promise env IdentifierKind.by_email 31 40 6 50 db

reset_password_once_example :
    Service.reset_password env IdentifierKind.by_email 31 45 6 51 reset.1
    ≡ (err Error.invalid_password_reset, reset.1)
unfolding program
reset_password_once_example =
    reset_password_once env IdentifierKind.by_email 31 40 45 6 6 50 51 db reset.1 refl

reset_password_ends_example :
    (user : User) × (Users.find IdentifierKind.by_email 31 reset.1 ≡ some user)
    × (user.password_hash ≡ 1050)
    × (count (RefreshTokens.is_unrevoked_of user.id) reset.1.refresh_tokens ≡ 0)
    × (select (λ t. not (t.user_id == user.id)) reset.1.refresh_tokens
        ≡ select (λ t. not (t.user_id == user.id)) db.refresh_tokens)
unfolding program
reset_password_ends_example =
    reset_password_ends env IdentifierKind.by_email 31 40 6 50 db reset.1 refl

-- The password of the account is another when the provider confirms.
abbrev changed : Db → Db
changed d = record d { users = record alice { password_hash = 1050 } ∷ [] }

request_reset_unusable_example :
    count
      (ResetCodes.is_active_for 1 60000040)
      (Service.request_reset env IdentifierKind.by_email 31 60000030 draw changed Delivery.delivered
        db).1.reset_codes
    ≤ 1
unfolding program
request_reset_unusable_example =
    request_reset_unusable env IdentifierKind.by_email 31 60000030 draw changed Delivery.delivered 1
      60000040 db (λ d. omega arith) (inr (λ user current d found now. ground arith))

may : MayIssue env IdentifierKind.by_email 31 60000030 draw db alice
unfolding program
may = record {
  found = refl;
  active = refl;
  provider = refl;
  cooled = λ latest e. ground arith;
  below_limit = omega arith;
}

request_reset_redeems_example :
    (Service.reset_password env IdentifierKind.by_email 31 60000040 8 50
      (Service.request_reset env IdentifierKind.by_email 31 60000030 draw
        (λ d. d)
        Delivery.delivered
        db).1).0
    ≡ ok tt
unfolding program
request_reset_redeems_example =
    request_reset_redeems env IdentifierKind.by_email 31 60000030 60000040 draw 50 alice db may refl
      refl (omega arith) (omega arith) (omega arith)
