-- ===== src/EmailVerification/Tests.antt =====
-- Runs of the e-mail verification on a small table, and the theorems applied to it.
use unishop_china.Prelude.{◌+◌, ◌≡◌, refl, true, false, none, some, [], ◌∷◌, arith}
use unishop_china.Prelude.Rows.{select, first?, update, count, top?}
use unishop_china.Models.{
  User, AccountStatus, EmailVerificationCode, Db, Delivery, log_call, seconds, minutes, hours,
}
use unishop_china.Action.{ok, err, Error}
use unishop_china.Repositories.Users
use unishop_china.Repositories.EmailCodes
use unishop_china.EmailVerification.Service
use unishop_china.EmailVerification.Service.{EmailEnv, CodeDraw, Pending}
use unishop_china.EmailVerification.Invariant.{IsValid}
use unishop_china.EmailVerification.History.{Reach, email_history-IsValid}
use unishop_china.EmailVerification.Redeem.{IsRedeemable, VerifyPromise, verify-Promise}
use unishop_china.EmailVerification.Once.{verify_closes}
use unishop_china.EmailVerification.Roundtrip.{MayResend, resend_verifies}

abbrev env : EmailEnv
env = record {
  code_expiry_minutes = 10;
  cooldown_seconds = 60;
  hourly_limit_requests = 5;
  max_attempts = 5;
  hash_code = λ code. code + 100;
  dummy_code_hash = 0;
  provider_enabled = true;
  provider_available = true;
}

abbrev alice : User
alice = record {
  id = 1;
  email = some 31;
  phone_number = none;
  password_hash = 77;
  phone_verified = false;
  email_verified = false;
  account_status = AccountStatus.active;
  created_at = 5;
}

-- The open challenge of the account, with the code 6.
abbrev challenge : EmailVerificationCode
challenge = record {
  id = 21;
  created_at = 30;
  user_id = 1;
  code_hash = 106;
  expires_at = 600000030;
  attempts = 0;
  activated_at = some 31;
  used_at = none;
}

abbrev db : Db
db = record {
  users = alice ∷ [];
  roles = [];
  refresh_tokens = [];
  email_codes = challenge ∷ [];
  reset_codes = [];
  phone_codes = [];
  calls = [];
}

abbrev draw : CodeDraw
draw = record { raw_code = 8; is_valid_code = true; code_id = 22 }

program : Unit {0}
unfolding Service.eligible Service.cancel_pending Service.consume_provider_code
    Service.check_cooldown Service.check_hourly_limit Service.store_challenge Service.issue_for
    Service.issue Service.activate_if Service.after_activation Service.activate_or_cancel
    Service.activate Service.deliver Service.abandon Service.confirm Service.after_issue
    Service.resend Service.stored_hash Service.challenge_available Service.redeem Service.judge
    Service.verify_locked Service.verify log_call seconds minutes hours select first? update count
    top? Users.get_by_id Users.mark_email_verified EmailCodes.new_pending EmailCodes.create_pending
    EmailCodes.is_newer EmailCodes.is_open_for EmailCodes.get_latest_created_for_user
    EmailCodes.get_latest_active_for_user EmailCodes.created_since EmailCodes.count_created_since
    EmailCodes.get_oldest_created_since EmailCodes.is_pending EmailCodes.may_activate
    EmailCodes.activate_pending EmailCodes.cancel_pending EmailCodes.is_other_open
    EmailCodes.invalidate_active_for_user EmailCodes.is_available
    EmailCodes.increment_attempts_if_available EmailCodes.consume_if_available
program = tt

-- Within the cooldown a request raises, with the seconds to wait.
resend_limited :
    Service.resend env 1 20000030 draw (λ d. d) Delivery.delivered db
    ≡ (err (Error.email_verification_rate_limited 40), db)
unfolding program
resend_limited = refl

-- A wrong code costs an attempt.
verify_refuses : Service.verify env 1 40 7 db ≡ (
  err Error.email_verification_invalid,
  record db { email_codes = record challenge { attempts = 1 } ∷ [] },
)
unfolding program
verify_refuses = refl

-- A failed delivery cancels the pending challenge and leaves the open one.
resend_abandons :
    (Service.resend env 1 60000030 draw (λ d. d) Delivery.failed db).1.email_codes
    ≡ record {
      id = 22;
      created_at = 60000030;
      user_id = 1;
      code_hash = 108;
      expires_at = 660000030;
      attempts = 0;
      activated_at = none;
      used_at = some 60000030;
    }
      ∷ challenge
      ∷ []
unfolding program
resend_abandons = refl

abbrev verified : Db
verified = (Service.verify env 1 40 6 db).1

db-IsValid : IsValid 5 db.email_codes
unfolding count EmailCodes.is_open_for
db-IsValid = record {
  unique_id = λ i. ground arith;
  one_open = λ u. ground arith;
  tried = (omega arith, tt);
}

may : MayResend env 1 60000030 draw db alice
unfolding program
may = record {
  found = refl;
  user_eligible = refl;
  provider = refl;
  cooled = λ latest e. ground arith;
  below_limit = omega arith;
  six_digits = refl;
}

able : IsRedeemable env 1 40 db alice challenge
unfolding program
able = record {
  found = refl;
  challenge_found = refl;
  user_eligible = refl;
  unexpired = omega arith;
  tries_left = omega arith;
}

resend_verifies_example :
    let (r, db') = Service.resend env 1 60000030 draw (λ d. d) Delivery.delivered db in
    (r ≡ ok 600) × ((Service.verify env 1 60000040 8 db').0 ≡ ok tt)
unfolding program
resend_verifies_example =
    resend_verifies env 1 60000030 60000040 draw alice db may db-IsValid refl (omega arith)
      (omega arith) (omega arith) (omega arith)

verify-Promise_example : VerifyPromise env 1 40 6 db (Service.verify env 1 40 6 db)
verify-Promise_example = verify-Promise env 1 40 6 db

verify_closes_example :
    (user : User) × (Users.get_by_id 1 verified ≡ some user)
    × (user.email_verified ≡ true)
    × (count (EmailCodes.is_open_for 1) verified.email_codes ≡ 0)
unfolding program
verify_closes_example = verify_closes env 1 40 6 db verified db-IsValid refl

-- A wrong code is tried while the provider does not deliver.
abbrev asked : Db → Db
asked db =
    (Service.resend env 1 60000030 draw (λ d. (Service.verify env 1 40 7 d).1) Delivery.undelivered
      db).1

email_history-IsValid_example : IsValid 5 (asked db).email_codes
unfolding program
email_history-IsValid_example =
    email_history-IsValid env
      (Reach.resends {mid = db} 1 60000030 draw (λ d. (Service.verify env 1 40 7 d).1)
        Delivery.undelivered (λ d. Reach.verifies 1 40 7 Reach.here) refl Reach.here)
      db-IsValid
