-- ===== src/PhoneVerification/Tests.antt =====
-- Runs of the phone verification on a small table, and the theorems applied to it.
use unishop_china.Prelude.{inr, List, ℕ, ◌+◌, ◌≡◌, refl, true, false, none, some, [], ◌∷◌, arith}
use unishop_china.Prelude.Rows.{All, select, first?, update, count, top?}
use unishop_china.Models.{
  User, AccountStatus, PhoneVerificationCode, Db, Delivery, log_call, seconds, minutes, hours,
}
use unishop_china.Action.{ok, err, Error}
use unishop_china.Repositories.Users
use unishop_china.Repositories.PhoneCodes
use unishop_china.PhoneVerification.Service
use unishop_china.PhoneVerification.Service.{CodeDraw}
use unishop_china.PhoneVerification.Verify.{VerifyPromise, phone_verify-Promise}
use unishop_china.PhoneVerification.Exhaustion.{
  Try, Misses, IsTriable, verify_all, verify_exhausted,
}
use unishop_china.PhoneVerification.Resend.{MayIssue}
use unishop_china.PhoneVerification.Delivered.{resend_delivered, resend_undelivered}

abbrev hash_code : ℕ → ℕ
hash_code code = code + 100

abbrev alice : User
alice = record {
  id = 1;
  email = none;
  phone_number = some 51;
  password_hash = 77;
  phone_verified = false;
  email_verified = false;
  account_status = AccountStatus.active;
  created_at = 5;
}

-- The code 6 of the account.
abbrev code : PhoneVerificationCode
code = record {
  id = 21;
  created_at = 30;
  user_id = 1;
  phone_number = 51;
  code_hash = 106;
  expires_at = 600000030;
  attempts = 0;
  verified_at = none;
}

abbrev db : Db
db = record {
  users = alice ∷ [];
  roles = [];
  refresh_tokens = [];
  email_codes = [];
  reset_codes = [];
  phone_codes = code ∷ [];
  calls = [];
}

abbrev draw : CodeDraw
draw = record { raw_code = 8; code_id = 22; created_at = 60000031 }

abbrev guess : ℕ → Try
guess c = record { time = 40 + c; submitted_code = c }

program : Unit {0}
unfolding Service.expire_unsent_code Service.check_cooldown Service.check_hourly_limit
    Service.may_resend Service.issue_for Service.issue Service.after_issue Service.resend
    Service.check_code Service.judge Service.verify_locked Service.conclude Service.verify
    verify_all log_call seconds minutes hours select first? update count top? Users.get_by_phone
    Users.mark_phone_verified PhoneCodes.new_code PhoneCodes.create_code PhoneCodes.get_by_id
    PhoneCodes.is_newer PhoneCodes.get_latest_for_user PhoneCodes.get_latest_for_phone
    PhoneCodes.created_since PhoneCodes.count_created_since PhoneCodes.increment_attempts
    PhoneCodes.mark_verified PhoneCodes.expire_code
program = tt

-- The wait of a request within the cooldown.
resend_limited :
    Service.resend true true hash_code 51 20000030 draw (λ d. d) Delivery.delivered 0 db
    ≡ (err (Error.verification_code_rate_limited (some 40)), db)
unfolding program
resend_limited = refl

-- The fifth wrong code is told that the attempts are used up.
verify_fifth :
    (Service.verify hash_code 51 40 7
      (verify_all hash_code 51 (guess 1 ∷ guess 2 ∷ guess 3 ∷ guess 4 ∷ []) db)).0
    ≡ err Error.verification_attempts_exceeded
unfolding program
verify_fifth = refl

-- A provider that is not enabled changes nothing.
resend_disabled :
    Service.resend false true hash_code 51 70000030 draw (λ d. d) Delivery.delivered 0 db
    ≡ (ok 600, db)
unfolding program
resend_disabled = refl

triable : IsTriable 51 db alice code
unfolding program
triable = record {
  found = refl;
  active = refl;
  unverified = refl;
  code_found = refl;
  unused = refl;
}

may : MayIssue hash_code 51 60000030 draw db alice
unfolding program
may = record {
  found = refl;
  active = refl;
  unverified = refl;
  cooled = λ latest e. ground arith;
  below_limit = omega arith;
}

abbrev verified : Db
verified = (Service.verify hash_code 51 40 6 db).1

phone_verify-Promise_example :
    VerifyPromise hash_code 51 40 6 db (Service.verify hash_code 51 40 6 db)
phone_verify-Promise_example = phone_verify-Promise hash_code 51 40 6 db

abbrev wrong : List Try
wrong = guess 1 ∷ guess 2 ∷ guess 3 ∷ guess 4 ∷ guess 5 ∷ []

verify_exhausted_example :
    Service.verify hash_code 51 60 6 (verify_all hash_code 51 wrong db)
    ≡ (err Error.verification_attempts_exceeded, verify_all hash_code 51 wrong db)
verify_exhausted_example =
    verify_exhausted hash_code 51 wrong 60 6 db alice code triable misses (omega arith)
      (omega arith)
  where
    misses : All (Misses hash_code 51 code) wrong
    misses = (
      (omega arith, (λ e. omega (arith, e))),
      (
        (omega arith, (λ e. omega (arith, e))),
        (
          (omega arith, (λ e. omega (arith, e))),
          ((omega arith, (λ e. omega (arith, e))), ((omega arith, (λ e. omega (arith, e))), tt)),
        ),
      ),
    )

resend_delivered_example :
    let (r, db') =
      Service.resend true true hash_code 51 60000030 draw (λ d. d) Delivery.delivered 0 db in
    (r ≡ ok 600) × ((Service.verify hash_code 51 60000040 8 db').0 ≡ ok tt)
unfolding program
resend_delivered_example =
    resend_delivered hash_code 51 60000030 draw alice 60000040 0 db may (λ c e. ground arith)
      (omega arith)

resend_undelivered_example :
    let (r, db') =
      Service.resend true true hash_code 51 60000030 draw
        (λ d. d)
        Delivery.undelivered
        60000050
        db in
    (r ≡ err Error.sms_provider_unavailable)
    × (Service.verify hash_code 51 60000060 8 db' ≡ (err Error.verification_code_expired, db'))
unfolding program
resend_undelivered_example =
    resend_undelivered hash_code 51 60000030 draw alice Delivery.undelivered 60000060 60000050 8 db
      (inr refl) may (λ c e. ground arith) (omega arith)
