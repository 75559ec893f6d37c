-- ===== src/PhoneVerification/Service.antt =====
-- `PhoneVerificationService`, method by method. `hash_code` is the keyed digest of a code with its
-- secret.
use unishop_china.Prelude.{
  ℕ, ◌+◌, ◌-◌, ◌/◌, max, Bool, true, false, not, ◌&&◌, Option, none, some, leb, ltb, ◌==◌,
  if◌then◌else◌, is_some,
}
use unishop_china.Models.{
  User, is_active, PhoneVerificationCode, Db, Delivery, is_delivered, ProviderCall, log_call,
  seconds, minutes, hours,
}
use unishop_china.Action.{
  Result, ok, err, Error, Action, pure, raise, gets, lift, modify, raise_if, transaction, ◌>>=◌,
  ◌>>◌,
}
use unishop_china.Repositories.Users
use unishop_china.Repositories.PhoneCodes

-- What the code generator, the key generator and the column's default time give.
pub record CodeDraw : Type 0 where
  pub raw_code : ℕ
  pub code_id : ℕ
  pub created_at : ℕ

-- `_expire_unsent_code`, at the time that its `now_provider` gives.
unfoldable pub expire_unsent_code : ℕ → ℕ → Db → Db
expire_unsent_code code_id now db = elim (PhoneCodes.get_by_id code_id db) [
  | none ↦ db
  | some code ↦ PhoneCodes.expire_code code (now - seconds 1) db
]

-- The cooldown since the latest code of the number. `int` drops the fraction of an age, also of a
-- negative one.
unfoldable pub check_cooldown : ℕ → Option PhoneVerificationCode → Result (Unit {0})
check_cooldown now none = ok tt
check_cooldown now (some latest) =
    if ltb now (latest.created_at + seconds 60)
    then err (
        Error.verification_code_rate_limited (
          some (
            max 1
              ((60 + (latest.created_at - now) / 1000000) - (now - latest.created_at) / 1000000))))
    else ok tt

unfoldable pub check_hourly_limit : ℕ → ℕ → Db → Result (Unit {0})
check_hourly_limit phone_number now db =
    if leb 5 (PhoneCodes.count_created_since phone_number (now - hours 1) db)
    then err (Error.verification_code_rate_limited none)
    else ok tt

-- The user to whom `resend` sends a code.
unfoldable pub may_resend : User → Bool
may_resend user = is_active user.account_status && not user.phone_verified

module _ (hash_code : ℕ → ℕ) where
  -- The first transaction of `resend` for such a user; whether a code was stored.
  unfoldable pub issue_for : User → ℕ → ℕ → CodeDraw → Action Bool
  unfolding PhoneCodes.new_code
  issue_for user phone_number now draw = do
    lift (check_cooldown now (← gets (PhoneCodes.get_latest_for_phone phone_number)))
    lift (← gets (check_hourly_limit phone_number now))
    modify (
        PhoneCodes.create_code (
          PhoneCodes.new_code draw.code_id draw.created_at user.id phone_number
            (hash_code draw.raw_code) (now + minutes 10)))
    pure true

  -- The first transaction of `resend`.
  unfoldable pub issue : ℕ → ℕ → CodeDraw → Action Bool
  issue phone_number now draw db = elim (Users.get_by_phone phone_number db) [
    | none ↦ pure false db
    | some user ↦ (if may_resend user then issue_for user phone_number now draw else pure false) db
  ]

-- What follows the first transaction: nothing where it returned early, else the request to the
-- provider, what others commit until it answers, and the answer, that is handled at `failed_at`
-- where the delivery failed.
unfoldable pub after_issue : ℕ → CodeDraw → (Db → Db) → Delivery → ℕ → Bool → Action ℕ
after_issue phone_number draw meanwhile answer failed_at false = pure 600
after_issue phone_number draw meanwhile answer failed_at true = do
  modify (log_call (ProviderCall.send_sms_code phone_number draw.raw_code))
  modify meanwhile
  if is_delivered answer then pure 600 else (do
    modify (expire_unsent_code draw.code_id failed_at)
    raise Error.sms_provider_unavailable)

module _ (sms_enabled sms_available : Bool) (hash_code : ℕ → ℕ) where
  unfoldable pub resend : ℕ → ℕ → CodeDraw → (Db → Db) → Delivery → ℕ → Action ℕ
  unfolding after_issue
  resend phone_number now draw meanwhile answer failed_at =
      if sms_enabled
      then (do
        raise_if (not sms_available) Error.sms_provider_unavailable
        issued ← transaction (issue hash_code phone_number now draw)
        after_issue phone_number draw meanwhile answer failed_at issued)
      else pure 600

-- How the transaction of `verify` ends: `outcome` to raise, an early return, or `verified`.
pub data Outcome : Type 0 where
  refused : Error → Outcome
  already_verified verified : Outcome

module _ (hash_code : ℕ → ℕ) where
  -- The check of a code that is not verified, expired or exhausted.
  unfoldable pub check_code : ℕ → ℕ → User → PhoneVerificationCode → Db → Outcome × Db
  check_code now submitted_code user code db =
      if hash_code submitted_code == code.code_hash
      then (Outcome.verified, PhoneCodes.mark_verified code now (Users.mark_phone_verified user db))
      else (let (attempts, db') = PhoneCodes.increment_attempts code.id db in
          (
            Outcome.refused (
                if leb 5 attempts
                then Error.verification_attempts_exceeded
                else Error.invalid_verification_code),
            db',
          ))

  -- The branches of `verify` on the latest code.
  unfoldable pub judge : ℕ → ℕ → User → Option PhoneVerificationCode → Db → Outcome × Db
  judge now submitted_code user none db = (Outcome.refused Error.invalid_verification_code, db)
  judge now submitted_code user (some code) db =
      if is_some code.verified_at
      then (Outcome.refused Error.invalid_verification_code, db)
      else if leb code.expires_at now
      then (Outcome.refused Error.verification_code_expired, db)
      else if leb 5 code.attempts
      then (Outcome.refused Error.verification_attempts_exceeded, db)
      else check_code now submitted_code user code db

  -- The transaction of `verify`.
  unfoldable pub verify_locked : ℕ → ℕ → ℕ → Db → Outcome × Db
  verify_locked phone_number now submitted_code db = elim (Users.get_by_phone phone_number db) [
    | none ↦ (Outcome.refused Error.invalid_verification_code, db)
    | some user ↦
        if is_active user.account_status
        then (if user.phone_verified
            then (Outcome.already_verified, db)
            else judge now submitted_code user (PhoneCodes.get_latest_for_user user.id db) db)
        else (Outcome.refused Error.invalid_verification_code, db)
  ]

  -- `verify` after its transaction, which always commits.
  unfoldable pub conclude : ℕ → ℕ → Outcome × Db → Result (Unit {0}) × Db
  conclude phone_number submitted_code (Outcome.refused e, db) = (err e, db)
  conclude phone_number submitted_code (Outcome.already_verified, db) = (ok tt, db)
  conclude phone_number submitted_code (Outcome.verified, db) =
      (ok tt, log_call (ProviderCall.consume_sms_code phone_number submitted_code) db)

  unfoldable pub verify : ℕ → ℕ → ℕ → Action (Unit {0})
  verify phone_number now submitted_code db =
      conclude phone_number submitted_code (verify_locked phone_number now submitted_code db)
