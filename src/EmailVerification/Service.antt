-- ===== src/EmailVerification/Service.antt =====
-- `EmailVerificationService`, method by method.
use unishop_china.Prelude.{
  ℕ, ◌+◌, ◌-◌, ◌*◌, ◌/◌, max, Bool, true, false, ◌&&◌, ◌||◌, not, Option, none, some, leb, ltb,
  ◌==◌, if◌then◌else◌, is_some, is_none, is_truthy,
}
use unishop_china.Models.{
  User, is_active, EmailVerificationCode, Db, Delivery, is_delivered, ProviderCall, log_call,
  seconds, minutes, hours,
}
use unishop_china.Action.{
  Result, ok, err, Error, Action, pure, raise, gets, lift, modify, raise_if, transaction, ◌>>=◌,
  ◌>>◌,
}
use unishop_china.Repositories.Users
use unishop_china.Repositories.EmailCodes

-- The settings, and the keyed digest of a code with its secret. `dummy_code_hash` is
-- `DUMMY_EMAIL_VERIFICATION_CODE_HASH`.
pub record EmailEnv : Type 0 where
  pub code_expiry_minutes : ℕ
  pub cooldown_seconds : ℕ
  pub hourly_limit_requests : ℕ
  pub max_attempts : ℕ
  pub hash_code : ℕ → ℕ
  pub dummy_code_hash : ℕ
  pub provider_enabled : Bool
  pub provider_available : Bool

-- What the code generator and the key generator give, and whether the code has six digits.
pub record CodeDraw : Type 0 where
  pub raw_code : ℕ
  pub is_valid_code : Bool
  pub code_id : ℕ

-- What the first transaction of `resend` leaves for the delivery.
pub record Pending : Type 0 where
  pub pending_code_id : ℕ
  pub raw_code : ℕ
  pub destination : ℕ
  pub expires_at : ℕ

-- `_eligible`
unfoldable pub eligible : Option User → Bool
eligible none = false
eligible (some user) =
    is_active user.account_status && is_truthy user.email && not user.email_verified

-- `user.email == destination`
abbrev pub has_email : Option User → ℕ → Bool
has_email none destination = false
has_email (some user) destination = Users.eq_column user.email destination

-- `user.email`, which is set for an eligible user.
abbrev pub email_of : User → ℕ
email_of user = elim user.email [ none ↦ 0 | some email ↦ email ]

abbrev pub is_latest : Option EmailVerificationCode → ℕ → Bool
is_latest none code_id = false
is_latest (some latest) code_id = latest.id == code_id

-- `_cancel_pending`
unfoldable pub cancel_pending : ℕ → ℕ → ℕ → Action (Unit {0})
cancel_pending code_id user_id now =
    transaction (modify (EmailCodes.cancel_pending code_id user_id now))

-- `_consume_provider_code`
unfoldable pub consume_provider_code : ℕ → ℕ → Action (Unit {0})
consume_provider_code user_id code =
    modify (log_call (ProviderCall.consume_email_code user_id code))

module _ (env : EmailEnv) where
  -- The answer of `resend` carries the lifetime of a code in seconds.
  abbrev pub resend_result : ℕ
  resend_result = env.code_expiry_minutes * 60

  -- The cooldown since the latest challenge, negative ages counted as zero.
  unfoldable pub check_cooldown : ℕ → Option EmailVerificationCode → Result (Unit {0})
  check_cooldown now none = ok tt
  check_cooldown now (some latest) =
      if ltb now (latest.created_at + seconds env.cooldown_seconds)
      then err (
          Error.email_verification_rate_limited
            (max 1 (env.cooldown_seconds - (now - latest.created_at) / 1000000)))
      else ok tt

  unfoldable pub check_hourly_limit : ℕ → ℕ → Db → Result (Unit {0})
  check_hourly_limit user_id now db =
      let since = now - hours 1 in
      if leb env.hourly_limit_requests (EmailCodes.count_created_since user_id since db)
      then err (
          Error.email_verification_rate_limited
            (elim (EmailCodes.get_oldest_created_since user_id since db) [
              | none ↦ 3600
              | some oldest ↦ max 1 (3600 - (now - oldest) / 1000000)
            ]))
      else ok tt

  -- The end of the first transaction of `resend`: the challenge is stored.
  unfoldable pub store_challenge : User → ℕ → CodeDraw → Action (Option Pending)
  unfolding EmailCodes.new_pending
  store_challenge user now draw = do
    raise_if (not draw.is_valid_code) Error.runtime_error
    let expires_at = now + minutes env.code_expiry_minutes
    modify (
        EmailCodes.create_pending (
          EmailCodes.new_pending draw.code_id user.id (env.hash_code draw.raw_code) expires_at now))
    pure (
        some (record {
          pending_code_id = draw.code_id;
          raw_code = draw.raw_code;
          destination = email_of user;
          expires_at = expires_at;
        }))

  -- The first transaction of `resend` for an eligible user.
  unfoldable pub issue_for : User → ℕ → CodeDraw → Action (Option Pending)
  unfolding store_challenge
  issue_for user now draw = do
    raise_if (not env.provider_enabled || not env.provider_available)
        Error.email_verification_unavailable
    lift (check_cooldown now (← gets (EmailCodes.get_latest_created_for_user user.id)))
    lift (← gets (check_hourly_limit user.id now))
    store_challenge user now draw

  -- The first transaction of `resend`; `none` where it returns early.
  unfoldable pub issue : ℕ → ℕ → CodeDraw → Action (Option Pending)
  issue user_id now draw db = elim (Users.get_by_id user_id db) [
    | none ↦ pure none db
    | some user ↦ (if eligible (some user) then issue_for user now draw else pure none) db
  ]

-- `activate_pending(...) == 1`, where the conditions hold.
unfoldable pub activate_if : Bool → ℕ → ℕ → Pending → Action Bool
activate_if false user_id now pending db = (ok false, db)
activate_if true user_id now pending db =
    let (rowcount, db') = EmailCodes.activate_pending pending.pending_code_id user_id now db in
    (ok (rowcount == 1), db')

-- What `resend` does to the challenges after the attempt to activate.
unfoldable pub after_activation : Bool → ℕ → ℕ → Pending → Db → Db
after_activation true user_id now pending =
    EmailCodes.invalidate_active_for_user user_id now pending.pending_code_id
after_activation false user_id now pending =
    EmailCodes.cancel_pending pending.pending_code_id user_id now

-- The second transaction of `resend` from its test on: whether the challenge was activated.
unfoldable pub activate_or_cancel : Bool → ℕ → ℕ → Pending → Action Bool
unfolding activate_if after_activation
activate_or_cancel wanted user_id now pending = do
  activated ← activate_if wanted user_id now pending
  modify (after_activation activated user_id now pending)
  pure activated

-- The second transaction of `resend`.
unfoldable pub activate : ℕ → ℕ → Pending → Action Bool
activate user_id now pending = do
  user ← gets (Users.get_by_id user_id)
  latest ← gets (EmailCodes.get_latest_created_for_user user_id)
  activate_or_cancel
      (eligible user
        && has_email user pending.destination
        && is_latest latest pending.pending_code_id)
      user_id now pending

-- The request to the provider, and what others commit until it answers.
unfoldable pub deliver : ℕ → Pending → (Db → Db) → Action (Unit {0})
deliver user_id pending meanwhile = do
  modify (
      log_call (
        ProviderCall.deliver_email_code user_id pending.destination pending.raw_code
          pending.expires_at))
  modify meanwhile

-- The `except` branch of the delivery.
unfoldable pub abandon : ℕ → ℕ → Pending → Action (Unit {0})
unfolding cancel_pending consume_provider_code
abandon user_id now pending = do
  cancel_pending pending.pending_code_id user_id now
  consume_provider_code user_id pending.raw_code
  raise Error.email_verification_unavailable

-- A confirmed delivery.
unfoldable pub confirm : ℕ → ℕ → Pending → Action (Unit {0})
unfolding consume_provider_code
confirm user_id now pending = do
  activated ← transaction (activate user_id now pending)
  if activated then pure tt else consume_provider_code user_id pending.raw_code

module _ (env : EmailEnv) where
  -- What follows the first transaction of `resend`; `none` is its early return.
  unfoldable pub after_issue : ℕ → ℕ → (Db → Db) → Delivery → Option Pending → Action ℕ
  after_issue user_id now meanwhile answer none db = (ok (resend_result env), db)
  after_issue user_id now meanwhile answer (some pending) db =
      (do
        deliver user_id pending meanwhile
        if is_delivered answer then confirm user_id now pending else abandon user_id now pending
        pure (resend_result env))
        db

  unfoldable pub resend : ℕ → ℕ → CodeDraw → (Db → Db) → Delivery → Action ℕ
  resend user_id now draw meanwhile answer = do
    issued ← transaction (issue env user_id now draw)
    after_issue user_id now meanwhile answer issued

  -- `stored_hash` of `verify`
  unfoldable pub stored_hash : Bool → Option EmailVerificationCode → ℕ
  stored_hash is_eligible none = env.dummy_code_hash
  stored_hash is_eligible (some challenge) =
      if is_eligible then challenge.code_hash else env.dummy_code_hash

  -- `challenge_available` of `verify`
  unfoldable pub challenge_available : ℕ → Bool → EmailVerificationCode → Bool
  challenge_available now is_eligible challenge =
      is_eligible
      && is_some challenge.activated_at
      && is_none challenge.used_at
      && ltb now challenge.expires_at
      && ltb challenge.attempts env.max_attempts

  -- The redemption of an available challenge whose code matches.
  unfoldable pub redeem : ℕ → ℕ → Option User → EmailVerificationCode → Action Bool
  redeem user_id now none challenge db = (ok false, db)
  redeem user_id now (some user) challenge db =
      let (consumed, db') =
        EmailCodes.consume_if_available challenge.id user_id now env.max_attempts db in
      if consumed == 1
      then (
        ok true,
        EmailCodes.invalidate_active_for_user user_id now challenge.id
            (Users.mark_email_verified user db'),
      )
      else (err Error.runtime_error, db')

  -- The branches of `verify` on the challenge.
  unfoldable pub judge : ℕ → ℕ → ℕ → Option User → Option EmailVerificationCode → Action Bool
  judge user_id now submitted_code user none = pure false
  judge user_id now submitted_code user (some challenge) =
      let is_eligible = eligible user in
      let code_matches = env.hash_code submitted_code == stored_hash is_eligible (some challenge) in
      if challenge_available now is_eligible challenge
      then (if code_matches then redeem user_id now user challenge else (do
        modify
            (EmailCodes.increment_attempts_if_available challenge.id user_id now env.max_attempts)
        pure false))
      else pure false

  -- The transaction of `verify`: whether it succeeded.
  unfoldable pub verify_locked : ℕ → ℕ → ℕ → Action Bool
  verify_locked user_id now submitted_code db =
      judge user_id now submitted_code (Users.get_by_id user_id db)
        (EmailCodes.get_latest_active_for_user user_id db) db

  unfoldable pub verify : ℕ → ℕ → ℕ → Action (Unit {0})
  unfolding consume_provider_code
  verify user_id now submitted_code = do
    succeeded ← transaction (verify_locked user_id now submitted_code)
    raise_if (not succeeded) Error.email_verification_invalid
    consume_provider_code user_id submitted_code
