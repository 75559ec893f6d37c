-- ===== src/Passwords/Service.antt =====
-- The password reset services, method by method.
use unishop_china.Prelude.{
  ℕ, ◌+◌, ◌-◌, Bool, true, false, ◌&&◌, not, Option, none, some, leb, ltb, ◌==◌, if◌then◌else◌,
  is_none,
}
use unishop_china.Models.{
  User, is_active, PasswordResetCode, IdentifierKind, RevocationReason, Db, Delivery, is_delivered,
  ProviderCall, log_call, seconds, minutes, hours,
}
use unishop_china.Action.{
  ok, err, Error, Action, pure, gets, modify, raise_if, transaction, ◌>>=◌, ◌>>◌,
}
use unishop_china.Repositories.Users
use unishop_china.Repositories.ResetCodes
use unishop_china.Repositories.RefreshTokens

-- The settings, the keyed digest of a code with its secret, and the password hasher.
pub record ResetEnv : Type 0 where
  pub code_expiry_minutes : ℕ
  pub cooldown_seconds : ℕ
  pub hourly_limit_requests : ℕ
  pub max_attempts : ℕ
  pub hash_code : ℕ → ℕ
  pub hash_password : ℕ → ℕ
  pub dummy_user_id : ℕ
  pub dummy_code_hash : ℕ
  pub provider_enabled : Bool
  pub provider_available : Bool

-- What the code generator and the key generator give.
pub record ResetDraw : Type 0 where
  pub raw_code : ℕ
  pub code_id : ℕ

-- `pending_code_id`, `pending_user_id` and `credential_version` of `request_reset`.
pub record PendingReset : Type 0 where
  pub pending_code_id : ℕ
  pub pending_user_id : ℕ
  pub credential_version : ℕ

-- `user is not None and user.account_status is AccountStatus.ACTIVE`
unfoldable pub is_active_account : Option User → Bool
is_active_account none = false
is_active_account (some user) = is_active user.account_status

module _ (env : ResetEnv) where
  -- `_may_issue`
  unfoldable pub may_issue : ℕ → Option PasswordResetCode → ℕ → Bool
  may_issue now none recent_count = not (leb env.hourly_limit_requests recent_count)
  may_issue now (some latest) recent_count =
      not (leb env.hourly_limit_requests recent_count)
      && leb (latest.created_at + seconds env.cooldown_seconds) now

  -- The pending code that `request_reset` stores, after it retired the account's active ones.
  unfoldable pub store_pending : User → ℕ → ResetDraw → Db → Db
  unfolding ResetCodes.new_pending
  store_pending user now draw db =
      ResetCodes.create_pending
        (ResetCodes.new_pending draw.code_id user.id (env.hash_code draw.raw_code)
          (now + minutes env.code_expiry_minutes) now)
        (ResetCodes.invalidate_active_for_user user.id now db)

  -- `eligible` of `request_reset`
  unfoldable pub may_request : Option User → Bool
  unfolding is_active_account
  may_request user = is_active_account user && env.provider_enabled && env.provider_available

  -- `workload_user_id`, for either service.
  unfoldable pub workload_user_id : Bool → Option User → ℕ
  workload_user_id is_eligible none = env.dummy_user_id
  workload_user_id is_eligible (some user) = if is_eligible then user.id else env.dummy_user_id

  -- The end of the first transaction: a pending code where the tests allow it.
  unfoldable pub issue_if : Bool → Option User → ℕ → ResetDraw → Action (Option PendingReset)
  issue_if false user now draw = pure none
  issue_if true none now draw = pure none
  issue_if true (some user) now draw = do
    modify (store_pending user now draw)
    pure (
        some (record {
          pending_code_id = draw.code_id;
          pending_user_id = user.id;
          credential_version = user.password_hash;
        }))

  -- The first transaction of `request_reset`.
  unfoldable pub issue : IdentifierKind → ℕ → ℕ → ResetDraw → Action (Option PendingReset)
  unfolding issue_if
  issue kind identifier now draw = do
    user ← gets (Users.find kind identifier)
    let workload = workload_user_id (may_request user) user
    latest ← gets (ResetCodes.get_latest_for_user workload)
    recent_count ← gets (ResetCodes.count_created_since workload (now - hours 1))
    issue_if (may_request user && may_issue now latest recent_count) user now draw

-- The condition of the second transaction of `request_reset`.
unfoldable pub may_activate : PendingReset → Option User → Option PasswordResetCode → Bool
may_activate pending none latest = false
may_activate pending (some user) none = false
may_activate pending (some user) (some latest) =
    is_active user.account_status
    && user.password_hash == pending.credential_version
    && latest.id == pending.pending_code_id

-- The second transaction of `request_reset`.
unfoldable pub activate : PendingReset → Db → Db
unfolding may_activate
activate pending db =
    if may_activate pending (Users.get_by_id pending.pending_user_id db)
      (ResetCodes.get_latest_for_user pending.pending_user_id db)
    then ResetCodes.activate_pending pending.pending_code_id db
    else db

module _ (env : ResetEnv) where
  -- `request_reset`, always with the same answer. `meanwhile` is what others commit until the
  -- provider answers.
  unfoldable pub after_issue :
      IdentifierKind
      → ℕ
      → ℕ
      → ResetDraw
      → (Db → Db)
      → Delivery
      → Option PendingReset
      → Action (Unit {0})
  after_issue kind identifier now draw meanwhile answer none = pure tt
  after_issue kind identifier now draw meanwhile answer (some pending) = do
    modify (
        log_call (
          ProviderCall.deliver_reset_code kind identifier draw.raw_code
            (now + minutes env.code_expiry_minutes)))
    modify meanwhile
    if is_delivered answer then modify (activate pending) else pure tt

  unfoldable pub request_reset :
      IdentifierKind → ℕ → ℕ → ResetDraw → (Db → Db) → Delivery → Action (Unit {0})
  request_reset kind identifier now draw meanwhile answer = do
    issued ← transaction (issue env kind identifier now draw)
    after_issue kind identifier now draw meanwhile answer issued

  -- `stored_hash` of `reset_password`
  unfoldable pub stored_hash : Bool → Option PasswordResetCode → ℕ
  stored_hash is_eligible none = env.dummy_code_hash
  stored_hash is_eligible (some challenge) =
      if is_eligible then challenge.code_hash else env.dummy_code_hash

  -- `challenge_is_available` of `reset_password`
  unfoldable pub challenge_is_available : ℕ → Bool → Option PasswordResetCode → Bool
  challenge_is_available now is_eligible none = false
  challenge_is_available now is_eligible (some challenge) =
      is_eligible
      && is_none challenge.used_at
      && ltb now challenge.expires_at
      && ltb challenge.attempts env.max_attempts

  -- The acceptance of a code.
  unfoldable pub redeem : ℕ → ℕ → User → PasswordResetCode → Action Bool
  redeem now new_password user challenge db =
      let (consumed, db') =
        ResetCodes.consume_if_available challenge.id user.id now env.max_attempts
          (Users.update_password_hash user (env.hash_password new_password) db) in
      if consumed == 1
      then (
        ok true,
        RefreshTokens.revoke_all_for_user user.id RevocationReason.logout_all now
            (ResetCodes.invalidate_other_active_for_user user.id challenge.id now db'),
      )
      else (err Error.runtime_error, db')

  -- The branches of `reset_password` on the challenge. An available challenge has a user.
  unfoldable pub judge : ℕ → ℕ → ℕ → Option User → Option PasswordResetCode → Action Bool
  judge now code new_password (some user) (some challenge) =
      let is_eligible = is_active_account (some user) in
      let code_matches = env.hash_code code == stored_hash is_eligible (some challenge) in
      if challenge_is_available now is_eligible (some challenge)
      then (if code_matches then redeem now new_password user challenge else (do
        modify
            (ResetCodes.increment_attempts_if_available challenge.id user.id now env.max_attempts)
        pure false))
      else pure false
  judge now code new_password (some user) none = pure false
  judge now code new_password none challenge = pure false

  -- The transaction of `reset_password`: whether it succeeded.
  unfoldable pub reset_locked : IdentifierKind → ℕ → ℕ → ℕ → ℕ → Action Bool
  reset_locked kind identifier now code new_password db =
      let user = Users.find kind identifier db in
      judge now code new_password user
        (ResetCodes.get_latest_for_user (workload_user_id env (is_active_account user) user) db) db

  unfoldable pub reset_password : IdentifierKind → ℕ → ℕ → ℕ → ℕ → Action (Unit {0})
  reset_password kind identifier now code new_password = do
    succeeded ← transaction (reset_locked kind identifier now code new_password)
    raise_if (not succeeded) Error.invalid_password_reset
