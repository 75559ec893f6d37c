-- ===== src/Sessions/Service.antt =====
-- `RefreshSessionService`, method by method.
use unishop_china.Prelude.{
  ℕ, zero, suc, ◌+◌, ◌-◌, ◌/◌, min, max, Bool, true, false, ◌||◌, not, Option, none, some, is_some,
  is_nonempty, leb, if◌then◌else◌,
}
use unishop_china.Models.{RefreshToken, RevocationReason, User, is_active, Db, days}
use unishop_china.Action.{
  Result, ok, err, Error, Action, pure, raise, gets, lift, modify, raise_if, transaction, ◌>>=◌,
  ◌>>◌,
}
use unishop_china.Repositories.Users
use unishop_china.Repositories.RefreshTokens
use unishop_china.Sessions.Csrf.{validate_csrf_tokens}

pub record SessionEnv : Type 0 where
  pub collision_attempts : ℕ
  pub refresh_token_expire_days : ℕ
  pub refresh_session_absolute_days : ℕ
  pub max_active_session_families_per_user : ℕ
  pub hash_refresh_token : ℕ → ℕ
  pub hash_csrf_token : ℕ → ℕ
  pub create_access_token : ℕ → ℕ
  pub expires_in_seconds : ℕ

-- What the generators give at one round of the collision loop: the two tokens, and the primary
-- key and `created_at` of the row.
pub record Draw : Type 0 where
  pub raw_refresh_token : ℕ
  pub csrf_token : ℕ
  pub record_id : ℕ
  pub created_at : ℕ

pub record AuthCookieMaterial : Type 0 where
  pub refresh_token : ℕ
  pub csrf_token : ℕ
  pub max_age : ℕ

-- `token_type` is the constant "bearer".
pub record RefreshAccessResult : Type 0 where
  pub access_token : ℕ
  pub expires_in : ℕ
  pub cookies : AuthCookieMaterial

-- `user is not None and user.account_status is AccountStatus.ACTIVE`
abbrev pub is_active_user : Option User → Bool
is_active_user none = false
is_active_user (some user) = is_active user.account_status

-- `for _ in range(families_to_revoke)`, with its `break`.
unfoldable pub revoke_oldest : ℕ → ℕ → ℕ → Db → Db
revoke_oldest user_id now zero db = db
revoke_oldest user_id now (suc n) db =
    elim (RefreshTokens.get_oldest_active_family user_id now db) [
      | none ↦ db
      | some oldest ↦
          revoke_oldest user_id now n
            (RefreshTokens.revoke_family oldest RevocationReason.session_limit now false db)
    ]

module _ (env : SessionEnv) where
  module _ (user_id family_id family_expires_at expires_at now : ℕ) where
    unfoldable pub drawn_record : Draw → RefreshToken
    unfolding RefreshTokens.new_token
    drawn_record d =
        RefreshTokens.new_token d.record_id d.created_at user_id
          (env.hash_refresh_token d.raw_refresh_token) family_id (env.hash_csrf_token d.csrf_token)
          expires_at family_expires_at

    unfoldable pub drawn_material : Draw → AuthCookieMaterial
    drawn_material d = record {
      refresh_token = d.raw_refresh_token;
      csrf_token = d.csrf_token;
      max_age = max 1 ((expires_at - now) / 1000000);
    }

    -- One round: `none` where the code goes on to the next.
    unfoldable pub try_draw : Draw → Db → Option Db
    unfolding drawn_record RefreshTokens.token_hash_exists RefreshTokens.create_refresh_session
    try_draw d db =
        if RefreshTokens.token_hash_exists (env.hash_refresh_token d.raw_refresh_token) db
        then none
        else RefreshTokens.create_refresh_session (drawn_record d) db

    -- `for _ in range(self.collision_attempts)`; the second number is the round.
    unfoldable pub create_attempts : ℕ → ℕ → (ℕ → Draw) → Action (RefreshToken × AuthCookieMaterial)
    unfolding drawn_material
    create_attempts zero i draws db = (err Error.refresh_token_collision, db)
    create_attempts (suc left) i draws db =
        let rest = create_attempts left (suc i) draws db in
        elim (try_draw (draws i) db) [
          | none ↦ rest
          | some db' ↦ (ok (drawn_record (draws i), drawn_material (draws i)), db')
        ]

  unfoldable pub create_token_record :
      ℕ → ℕ → ℕ → ℕ → (ℕ → Draw) → Action (RefreshToken × AuthCookieMaterial)
  create_token_record user_id family_id family_expires_at now draws =
      let expires_at = min (now + days env.refresh_token_expire_days) family_expires_at in
      if leb expires_at now
      then raise Error.session_refresh
      else create_attempts user_id family_id family_expires_at expires_at now env.collision_attempts
          0 draws

  -- `max(0, active_count - max_active + 1)`
  unfoldable pub families_to_revoke : ℕ → ℕ
  families_to_revoke active_count = active_count + 1 - env.max_active_session_families_per_user

  unfoldable pub create_login_session : ℕ → ℕ → ℕ → (ℕ → Draw) → Action AuthCookieMaterial
  unfolding families_to_revoke
  create_login_session user_id now family_id draws = do
    user ← gets (Users.get_by_id user_id)
    raise_if (not (is_active_user user)) Error.session_refresh
    active_count ← gets (RefreshTokens.count_active_families user_id now)
    modify (revoke_oldest user_id now (families_to_revoke active_count))
    let family_expires_at = now + days env.refresh_session_absolute_days
    (_, material) ← create_token_record user_id family_id family_expires_at now draws
    pure material

  -- The last branch of `rotate_session`: the account is active and the token is live.
  unfoldable pub rotate_live :
      RefreshToken → ℕ → (ℕ → Draw) → Action (Option (AuthCookieMaterial × ℕ))
  rotate_live current now draws = do
    (replacement, material) ←
        create_token_record current.user_id current.family_id current.family_expires_at now draws
    modify (RefreshTokens.mark_token_rotated current replacement.id now)
    pure (some (material, current.user_id))

  -- The four branches on the row found; `none` is `invalid_session`.
  unfoldable pub rotate_current :
      RefreshToken → ℕ → (ℕ → Draw) → Action (Option (AuthCookieMaterial × ℕ))
  unfolding rotate_live
  rotate_current current now draws =
      if is_some current.revoked_at
      then (do
        modify
            (RefreshTokens.revoke_family current.family_id RevocationReason.reuse_detected now true)
        pure none)
      else if leb current.expires_at now || leb current.family_expires_at now
      then (do
        modify (
            RefreshTokens.revoke_family current.family_id RevocationReason.expired_cleanup now
              false)
        pure none)
      else (do
        user ← gets (Users.get_by_id current.user_id)
        if not (is_active_user user)
            then (do
              modify (
                  RefreshTokens.revoke_family current.family_id RevocationReason.inactive_account
                    now false)
              pure none)
            else rotate_live current now draws)

  -- The body of the transaction of `rotate_session`.
  unfoldable pub rotate_locked :
      ℕ → Option ℕ → Option ℕ → ℕ → (ℕ → Draw) → Action (Option (AuthCookieMaterial × ℕ))
  unfolding rotate_current
  rotate_locked presented_hash csrf_cookie csrf_header now draws db =
      elim (RefreshTokens.get_for_update_by_hash presented_hash db) [
        | none ↦ pure none db
        | some current ↦
            (lift (
                  validate_csrf_tokens env.hash_csrf_token csrf_cookie csrf_header
                    (some current.csrf_token_hash))
                >> rotate_current current now draws)
              db
      ]

  -- What follows the transaction.
  abbrev pub rotation_result : Option (AuthCookieMaterial × ℕ) → Result RefreshAccessResult
  rotation_result none = err Error.session_refresh
  rotation_result (some (material, user_id)) = ok (record {
    access_token = env.create_access_token user_id;
    expires_in = env.expires_in_seconds;
    cookies = material;
  })

  unfoldable pub rotate_session :
      ℕ → Option ℕ → Option ℕ → ℕ → (ℕ → Draw) → Action RefreshAccessResult
  unfolding rotate_locked
  rotate_session raw_refresh_token csrf_cookie csrf_header now draws = do
    raise_if (not (is_nonempty raw_refresh_token)) Error.session_refresh
    lift (validate_csrf_tokens env.hash_csrf_token csrf_cookie csrf_header none)
    outcome ←
        transaction (
          rotate_locked (env.hash_refresh_token raw_refresh_token) csrf_cookie csrf_header now
            draws)
    lift (rotation_result outcome)

  -- The body of the transaction of `logout_current`.
  unfoldable pub logout_locked : ℕ → Option ℕ → Option ℕ → ℕ → Action (Unit {0})
  logout_locked token_hash csrf_cookie csrf_header now db =
      elim (RefreshTokens.get_for_update_by_hash token_hash db) [
        | none ↦ pure tt db
        | some current ↦
            (lift (
                  validate_csrf_tokens env.hash_csrf_token csrf_cookie csrf_header
                    (some current.csrf_token_hash))
                >> modify (
                    RefreshTokens.revoke_family current.family_id RevocationReason.logout now
                      false))
              db
      ]

  unfoldable pub logout_current : Option ℕ → Option ℕ → Option ℕ → ℕ → Action (Unit {0})
  unfolding logout_locked
  logout_current none csrf_cookie csrf_header now = pure tt
  logout_current (some raw_refresh_token) csrf_cookie csrf_header now =
      if not (is_nonempty raw_refresh_token) then pure tt else (do
        lift (validate_csrf_tokens env.hash_csrf_token csrf_cookie csrf_header none)
        transaction
            (logout_locked (env.hash_refresh_token raw_refresh_token) csrf_cookie csrf_header now))

unfoldable pub logout_all : ℕ → ℕ → Action (Unit {0})
logout_all user_id now =
    transaction (modify (RefreshTokens.revoke_all_for_user user_id RevocationReason.logout_all now))
