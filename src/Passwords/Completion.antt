-- ===== src/Passwords/Completion.antt =====
-- What `reset_password` promises: when a code is accepted, what its acceptance writes, and what a
-- refusal writes.
use unishop_china.Prelude.{
  ℕ, ◌<◌, ◌≡◌, ◌≢◌, refl, sym, subst, ◌⊎◌, inl, inr, Bool, true, false, none, some, arith,
  Bool-cases, Option-cases, ◌==◌,
}
use unishop_china.Models.{User, is_active, PasswordResetCode, IdentifierKind, RevocationReason, Db}
use unishop_china.Action.{Result, ok, err, Error}
use unishop_china.Repositories.Users
use unishop_china.Repositories.ResetCodes
use unishop_china.Repositories.RefreshTokens
use unishop_china.Passwords.Service.{
  ResetEnv, is_active_account, workload_user_id, stored_hash, challenge_is_available, redeem, judge,
  reset_locked, reset_password,
}

-- The account that an identifier names, its latest code, and that the code may be redeemed.
pub record IsRedeemable (env : ResetEnv) (kind : IdentifierKind) (identifier now : ℕ) (db : Db)
    (user : User) (challenge : PasswordResetCode) : Type 0 where
  pub found : Users.find kind identifier db ≡ some user
  pub active : is_active user.account_status ≡ true
  pub challenge_found : ResetCodes.get_latest_for_user user.id db ≡ some challenge
  pub unused : challenge.used_at ≡ none
  pub unexpired : now < challenge.expires_at
  pub tries_left : challenge.attempts < env.max_attempts

-- What an accepted code writes.
abbrev pub redeemed : ResetEnv → ℕ → ℕ → User → PasswordResetCode → Db → Db
redeemed env now new_password user challenge db =
    RefreshTokens.revoke_all_for_user user.id RevocationReason.logout_all now (
      ResetCodes.invalidate_other_active_for_user user.id challenge.id now
        (ResetCodes.consume_if_available challenge.id user.id now env.max_attempts
          (Users.update_password_hash user (env.hash_password new_password) db)).1)

module _ (env : ResetEnv) (kind : IdentifierKind) (identifier now code new_password : ℕ)
    (db : Db) where
  abbrev pub Accepts : Db → Type 0
  Accepts db' =
      (user : User) × (challenge : PasswordResetCode) × IsRedeemable env kind identifier now db user
        challenge
      × (env.hash_code code ≡ challenge.code_hash)
      × (db' ≡ redeemed env now new_password user challenge db)

  -- A refused code that cost an attempt.
  abbrev pub Costs : Db → Type 0
  Costs db' =
      (user : User) × (challenge : PasswordResetCode) × IsRedeemable env kind identifier now db user
        challenge
      × (env.hash_code code ≢ challenge.code_hash)
      × (db'
          ≡ ResetCodes.increment_attempts_if_available challenge.id user.id now env.max_attempts db)

  abbrev pub Judged : Result Bool × Db → Type 0
  Judged (ok true, db') = Accepts db'
  Judged (ok false, db') = (db' ≡ db) ⊎ Costs db'
  Judged (err e, db') = Unit

  -- What `reset_password` promises.
  abbrev pub ResetPromise : Result (Unit {0}) × Db → Type 0
  ResetPromise (ok _, db') = Accepts db'
  ResetPromise (err e, db') = (db' ≡ db) ⊎ Costs db'

  judge-Judged :
      (user : User) (challenge : PasswordResetCode)
      → Users.find kind identifier db ≡ some user
      → ResetCodes.get_latest_for_user
          (workload_user_id env (is_active_account (some user)) (some user))
          db
        ≡ some challenge
      → Judged (judge env now code new_password (some user) (some challenge) db)
  unfolding judge redeem challenge_is_available stored_hash is_active_account workload_user_id
  judge-Judged user challenge found latest =
      elim (Bool-cases
        (challenge_is_available env now (is_active_account (some user)) (some challenge))) [
          | inr out ↦ rw out (inl refl)
          | inl able ↦
              rw able
                (elim (Bool-cases (
                  env.hash_code code
                  == stored_hash env (is_active_account (some user)) (some challenge))) [
                    | inr wrong ↦
                        rw wrong (inr (user, challenge, redeemable able, ground arith, refl))
                    | inl right ↦
                        rw right
                          (elim (Bool-cases (
                            (ResetCodes.consume_if_available challenge.id user.id now
                              env.max_attempts
                              (Users.update_password_hash user (env.hash_password new_password)
                                db)).0
                            == 1)) [
                              | inl one ↦
                                  rw one (user, challenge, redeemable able, ground arith, refl)
                              | inr other ↦ rw other tt
                            ])
                  ])
        ]
    where
      redeemable :
          challenge_is_available env now (is_active_account (some user)) (some challenge) ≡ true
          → IsRedeemable env kind identifier now db user challenge
      redeemable able = record {
        found = found;
        active = ground arith;
        challenge_found = ground arith;
        unused = ground arith;
        unexpired = ground arith;
        tries_left = ground arith;
      }

  reset_locked-Judged : Judged (reset_locked env kind identifier now code new_password db)
  unfolding reset_locked judge
  reset_locked-Judged = elim (Option-cases (Users.find kind identifier db)) [
    | inl missing ↦ rw (missing, reset_locked) (inl refl)
    | inr (user, found) ↦
        rw (found, reset_locked)
          (elim (Option-cases (
            ResetCodes.get_latest_for_user
              (workload_user_id env (is_active_account (some user)) (some user)) db)) [
                | inl no_code ↦ rw no_code (inl refl)
                | inr (challenge, latest) ↦ rw latest (judge-Judged user challenge found latest)
              ])
  ]

  pub reset-accepted :
      (d : Db)
      → reset_locked env kind identifier now code new_password db ≡ (ok true, d)
      → reset_password env kind identifier now code new_password db ≡ (ok tt, d)
  unfolding reset_password
  reset-accepted d e = ground arith

  pub reset-refused :
      (d : Db)
      → reset_locked env kind identifier now code new_password db ≡ (ok false, d)
      → reset_password env kind identifier now code new_password db
        ≡ (err Error.invalid_password_reset, d)
  unfolding reset_password
  reset-refused d e = ground arith

  reset-raised :
      (x : Error) (d : Db)
      → reset_locked env kind identifier now code new_password db ≡ (err x, d)
      → reset_password env kind identifier now code new_password db ≡ (err x, db)
  unfolding reset_password
  reset-raised x d e = ground arith

  -- A code is accepted only for the active account that the identifier names, if it is the digest
  -- of the account's latest code, which is unused, unexpired and has attempts left; then the
  -- password is replaced, the code is consumed, the account's other codes are retired and its
  -- sessions are revoked. A refused call changes nothing, or costs that code an attempt.
  pub reset_password-Promise :
      ResetPromise (reset_password env kind identifier now code new_password db)
  reset_password-Promise = go _ _ refl reset_locked-Judged
    where
      go :
          (r : Result Bool) (d : Db)
          → reset_locked env kind identifier now code new_password db ≡ (r, d)
          → Judged (r, d)
          → ResetPromise (reset_password env kind identifier now code new_password db)
      go (ok true) d e j = subst ResetPromise (sym (reset-accepted d e)) j
      go (ok false) d e j = subst ResetPromise (sym (reset-refused d e)) j
      go (err x) d e j = subst ResetPromise (sym (reset-raised x d e)) (inl refl)
