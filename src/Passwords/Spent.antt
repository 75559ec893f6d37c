-- ===== src/Passwords/Spent.antt =====
-- After an accepted reset: the account has its new password and no session, and no code of it can
-- be redeemed before it asks for another.
use unishop_china.Prelude.{
  not, ℕ, ◌≡◌, refl, subst, ◌∙◌, Bool, true, false, some, arith, ◌==◌, ==_refl,
}
use unishop_china.Prelude.Rows.{select, update, count}
use unishop_china.Prelude.Rows.Selecting.{select-update_other}
use unishop_china.Prelude.Rows.Counting.{first?-update, count-update_zero}
use unishop_china.Prelude.Rows.Searching.{top?-update, top?-holds}
use unishop_china.Models.{User, is_active, PasswordResetCode, IdentifierKind, Db}
use unishop_china.Action.{ok, err, Error}
use unishop_china.Repositories.Users
use unishop_china.Repositories.ResetCodes
use unishop_china.Repositories.RefreshTokens
use unishop_china.Passwords.Service.{
  ResetEnv, is_active_account, workload_user_id, challenge_is_available, judge, reset_locked,
  reset_password,
}
use unishop_china.Passwords.Completion.{
  IsRedeemable, redeemed, ResetPromise, reset_password-Promise, reset-refused,
}

-- The account is found by the same identifier, with the new password.
redeemed-user :
    (env : ResetEnv) (kind : IdentifierKind) (identifier now new_password : ℕ) (user : User)
    (challenge : PasswordResetCode) (db : Db)
    → Users.find kind identifier db ≡ some user
    → Users.find kind identifier (redeemed env now new_password user challenge db)
      ≡ some (record user { password_hash = env.hash_password new_password })
unfolding Users.find Users.get_by_email Users.get_by_phone Users.update_password_hash
    ResetCodes.invalidate_other_active_for_user ResetCodes.consume_if_available
    RefreshTokens.revoke_all_for_user
redeemed-user env IdentifierKind.by_email identifier now new_password user challenge db e =
    first?-update (λ u. Users.eq_column u.email identifier) (Users.has_id user.id)
      (λ u. record u { password_hash = env.hash_password new_password }) db.users user
      (λ x. ground arith) e
    ∙ ground (arith, ==_refl user.id)
redeemed-user env IdentifierKind.by_phone identifier now new_password user challenge db e =
    first?-update (λ u. Users.eq_column u.phone_number identifier) (Users.has_id user.id)
      (λ u. record u { password_hash = env.hash_password new_password }) db.users user
      (λ x. ground arith) e
    ∙ ground (arith, ==_refl user.id)

-- Its latest code is the one that was redeemed, used.
redeemed-latest :
    (env : ResetEnv) (kind : IdentifierKind) (identifier now new_password : ℕ) (user : User)
    (challenge : PasswordResetCode) (db : Db)
    → IsRedeemable env kind identifier now db user challenge
    → ResetCodes.get_latest_for_user user.id (redeemed env now new_password user challenge db)
      ≡ some (record challenge { used_at = some now })
unfolding ResetCodes.get_latest_for_user Users.update_password_hash
    ResetCodes.invalidate_other_active_for_user ResetCodes.consume_if_available
    RefreshTokens.revoke_all_for_user ResetCodes.is_newer ResetCodes.is_available
    ResetCodes.is_other_unused
redeemed-latest env kind identifier now new_password user challenge db able =
    (top?-update ResetCodes.is_newer of_user other retire (update available retire db.reset_codes)
        (λ x. ground arith) (λ x y. ground arith)).1
      (record challenge { used_at = some now })
      ((top?-update ResetCodes.is_newer of_user available retire db.reset_codes (λ x. ground arith)
            (λ x y. ground arith)).1
          challenge able.challenge_found
        ∙ ground (
          arith,
          ==_refl challenge.id,
          ==_refl user.id,
          of_this,
          able.unused,
          able.unexpired,
          able.tries_left,
        ))
    ∙ ground arith
  where
    of_user : PasswordResetCode → Bool
    of_user c = c.user_id == user.id

    available : PasswordResetCode → Bool
    available = ResetCodes.is_available challenge.id user.id now env.max_attempts

    other : PasswordResetCode → Bool
    other = ResetCodes.is_other_unused user.id challenge.id

    retire : PasswordResetCode → PasswordResetCode
    retire c = record c { used_at = some now }

    of_this : (challenge.user_id == user.id) ≡ true
    of_this = top?-holds ResetCodes.is_newer of_user db.reset_codes challenge able.challenge_found

used-refused :
    (env : ResetEnv) (kind : IdentifierKind) (identifier now code new_password used : ℕ)
    (user : User) (challenge : PasswordResetCode) (db : Db)
    → Users.find kind identifier db ≡ some user
    → is_active user.account_status ≡ true
    → ResetCodes.get_latest_for_user user.id db ≡ some (record challenge { used_at = some used })
    → reset_locked env kind identifier now code new_password db ≡ (ok false, db)
unfolding reset_locked judge challenge_is_available is_active_account workload_user_id
used-refused env kind identifier now code new_password used user challenge db found active latest =
    ground arith

-- A reset code is not redeemed twice, and no older code takes its place: after a reset was
-- accepted, every further reset by the same identifier is refused and changes nothing, whatever
-- its code, its new password and its time.
pub reset_password_once :
    (env : ResetEnv) (kind : IdentifierKind)
    (identifier now later code code' new_password new_password' : ℕ) (db db' : Db)
    → reset_password env kind identifier now code new_password db ≡ (ok tt, db')
    → reset_password env kind identifier later code' new_password' db'
      ≡ (err Error.invalid_password_reset, db')
reset_password_once env kind identifier now later code code' new_password new_password' db db' e =
    let (user, challenge, able, matches, state) =
      subst (ResetPromise env kind identifier now code new_password db) e
        (reset_password-Promise env kind identifier now code new_password db) in
    reset-refused env kind identifier later code' new_password' db' db' (
      used-refused env kind identifier later code' new_password' now
        (record user { password_hash = env.hash_password new_password }) challenge db'
        (rw state (redeemed-user env kind identifier now new_password user challenge db able.found))
        able.active
        (rw state (redeemed-latest env kind identifier now new_password user challenge db able)))

-- After an accepted reset the account that the identifier names has the new password and no
-- session that is not revoked; the rows of the sessions of other accounts are exactly those that
-- were there.
pub reset_password_ends :
    (env : ResetEnv) (kind : IdentifierKind) (identifier now code new_password : ℕ) (db db' : Db)
    → reset_password env kind identifier now code new_password db ≡ (ok tt, db')
    → (user : User) × (Users.find kind identifier db' ≡ some user)
      × (user.password_hash ≡ env.hash_password new_password)
      × (count (RefreshTokens.is_unrevoked_of user.id) db'.refresh_tokens ≡ 0)
      × (select (λ t. not (t.user_id == user.id)) db'.refresh_tokens
          ≡ select (λ t. not (t.user_id == user.id)) db.refresh_tokens)
unfolding RefreshTokens.is_unrevoked_of RefreshTokens.revoked RefreshTokens.revoke_all_for_user
    Users.update_password_hash ResetCodes.invalidate_other_active_for_user
    ResetCodes.consume_if_available
reset_password_ends env kind identifier now code new_password db db' e =
    let (user, challenge, able, matches, state) =
      subst (ResetPromise env kind identifier now code new_password db) e
        (reset_password-Promise env kind identifier now code new_password db) in
    (
      record user { password_hash = env.hash_password new_password },
      rw state (redeemed-user env kind identifier now new_password user challenge db able.found),
      refl,
      rw state (
          count-update_zero (RefreshTokens.is_unrevoked_of user.id)
            (RefreshTokens.is_unrevoked_of user.id) _ db.refresh_tokens (λ x. ground arith)),
      rw state (
          select-update_other (λ t. not (t.user_id == user.id))
            (RefreshTokens.is_unrevoked_of user.id) _ db.refresh_tokens (λ x h. ground arith)
            (λ x h. ground arith)),
    )
