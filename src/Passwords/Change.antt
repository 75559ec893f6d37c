-- ===== src/Passwords/Change.antt =====
-- `PasswordChangeService`, and what it promises.
use unishop_china.Prelude.{
  ◌==◌, ℕ, ◌≡◌, refl, inl, inr, Bool, true, false, ◌||◌, not, Option, none, some, arith, Bool-cases,
  Option-cases, ==_refl, ◌∙◌,
}
use unishop_china.Prelude.Rows.{select, count}
use unishop_china.Prelude.Rows.Selecting.{select-update_other}
use unishop_china.Prelude.Rows.Counting.{count-update_zero, first?-holds, first?-update}
use unishop_china.Models.{User, is_active, RevocationReason, Db}
use unishop_china.Action.{
  Result, ok, err, Error, Action, raise_if, raise, modify, transaction, ◌>>◌,
}
use unishop_china.Repositories.Users
use unishop_china.Repositories.ResetCodes
use unishop_china.Repositories.RefreshTokens

module _ (password_verifier : ℕ → ℕ → Bool) (password_hasher : ℕ → ℕ) where
  -- What a change writes.
  unfoldable pub replace_password : User → ℕ → ℕ → Db → Db
  replace_password user now new_password db =
      RefreshTokens.revoke_all_for_user user.id RevocationReason.logout_all now (
        ResetCodes.invalidate_active_for_user user.id now
          (Users.update_password_hash user (password_hasher new_password) db))

  -- The transaction of `change_password` for the user found.
  unfoldable pub change_for : Option User → ℕ → ℕ → ℕ → Action (Unit {0})
  change_for none now current_password new_password = raise Error.invalid_password_change
  change_for (some user) now current_password new_password = do
    raise_if (not (is_active user.account_status)) Error.invalid_password_change
    raise_if
        (not (password_verifier current_password user.password_hash)
          || password_verifier new_password user.password_hash)
        Error.invalid_password_change
    modify (replace_password user now new_password)

  unfoldable pub change_password : ℕ → ℕ → ℕ → ℕ → Action (Unit {0})
  unfolding change_for
  change_password user_id now current_password new_password =
      transaction
        (λ db. change_for (Users.get_by_id user_id db) now current_password new_password db)

  -- What `change_password` promises: it ends every session of the account, its usable reset codes
  -- and its password; or it raises and changes nothing.
  abbrev pub ChangePromise : ℕ → ℕ → ℕ → ℕ → Db → Result (Unit {0}) × Db → Type 0
  ChangePromise user_id now current_password new_password db (ok _, db') =
      (user : User) × (Users.get_by_id user_id db ≡ some user)
      × (is_active user.account_status ≡ true)
      × (password_verifier current_password user.password_hash ≡ true)
      × (password_verifier new_password user.password_hash ≡ false)
      × (Users.get_by_id user_id db'
          ≡ some (record user { password_hash = password_hasher new_password }))
      × (count (RefreshTokens.is_unrevoked_of user_id) db'.refresh_tokens ≡ 0)
      × (count (ResetCodes.is_active_for user_id now) db'.reset_codes ≡ 0)
      × (select (λ t. not (t.user_id == user_id)) db'.refresh_tokens
          ≡ select (λ t. not (t.user_id == user_id)) db.refresh_tokens)
      × (select (λ c. not (c.user_id == user_id)) db'.reset_codes
          ≡ select (λ c. not (c.user_id == user_id)) db.reset_codes)
      × (select (λ u. not (u.id == user_id)) db'.users
          ≡ select (λ u. not (u.id == user_id)) db.users)
      × (record db' {
        users = db.users;
        refresh_tokens = db.refresh_tokens;
        reset_codes = db.reset_codes;
      }
          ≡ db)
  ChangePromise user_id now current_password new_password db (err e, db') =
      (e ≡ Error.invalid_password_change) × (db' ≡ db)

  replaced-Promise :
      (user_id now current_password new_password : ℕ) (user : User) (db : Db)
      → Users.get_by_id user_id db ≡ some user
      → is_active user.account_status ≡ true
      → password_verifier current_password user.password_hash ≡ true
      → password_verifier new_password user.password_hash ≡ false
      → ChangePromise user_id now current_password new_password db
          (ok tt, replace_password user now new_password db)
  unfolding replace_password Users.get_by_id Users.update_password_hash
      ResetCodes.invalidate_active_for_user RefreshTokens.revoke_all_for_user
      RefreshTokens.is_unrevoked_of ResetCodes.is_active_for RefreshTokens.revoked
  replaced-Promise user_id now current_password new_password user db found active matches differs =
      let same : user.id ≡ user_id =
        ground (arith, first?-holds (Users.has_id user_id) db.users user found) in
      (
        user,
        found,
        active,
        matches,
        differs,
        first?-update (Users.has_id user_id) (Users.has_id user.id)
              (λ u. record u { password_hash = password_hasher new_password }) db.users user
              (λ x. ground arith) found
            ∙ ground (arith, ==_refl user.id),
        count-update_zero (RefreshTokens.is_unrevoked_of user_id)
            (RefreshTokens.is_unrevoked_of user.id) _ db.refresh_tokens (λ x. ground arith),
        count-update_zero (ResetCodes.is_active_for user_id now)
            (ResetCodes.is_active_for user.id now) _ db.reset_codes (λ x. ground arith),
        select-update_other (λ t. not (t.user_id == user_id))
            (RefreshTokens.is_unrevoked_of user.id) _ db.refresh_tokens (λ x h. ground arith)
            (λ x h. ground arith),
        select-update_other (λ c. not (c.user_id == user_id)) (ResetCodes.is_active_for user.id now)
            _ db.reset_codes (λ x h. ground arith) (λ x h. ground arith),
        select-update_other (λ u. not (u.id == user_id)) (Users.has_id user.id) _ db.users
            (λ x h. ground arith) (λ x h. ground arith),
        refl,
      )

  -- A change is made only for an active account, with its current password, to a different one. It
  -- replaces the password, revokes every session of the account, retires its usable reset codes,
  -- and leaves every row of the sessions, codes and users of other accounts and every other table
  -- exactly as they are. Otherwise it raises and changes nothing.
  pub change_password-Promise :
      (user_id now current_password new_password : ℕ) (db : Db)
      → ChangePromise user_id now current_password new_password db
          (change_password user_id now current_password new_password db)
  unfolding change_password
  change_password-Promise user_id now current_password new_password db =
      elim (Option-cases (Users.get_by_id user_id db)) [
        | inl missing ↦ rw (missing, change_password) (refl, refl)
        | inr (user, found) ↦
            rw (found, change_password)
              (elim (Bool-cases (is_active user.account_status)) [
                | inr out ↦ rw out (refl, refl)
                | inl active ↦
                    rw active
                      (elim (Bool-cases (password_verifier current_password user.password_hash)) [
                        | inr wrong ↦ rw wrong (refl, refl)
                        | inl right ↦
                            rw right
                              (elim (Bool-cases
                                (password_verifier new_password user.password_hash)) [
                                  | inl same ↦ rw same (refl, refl)
                                  | inr differs ↦ rw differs (
                                      replaced-Promise user_id now current_password new_password
                                        user db found active right differs)
                                ])
                      ])
              ])
      ]
