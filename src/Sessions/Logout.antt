-- ===== src/Sessions/Logout.antt =====
-- What the two ways to log out promise.
use unishop_china.Prelude.{
  ℕ, ◌≡◌, ◌≢◌, refl, ap, ◌⊎◌, inl, inr, Option-cases, Bool-cases, true, false, Option, none, some,
  arith, is_nonempty,
}
use unishop_china.Prelude.Rows.{count}
use unishop_china.Prelude.Rows.Counting.{count-update_zero, count-update_eq}
use unishop_china.Models.{RefreshToken, RevocationReason, Db}
use unishop_china.Action.{ok, check-cases}
use unishop_china.Repositories.RefreshTokens.{
  revoked, in_family, revoke_family, get_for_update_by_hash, is_unrevoked_of, revoke_all_for_user,
}
use unishop_china.Sessions.Csrf.{validate_csrf_tokens}
use unishop_china.Sessions.Service.{SessionEnv, logout_current, logout_all}
use unishop_china.Sessions.Invariant.{live_in}
use unishop_china.Sessions.Refresh.{csrf_stored}

module _ (env : SessionEnv) (raw : ℕ) (cookie header : Option ℕ) (now : ℕ) (db : Db) where
  logout_current-revokes :
      (current : RefreshToken)
      → is_nonempty raw ≡ true
      → validate_csrf_tokens env.hash_csrf_token cookie header none ≡ ok tt
      → get_for_update_by_hash (env.hash_refresh_token raw) db ≡ some current
      → validate_csrf_tokens env.hash_csrf_token cookie header (some current.csrf_token_hash)
        ≡ ok tt
      → logout_current env (some raw) cookie header now db
        ≡ (ok tt, revoke_family current.family_id RevocationReason.logout now false db)
  unfolding logout_current
  logout_current-revokes current given plain found csrf = ground arith

  -- A logout leaves the database alone or revokes one family.
  pub logout_current-state :
      ((logout_current env (some raw) cookie header now db).1 ≡ db)
      ⊎ ((f : ℕ) × ((logout_current env (some raw) cookie header now db).1
            ≡ revoke_family f RevocationReason.logout now false db))
  unfolding logout_current
  logout_current-state =
      elim (Option-cases (get_for_update_by_hash (env.hash_refresh_token raw) db)) [
        | inl missing ↦ inl (ground arith)
        | inr (current, found) ↦
            elim (check-cases (
              validate_csrf_tokens env.hash_csrf_token cookie header
                (some current.csrf_token_hash))) [
                  | inr (e, bad) ↦ inl (ground arith)
                  | inl csrf ↦ elim (Bool-cases (is_nonempty raw)) [
                    | inr empty ↦ inl (ground arith)
                    | inl given ↦ inr (
                      current.family_id,
                      ap (λ r. r.1)
                          (logout_current-revokes current given (csrf_stored _ cookie header _ csrf)
                            found csrf),
                    )
                  ]
                ]
      ]

  -- Logging out with a token of the table and its CSRF tokens, also a token that a rotation has
  -- replaced since, leaves no unrevoked token in its family and changes no other family.
  logout_current_ends :
      (current : RefreshToken)
      → is_nonempty raw ≡ true
      → get_for_update_by_hash (env.hash_refresh_token raw) db ≡ some current
      → validate_csrf_tokens env.hash_csrf_token cookie header (some current.csrf_token_hash)
        ≡ ok tt
      → let (r, db') = logout_current env (some raw) cookie header now db in
        (r ≡ ok tt)
        × (count (live_in current.family_id) db'.refresh_tokens ≡ 0)
        × ((f : ℕ)
            → f ≢ current.family_id
            → count (live_in f) db'.refresh_tokens ≡ count (live_in f) db.refresh_tokens)
  unfolding revoke_family in_family revoked
  logout_current_ends current given found csrf =
      rw (logout_current-revokes current given (csrf_stored _ cookie header _ csrf) found csrf) (
        refl,
        count-update_zero _ _ _ db.refresh_tokens (λ x. ground arith),
        λ f ne. count-update_eq _ _ _ db.refresh_tokens (λ x. ground arith),
      )

-- Logging out everywhere leaves the user no unrevoked token, and every other user the same number.
pub logout_all_ends :
    (user_id now : ℕ) (db : Db)
    → let (r, db') = logout_all user_id now db in
      (r ≡ ok tt)
      × (count (is_unrevoked_of user_id) db'.refresh_tokens ≡ 0)
      × ((v : ℕ)
          → v ≢ user_id
          → count (is_unrevoked_of v) db'.refresh_tokens
            ≡ count (is_unrevoked_of v) db.refresh_tokens)
unfolding logout_all revoke_all_for_user is_unrevoked_of revoked
logout_all_ends user_id now db = (
  refl,
  count-update_zero _ _ _ db.refresh_tokens (λ x. ground arith),
  λ v ne. count-update_eq _ _ _ db.refresh_tokens (λ x. ground arith),
)
