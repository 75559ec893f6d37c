-- ===== src/Sessions/Progress.antt =====
-- When a rotation goes through.
use unishop_china.Prelude.{
  ℕ, ◌+◌, ◌<◌, ◌≤◌, ◌≡◌, true, false, Option, none, some, arith, is_nonempty, min, leb,
}
use unishop_china.Models.{RefreshToken, User, is_active, Db, days}
use unishop_china.Action.{ok}
use unishop_china.Repositories.Users
use unishop_china.Repositories.RefreshTokens.{get_for_update_by_hash, mark_token_rotated}
use unishop_china.Sessions.Csrf.{validate_csrf_tokens}
use unishop_china.Sessions.Service.{
  SessionEnv, Draw, RefreshAccessResult, drawn_record, drawn_material, try_draw,
  create_token_record, rotate_session, rotate_locked,
}
use unishop_china.Sessions.Creation.{create_attempts_first}
use unishop_china.Sessions.Refresh.{rotate_session-finish, csrf_stored}

module _ (env : SessionEnv) (raw : ℕ) (cookie header : Option ℕ) (now : ℕ) (draws : ℕ → Draw)
    (db : Db) (current : RefreshToken) (user : User) (k : ℕ) (added : Db) where
  -- The expiry of the new row.
  abbrev pub next_expiry : ℕ
  next_expiry = min (now + days env.refresh_token_expire_days) current.family_expires_at

  abbrev pub round : ℕ → Option Db
  round j =
      try_draw env current.user_id current.family_id current.family_expires_at next_expiry now
        (draws (0 + j)) db

  abbrev pub rotated_cookies : RefreshAccessResult
  rotated_cookies = record {
    access_token = env.create_access_token current.user_id;
    expires_in = env.expires_in_seconds;
    cookies =
        drawn_material env current.user_id current.family_id current.family_expires_at next_expiry
          now (draws (0 + k));
  }

  create_token_record-made :
      1 ≤ env.refresh_token_expire_days
      → now < current.family_expires_at
      → k < env.collision_attempts
      → ((j : ℕ) → j < k → round j ≡ none)
      → round k ≡ some added
      → create_token_record env current.user_id current.family_id current.family_expires_at now
          draws db
        ≡ (
          ok (
            drawn_record env current.user_id current.family_id current.family_expires_at next_expiry
                now
                (draws (0 + k)),
            drawn_material env current.user_id current.family_id current.family_expires_at
                next_expiry now
                (draws (0 + k)),
          ),
          added,
        )
  unfolding create_token_record days
  create_token_record-made lasts fe inside before fits =
      let open_window : leb next_expiry now ≡ false = ground arith in
      rw open_window (
        create_attempts_first env current.user_id current.family_id current.family_expires_at
          next_expiry now env.collision_attempts 0 k draws db added inside before fits)

  -- A live token of an active account, presented with its CSRF tokens, is rotated, if one of the
  -- permitted rounds of the token generator gives a new digest and key: the call returns the
  -- cookies of the first such round, and the presented row is marked as replaced by its row.
  pub rotate_session_succeeds :
      is_nonempty raw ≡ true
      → get_for_update_by_hash (env.hash_refresh_token raw) db ≡ some current
      → validate_csrf_tokens env.hash_csrf_token cookie header (some current.csrf_token_hash)
        ≡ ok tt
      → current.revoked_at ≡ none
      → now < current.expires_at
      → now < current.family_expires_at
      → Users.get_by_id current.user_id db ≡ some user
      → is_active user.account_status ≡ true
      → 1 ≤ env.refresh_token_expire_days
      → k < env.collision_attempts
      → ((j : ℕ) → j < k → round j ≡ none)
      → round k ≡ some added
      → rotate_session env raw cookie header now draws db
        ≡ (ok rotated_cookies, mark_token_rotated current (draws (0 + k)).record_id now added)
  unfolding rotate_locked drawn_record
  rotate_session_succeeds given found csrf unrevoked ue fe owner act lasts inside before fits =
      rotate_session-finish env raw cookie header now draws db (ok (some _)) _ given
        (csrf_stored _ cookie header _ csrf)
        (ground (arith, create_token_record-made lasts fe inside before fits))
