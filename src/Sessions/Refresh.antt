-- ===== src/Sessions/Refresh.antt =====
-- What `rotate_session` promises its callers.
use unishop_china.Prelude.{
  ◌==◌, not, ℕ, ◌≡◌, refl, sym, subst, ◌⊎◌, inl, inr, true, false, Option, none, some, arith,
  Bool-cases, is_some, is_nonempty,
}
use unishop_china.Prelude.Rows.{select, count}
use unishop_china.Prelude.Rows.Selecting.{select-update_other}
use unishop_china.Prelude.Rows.Counting.{count-update_zero}
use unishop_china.Models.{RefreshToken, RevocationReason, Db}
use unishop_china.Action.{Result, ok, err, Error, check-cases}
use unishop_china.Repositories.RefreshTokens.{
  revoked, in_family, get_for_update_by_hash, revoke_family,
}
use unishop_china.Sessions.Csrf.{validate_csrf_tokens}
use unishop_china.Sessions.Service.{
  SessionEnv, Draw, AuthCookieMaterial, RefreshAccessResult, rotate_session, rotate_locked,
  rotation_result,
}
use unishop_china.Sessions.Invariant.{live_in}
use unishop_china.Sessions.Rotation.{IsRotation, Revokes, Outcome, rotate_locked-Outcome}

-- A check against the stored digest that passes makes the check without it pass.
pub csrf_stored :
    (hash_csrf_token : ℕ → ℕ) (cookie header : Option ℕ) (stored : Option ℕ)
    → validate_csrf_tokens hash_csrf_token cookie header stored ≡ ok tt
    → validate_csrf_tokens hash_csrf_token cookie header none ≡ ok tt
unfolding validate_csrf_tokens
csrf_stored h cookie header stored e = ground arith

module _ (env : SessionEnv) (raw : ℕ) (cookie header : Option ℕ) (now : ℕ) where
  abbrev pub Promise : Db → Result RefreshAccessResult × Db → Type 0
  Promise db (ok res, db') =
      (user_id : ℕ) × (res.access_token ≡ env.create_access_token user_id)
      × IsRotation env (env.hash_refresh_token raw) cookie header now db res.cookies user_id db'
  Promise db (err e, db') = (db' ≡ db) ⊎ Revokes now db db'

  -- How `rotate_session` ends, from how the body of its transaction ended.
  abbrev finish :
      Db → Result (Option (AuthCookieMaterial × ℕ)) × Db → Result RefreshAccessResult × Db
  finish db (ok outcome, db') = (rotation_result env outcome, db')
  finish db (err e, db') = (err e, db)

  finish-Promise :
      (db : Db) (r : Result (Option (AuthCookieMaterial × ℕ)) × Db)
      → Outcome env (env.hash_refresh_token raw) cookie header now db r
      → Promise db (finish db r)
  finish-Promise db (ok none, db') o = o
  finish-Promise db (ok (some (m, u)), db') o = (u, refl, o)
  finish-Promise db (err e, db') o = inl refl

  module _ (draws : ℕ → Draw) (db : Db) where
    pub rotate_session-refused :
        is_nonempty raw ≡ false
        → rotate_session env raw cookie header now draws db ≡ (err Error.session_refresh, db)
    unfolding rotate_session
    rotate_session-refused h = ground arith

    pub rotate_session-unverified :
        (e : Error)
        → is_nonempty raw ≡ true
        → validate_csrf_tokens env.hash_csrf_token cookie header none ≡ err e
        → rotate_session env raw cookie header now draws db ≡ (err e, db)
    unfolding rotate_session
    rotate_session-unverified e h bad = ground arith

    pub rotate_session-finish :
        (r : Result (Option (AuthCookieMaterial × ℕ))) (db' : Db)
        → is_nonempty raw ≡ true
        → validate_csrf_tokens env.hash_csrf_token cookie header none ≡ ok tt
        → rotate_locked env (env.hash_refresh_token raw) cookie header now draws db ≡ (r, db')
        → rotate_session env raw cookie header now draws db ≡ finish db (r, db')
    unfolding rotate_session
    rotate_session-finish r db' h good e = ground arith

    -- A rotation that returns has revoked the presented token of an active account as rotated, has
    -- noted its successor, and has added that token, of the same family, with the family's deadline;
    -- it has written nothing else, and the access token is for that account. One that raises has
    -- left the database alone or has revoked tokens, and has written nothing else.
    pub rotate_session-Promise : Promise db (rotate_session env raw cookie header now draws db)
    rotate_session-Promise = elim (Bool-cases (is_nonempty raw)) [
      | inr empty ↦ subst (Promise db) (sym (rotate_session-refused empty)) (inl refl)
      | inl given ↦
          elim (check-cases (validate_csrf_tokens env.hash_csrf_token cookie header none)) [
            | inr (e, bad) ↦
                subst (Promise db) (sym (rotate_session-unverified e given bad)) (inl refl)
            | inl good ↦ subst (Promise db) (sym (rotate_session-finish _ _ given good refl)) (
                finish-Promise db _ (
                  rotate_locked-Outcome env (env.hash_refresh_token raw) cookie header now draws
                    db))
          ]
    ]

    pub rotate_session-reused :
        (current : RefreshToken)
        → is_nonempty raw ≡ true
        → get_for_update_by_hash (env.hash_refresh_token raw) db ≡ some current
        → validate_csrf_tokens env.hash_csrf_token cookie header (some current.csrf_token_hash)
          ≡ ok tt
        → is_some current.revoked_at ≡ true
        → rotate_session env raw cookie header now draws db ≡ (
          err Error.session_refresh,
          revoke_family current.family_id RevocationReason.reuse_detected now true db,
        )
    unfolding rotate_locked
    rotate_session-reused current given found csrf used =
        rotate_session-finish (ok none)
          (revoke_family current.family_id RevocationReason.reuse_detected now true db) given
          (csrf_stored _ cookie header _ csrf) (ground arith)

    -- Reuse detection: a token that was already rotated or revoked, presented with the right CSRF
    -- tokens, is refused, and afterwards no token of its family is unrevoked; the rows of the tokens
    -- of other families are exactly those that were there, and no other table is changed.
    pub rotate_session_reuse :
        (current : RefreshToken)
        → is_nonempty raw ≡ true
        → get_for_update_by_hash (env.hash_refresh_token raw) db ≡ some current
        → validate_csrf_tokens env.hash_csrf_token cookie header (some current.csrf_token_hash)
          ≡ ok tt
        → is_some current.revoked_at ≡ true
        → let (r, db') = rotate_session env raw cookie header now draws db in
          (r ≡ err Error.session_refresh)
          × (count (live_in current.family_id) db'.refresh_tokens ≡ 0)
          × (select (λ t. not (t.family_id == current.family_id)) db'.refresh_tokens
              ≡ select (λ t. not (t.family_id == current.family_id)) db.refresh_tokens)
          × (record db' { refresh_tokens = db.refresh_tokens } ≡ db)
    unfolding revoke_family in_family revoked
    rotate_session_reuse current given found csrf used =
        rw (rotate_session-reused current given found csrf used) (
          refl,
          count-update_zero _ _ _ db.refresh_tokens (λ x. ground arith),
          select-update_other _ _ _ db.refresh_tokens (λ x h. ground arith) (λ x h. ground arith),
          refl,
        )
