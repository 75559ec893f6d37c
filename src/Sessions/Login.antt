-- ===== src/Sessions/Login.antt =====
-- What `create_login_session` promises: a new family, and the limit on the active ones.
use unishop_china.Prelude.{
  ℕ, ◌+◌, ◌<◌, ◌≤◌, ◌≡◌, refl, sym, subst, ap, ◌∙◌, inl, inr, true, false, none, some, ◌∷◌, arith,
  Bool-cases, Option-cases, min,
}
use unishop_china.Models.{RefreshToken, User, is_active, Db, days}
use unishop_china.Action.{Result, ok, err, Error}
use unishop_china.Repositories.Users
use unishop_china.Repositories.RefreshTokens.{count_active_families}
use unishop_china.Sessions.Service.{
  SessionEnv, Draw, AuthCookieMaterial, create_token_record, revoke_oldest, families_to_revoke,
  create_login_session,
}
use unishop_china.Sessions.Creation.{Adds, CreatedLive, create_token_record-CreatedLive}
use unishop_china.Sessions.Families.{count-revoke_oldest, active_families-cons}

-- A login that returned, with the state that the loop left and the row that was added to it.
pub record IsLogin (env : SessionEnv) (user_id now family_id : ℕ) (db : Db) (m : AuthCookieMaterial)
    (db' : Db) : Type 0 where
  pub user : User
  pub token : RefreshToken
  pub trimmed : Db
  pub owner : Users.get_by_id user_id db ≡ some user
  pub owner_active : is_active user.account_status ≡ true
  pub trims :
      trimmed
      ≡ revoke_oldest user_id now (families_to_revoke env (count_active_families user_id now db)) db
  pub adds : Adds trimmed token db'
  pub of_user : token.user_id ≡ user_id
  pub of_family : token.family_id ≡ family_id
  pub deadline : token.family_expires_at ≡ now + days env.refresh_session_absolute_days
  pub expiry :
      token.expires_at ≡ min (now + days env.refresh_token_expire_days) token.family_expires_at
  pub unexpired : now < token.expires_at
  pub live : token.revoked_at ≡ none
  pub cookie_token : token.token_hash ≡ env.hash_refresh_token m.refresh_token

count_active-Adds :
    (user_id now : ℕ) (db : Db) (t : RefreshToken) (db' : Db)
    → Adds db t db'
    → count_active_families user_id now db' ≤ count_active_families user_id now db + 1
unfolding count_active_families
count_active-Adds user_id now db t db' a =
    rw a.state (active_families-cons user_id now t db.refresh_tokens)

module _ (env : SessionEnv) (user_id now family_id : ℕ) where
  abbrev pub LoginPromise : Db → Result AuthCookieMaterial × Db → Type 0
  LoginPromise db (ok m, db') = IsLogin env user_id now family_id db m db'
  LoginPromise db (err e, db') = Unit

  module _ (draws : ℕ → Draw) (db : Db) where
    trimmed_db : Db
    trimmed_db =
        revoke_oldest user_id now (families_to_revoke env (count_active_families user_id now db)) db

    login-missing :
        Users.get_by_id user_id db ≡ none
        → create_login_session env user_id now family_id draws db ≡ (err Error.session_refresh, db)
    unfolding create_login_session
    login-missing e = ground arith

    login-inactive :
        (user : User)
        → Users.get_by_id user_id db ≡ some user
        → is_active user.account_status ≡ false
        → create_login_session env user_id now family_id draws db ≡ (err Error.session_refresh, db)
    unfolding create_login_session
    login-inactive user e inactive = ground arith

    -- What follows the creation of the row.
    abbrev cookies_of :
        Result (RefreshToken × AuthCookieMaterial) × Db → Result AuthCookieMaterial × Db
    cookies_of (ok (t, m), db') = (ok m, db')
    cookies_of (err e, db') = (err e, db')

    login-active :
        (user : User) (r : Result (RefreshToken × AuthCookieMaterial)) (db' : Db)
        → Users.get_by_id user_id db ≡ some user
        → is_active user.account_status ≡ true
        → create_token_record env user_id family_id
            (now + days env.refresh_session_absolute_days)
            now
            draws
            trimmed_db
          ≡ (r, db')
        → create_login_session env user_id now family_id draws db ≡ cookies_of (r, db')
    unfolding create_login_session trimmed_db
    login-active user r db' e act made = ground arith

    created-Promise :
        (user : User) (r : Result (RefreshToken × AuthCookieMaterial) × Db)
        → Users.get_by_id user_id db ≡ some user
        → is_active user.account_status ≡ true
        → CreatedLive env user_id family_id
            (now + days env.refresh_session_absolute_days)
            now
            trimmed_db
            r
        → LoginPromise db (cookies_of r)
    unfolding trimmed_db
    created-Promise user (ok (t, m), db') e act (a, su, sf, sd, se, le, lr, th, ch) = record {
      user = user;
      token = t;
      trimmed = trimmed_db;
      owner = e;
      owner_active = act;
      trims = refl;
      adds = a;
      of_user = su;
      of_family = sf;
      deadline = sd;
      expiry = ground arith;
      unexpired = le;
      live = lr;
      cookie_token = th;
    }
    created-Promise user (err x, db') e act c = tt

    -- A login session that is returned belongs to an active account and is of the family asked
    -- for.
    pub create_login_session-Promise :
        LoginPromise db (create_login_session env user_id now family_id draws db)
    create_login_session-Promise = elim (Option-cases (Users.get_by_id user_id db)) [
      | inl e ↦ subst (LoginPromise db) (sym (login-missing e)) tt
      | inr (user, e) ↦ elim (Bool-cases (is_active user.account_status)) [
        | inr inactive ↦ subst (LoginPromise db) (sym (login-inactive user e inactive)) tt
        | inl act ↦ subst (LoginPromise db) (sym (login-active user _ _ e act refl)) (
            created-Promise user _ e act (
              create_token_record-CreatedLive env user_id family_id
                (now + days env.refresh_session_absolute_days) now draws trimmed_db))
      ]
    ]

    -- The limit on sessions: after a login that returned, the user has at most the configured
    -- number of active families, and if there was room for one more, no token was revoked to make
    -- room.
    pub create_login_session_limit :
        (m : AuthCookieMaterial) (db' : Db)
        → 1 ≤ env.max_active_session_families_per_user
        → create_login_session env user_id now family_id draws db ≡ (ok m, db')
        → (count_active_families user_id now db' ≤ env.max_active_session_families_per_user)
          × (count_active_families user_id now db < env.max_active_session_families_per_user
              → (t : RefreshToken) × (db'.refresh_tokens ≡ t ∷ db.refresh_tokens))
    unfolding families_to_revoke revoke_oldest
    create_login_session_limit m db' pos e =
        let login : IsLogin env user_id now family_id db m db' =
          subst (LoginPromise db) e create_login_session-Promise in
        (limit_of login pos, λ room. (login.token, unrevoked login room))
      where
        limit_of :
            (login : IsLogin env user_id now family_id db m db')
            → 1 ≤ env.max_active_session_families_per_user
            → count_active_families user_id now db' ≤ env.max_active_session_families_per_user
        limit_of login pos = omega (
          arith,
          count_active-Adds user_id now login.trimmed login.token db' login.adds,
          ap (count_active_families user_id now) login.trims,
          count-revoke_oldest user_id now
              (families_to_revoke env (count_active_families user_id now db)) db,
        )

        unrevoked :
            (login : IsLogin env user_id now family_id db m db')
            → count_active_families user_id now db < env.max_active_session_families_per_user
            → db'.refresh_tokens ≡ login.token ∷ db.refresh_tokens
        unrevoked login room =
            let none_over : families_to_revoke env (count_active_families user_id now db) ≡ 0 =
              omega arith in
            ap (λ d. d.refresh_tokens) login.adds.state
            ∙ ap (λ d. login.token ∷ d.refresh_tokens)
                (login.trims ∙ ap (λ n. revoke_oldest user_id now n db) none_over)
