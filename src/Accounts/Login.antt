-- ===== src/Accounts/Login.antt =====
-- What the login promises.
use unishop_china.Prelude.{
  ℕ, ◌≡◌, refl, ◌⊎◌, inl, inr, Bool, true, false, some, arith, Option-cases,
}
use unishop_china.Models.{User, is_active, IdentifierKind, Db}
use unishop_china.Action.{Result, ok, err, Error, transaction}
use unishop_china.Repositories.Users
use unishop_china.Sessions.Service.{SessionEnv, Draw}
use unishop_china.Sessions.Login.{IsLogin}
use unishop_china.Accounts.Service.{
  AuthenticationResult, safe_user, verified_hash, complete_login, check_credentials, authenticate,
}

module _ (env : SessionEnv) (password_verifier : ℕ → ℕ → Bool) (dummy_password_hash : ℕ)
    (kind : IdentifierKind) (identifier password now family_id : ℕ) (draws : ℕ → Draw)
    (db : Db) where
  -- What the login promises.
  abbrev pub AuthPromise : Result AuthenticationResult × Db → Type 0
  AuthPromise (ok r, db') =
      (user : User) × (Users.find kind identifier db ≡ some user)
      × (password_verifier password user.password_hash ≡ true)
      × (is_active user.account_status ≡ true)
      × (r.user ≡ safe_user user db)
      × (r.access_token ≡ env.create_access_token user.id)
      × IsLogin env user.id now family_id db r.cookies db'
  AuthPromise (err e, db') = db' ≡ db

  -- The session of a login.
  abbrev Opened : User → Result AuthenticationResult × Db → Type 0
  Opened user (ok r, db') =
      (r.user ≡ safe_user user db)
      × (r.access_token ≡ env.create_access_token user.id)
      × IsLogin env user.id now family_id db r.cookies db'
  Opened user (err e, db') = Unit

  -- An identifier without an account, a wrong password and an account that is not active are
  -- refused with the same error, and nothing changes.
  pub authenticate_refused :
      ((user : User)
        → Users.find kind identifier db ≡ some user
        → (password_verifier password user.password_hash ≡ false)
          ⊎ (is_active user.account_status ≡ false))
      → authenticate env password_verifier dummy_password_hash kind identifier password now
          family_id draws db
        ≡ (err Error.invalid_credentials, db)
  unfolding authenticate check_credentials verified_hash
  authenticate_refused bad = elim (Option-cases (Users.find kind identifier db)) [
    | inl missing ↦ ground arith
    | inr (user, found) ↦ elim (bad user found) [
      | inl wrong ↦ ground arith
      | inr inactive ↦ ground arith
    ]
  ]

  -- The right password of an active account leads to the session.
  pub authenticate_accepted :
      (user : User)
      → Users.find kind identifier db ≡ some user
      → password_verifier password user.password_hash ≡ true
      → is_active user.account_status ≡ true
      → authenticate env password_verifier dummy_password_hash kind identifier password now
          family_id draws db
        ≡ transaction
            (complete_login env password_verifier dummy_password_hash user now family_id draws)
            db
  unfolding authenticate check_credentials verified_hash
  authenticate_accepted user found right active =
      rw (found, verified_hash, check_credentials, right, active) refl
