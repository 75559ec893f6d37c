-- ===== src/EmailVerification/Redeem.antt =====
-- What `verify` promises: when a code is accepted, what its acceptance writes, and what a refusal
-- writes.
use unishop_china.Prelude.{
  ℕ, ◌<◌, ◌≡◌, ◌≢◌, refl, sym, subst, ◌⊎◌, inl, inr, Bool, true, false, some, arith, Bool-cases,
  Option-cases, ◌==◌,
}
use unishop_china.Models.{User, EmailVerificationCode, Db, ProviderCall, log_call}
use unishop_china.Action.{Result, ok, err, Error}
use unishop_china.Repositories.Users
use unishop_china.Repositories.EmailCodes
use unishop_china.Repositories.EmailCodes.{is_open_for, is_other_open, is_available}
use unishop_china.EmailVerification.Service.{
  EmailEnv, eligible, stored_hash, challenge_available, redeem, judge, verify_locked, verify,
}

-- The challenge that `verify` looks at, and that it may be redeemed.
pub record IsRedeemable (env : EmailEnv) (user_id now : ℕ) (db : Db) (user : User)
    (challenge : EmailVerificationCode) : Type 0 where
  pub found : Users.get_by_id user_id db ≡ some user
  pub challenge_found : EmailCodes.get_latest_active_for_user user_id db ≡ some challenge
  pub user_eligible : eligible (some user) ≡ true
  pub unexpired : now < challenge.expires_at
  pub tries_left : challenge.attempts < env.max_attempts

-- What an accepted code writes before the provider is told.
abbrev pub redeemed : EmailEnv → ℕ → ℕ → User → EmailVerificationCode → Db → Db
redeemed env user_id now user challenge db =
    EmailCodes.invalidate_active_for_user user_id now challenge.id (
      Users.mark_email_verified user
        (EmailCodes.consume_if_available challenge.id user_id now env.max_attempts db).1)

module _ (env : EmailEnv) (user_id now submitted_code : ℕ) (db : Db) where
  -- An accepted code.
  abbrev pub Accepts : Db → Type 0
  Accepts db' =
      (user : User) × (challenge : EmailVerificationCode) × IsRedeemable env user_id now db user
        challenge
      × (env.hash_code submitted_code ≡ challenge.code_hash)
      × (db' ≡ redeemed env user_id now user challenge db)

  -- A refused code that cost an attempt.
  abbrev pub Costs : Db → Type 0
  Costs db' =
      (user : User) × (challenge : EmailVerificationCode) × IsRedeemable env user_id now db user
        challenge
      × (env.hash_code submitted_code ≢ challenge.code_hash)
      × (db'
          ≡ EmailCodes.increment_attempts_if_available challenge.id user_id now env.max_attempts db)

  abbrev pub Judged : Result Bool × Db → Type 0
  Judged (ok true, db') = Accepts db'
  Judged (ok false, db') = (db' ≡ db) ⊎ Costs db'
  Judged (err e, db') = Unit

  -- What `verify` promises: accepted, and then only the provider is told; or refused, at the cost
  -- of an attempt or of nothing.
  abbrev pub VerifyPromise : Result (Unit {0}) × Db → Type 0
  VerifyPromise (ok _, db') =
      (d : Db) × Accepts d
      × (db' ≡ log_call (ProviderCall.consume_email_code user_id submitted_code) d)
  VerifyPromise (err e, db') = (db' ≡ db) ⊎ Costs db'

  judge-Judged :
      (user : User) (challenge : EmailVerificationCode)
      → Users.get_by_id user_id db ≡ some user
      → EmailCodes.get_latest_active_for_user user_id db ≡ some challenge
      → Judged (judge env user_id now submitted_code (some user) (some challenge) db)
  unfolding judge redeem challenge_available stored_hash
  judge-Judged user challenge found latest =
      elim (Bool-cases (challenge_available env now (eligible (some user)) challenge)) [
        | inr out ↦ rw out (inl refl)
        | inl able ↦
            rw able
              (elim (Bool-cases (
                env.hash_code submitted_code
                == stored_hash env (eligible (some user)) (some challenge))) [
                  | inr wrong ↦
                      rw wrong (inr (user, challenge, redeemable able, ground arith, refl))
                  | inl right ↦
                      rw right
                        (elim (Bool-cases (
                          (EmailCodes.consume_if_available challenge.id user_id now env.max_attempts
                            db).0
                          == 1)) [
                            | inl one ↦
                                rw one (user, challenge, redeemable able, ground arith, refl)
                            | inr other ↦ rw other tt
                          ])
                ])
      ]
    where
      redeemable :
          challenge_available env now (eligible (some user)) challenge ≡ true
          → IsRedeemable env user_id now db user challenge
      redeemable able = record {
        found = found;
        challenge_found = latest;
        user_eligible = ground arith;
        unexpired = ground arith;
        tries_left = ground arith;
      }

  pub verify_locked-Judged : Judged (verify_locked env user_id now submitted_code db)
  unfolding verify_locked judge eligible challenge_available
  verify_locked-Judged = elim (Option-cases (EmailCodes.get_latest_active_for_user user_id db)) [
    | inl none_open ↦ rw (none_open, verify_locked) (inl refl)
    | inr (challenge, latest) ↦ elim (Option-cases (Users.get_by_id user_id db)) [
      | inl missing ↦ rw (missing, latest, verify_locked) (inl refl)
      | inr (user, found) ↦
          rw (found, latest, verify_locked) (judge-Judged user challenge found latest)
    ]
  ]

  pub verify-accepted :
      (d : Db)
      → verify_locked env user_id now submitted_code db ≡ (ok true, d)
      → verify env user_id now submitted_code db
        ≡ (ok tt, log_call (ProviderCall.consume_email_code user_id submitted_code) d)
  unfolding verify
  verify-accepted d e = ground arith

  pub verify-refused :
      (d : Db)
      → verify_locked env user_id now submitted_code db ≡ (ok false, d)
      → verify env user_id now submitted_code db ≡ (err Error.email_verification_invalid, d)
  unfolding verify
  verify-refused d e = ground arith

  pub verify-raised :
      (x : Error) (d : Db)
      → verify_locked env user_id now submitted_code db ≡ (err x, d)
      → verify env user_id now submitted_code db ≡ (err x, db)
  unfolding verify
  verify-raised x d e = ground arith

  -- A code is accepted only from an eligible account, for its latest open challenge, unexpired,
  -- with attempts left, and with the digest of the challenge; the challenge is consumed, the
  -- address is marked verified, the account's other open challenges are retired, and the provider
  -- is told. A refused call changes nothing, or costs that challenge an attempt.
  pub verify-Promise : VerifyPromise (verify env user_id now submitted_code db)
  verify-Promise = go _ _ refl verify_locked-Judged
    where
      go :
          (r : Result Bool) (d : Db)
          → verify_locked env user_id now submitted_code db ≡ (r, d)
          → Judged (r, d)
          → VerifyPromise (verify env user_id now submitted_code db)
      go (ok true) d e j = subst VerifyPromise (sym (verify-accepted d e)) (d, j, refl)
      go (ok false) d e j = subst VerifyPromise (sym (verify-refused d e)) j
      go (err x) d e j = subst VerifyPromise (sym (verify-raised x d e)) (inl refl)
