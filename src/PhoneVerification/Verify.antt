-- ===== src/PhoneVerification/Verify.antt =====
-- What `verify` promises.
use unishop_china.Prelude.{
  ℕ, ◌<◌, ◌≡◌, ◌≢◌, refl, ◌⊎◌, inl, inr, true, false, none, some, arith, Bool-cases, Option-cases,
  leb, ◌==◌, is_some,
}
use unishop_china.Models.{User, is_active, PhoneVerificationCode, ProviderCall, Db, log_call}
use unishop_china.Action.{Result, ok, err}
use unishop_china.Repositories.Users
use unishop_china.Repositories.PhoneCodes
use unishop_china.PhoneVerification.Service.{
  Outcome, check_code, judge, verify_locked, conclude, verify,
}

-- The account of a number, its latest code, and that the code is still to be tried.
pub record IsOpen (phone_number now : ℕ) (db : Db) (user : User) (code : PhoneVerificationCode)
    : Type 0 where
  pub found : Users.get_by_phone phone_number db ≡ some user
  pub active : is_active user.account_status ≡ true
  pub unverified : user.phone_verified ≡ false
  pub code_found : PhoneCodes.get_latest_for_user user.id db ≡ some code
  pub unused : code.verified_at ≡ none
  pub unexpired : now < code.expires_at
  pub tries_left : code.attempts < 5

module _ (hash_code : ℕ → ℕ) (phone_number now submitted_code : ℕ) (db : Db) where
  abbrev pub Verifies : Db → Type 0
  Verifies db' =
      (user : User) × (code : PhoneVerificationCode) × IsOpen phone_number now db user code
      × (hash_code submitted_code ≡ code.code_hash)
      × (db' ≡ PhoneCodes.mark_verified code now (Users.mark_phone_verified user db))

  abbrev pub Costs : Db → Type 0
  Costs db' =
      (user : User) × (code : PhoneVerificationCode) × IsOpen phone_number now db user code
      × (hash_code submitted_code ≢ code.code_hash)
      × (db' ≡ (PhoneCodes.increment_attempts code.id db).1)

  abbrev pub IsVerified : Type 0
  IsVerified =
      (user : User) × (Users.get_by_phone phone_number db ≡ some user)
      × (is_active user.account_status ≡ true)
      × (user.phone_verified ≡ true)

  abbrev pub Concluded : Outcome × Db → Type 0
  Concluded (Outcome.refused e, db') = (db' ≡ db) ⊎ Costs db'
  Concluded (Outcome.already_verified, db') = IsVerified × (db' ≡ db)
  Concluded (Outcome.verified, db') = Verifies db'

  -- What `verify` promises.
  abbrev pub VerifyPromise : Result (Unit {0}) × Db → Type 0
  VerifyPromise (err e, db') = (db' ≡ db) ⊎ Costs db'
  VerifyPromise (ok _, db') =
      (IsVerified × (db' ≡ db))
      ⊎ ((d : Db) × Verifies d
          × (db' ≡ log_call (ProviderCall.consume_sms_code phone_number submitted_code) d))

  judge-Concluded :
      (user : User)
      → Users.get_by_phone phone_number db ≡ some user
      → is_active user.account_status ≡ true
      → user.phone_verified ≡ false
      → Concluded
          (judge hash_code now submitted_code user (PhoneCodes.get_latest_for_user user.id db) db)
  unfolding judge check_code
  judge-Concluded user found active fresh =
      elim (Option-cases (PhoneCodes.get_latest_for_user user.id db)) [
        | inl missing ↦ rw (missing, judge) (inl refl)
        | inr (code, latest) ↦
            rw (latest, judge)
              (elim (Bool-cases (is_some code.verified_at)) [
                | inl used ↦ rw used (inl refl)
                | inr unused ↦ rw unused (elim (Bool-cases (leb code.expires_at now)) [
                  | inl late ↦ rw late (inl refl)
                  | inr early ↦ rw early (elim (Bool-cases (leb 5 code.attempts)) [
                    | inl tried ↦ rw tried (inl refl)
                    | inr left ↦
                        rw left (elim (Bool-cases (hash_code submitted_code == code.code_hash)) [
                          | inl right ↦ rw right (
                            user,
                            code,
                            is_open code latest unused early left,
                            ground arith,
                            refl,
                          )
                          | inr wrong ↦ rw wrong (
                              inr (
                                user,
                                code,
                                is_open code latest unused early left,
                                ground arith,
                                refl,
                              ))
                        ])
                  ])
                ])
              ])
      ]
    where
      is_open :
          (code : PhoneVerificationCode)
          → PhoneCodes.get_latest_for_user user.id db ≡ some code
          → is_some code.verified_at ≡ false
          → leb code.expires_at now ≡ false
          → leb 5 code.attempts ≡ false
          → IsOpen phone_number now db user code
      is_open code latest unused early left = record {
        found = found;
        active = active;
        unverified = fresh;
        code_found = latest;
        unused = ground arith;
        unexpired = ground arith;
        tries_left = ground arith;
      }

  verify_locked-Concluded : Concluded (verify_locked hash_code phone_number now submitted_code db)
  unfolding verify_locked
  verify_locked-Concluded = elim (Option-cases (Users.get_by_phone phone_number db)) [
    | inl missing ↦ rw (missing, verify_locked) (inl refl)
    | inr (user, found) ↦
        rw (found, verify_locked)
          (elim (Bool-cases (is_active user.account_status)) [
            | inr out ↦ rw out (inl refl)
            | inl active ↦ rw active (elim (Bool-cases user.phone_verified) [
              | inl done ↦ rw done ((user, found, active, done), refl)
              | inr fresh ↦ simp fresh (judge-Concluded user found active fresh)
            ])
          ])
  ]

  conclude-VerifyPromise :
      (result : Outcome × Db)
      → Concluded result
      → VerifyPromise (conclude hash_code phone_number submitted_code result)
  unfolding conclude
  conclude-VerifyPromise (Outcome.refused e, db') c = c
  conclude-VerifyPromise (Outcome.already_verified, db') c = inl c
  conclude-VerifyPromise (Outcome.verified, db') c = inr (db', c, refl)

  -- A call of `verify` succeeds only where the number's active account is verified already, and
  -- then it changes nothing, or with the digest of the account's latest code, not used before,
  -- unexpired and with attempts left; then the number and the code are marked verified and the
  -- provider is told. A refused call changes nothing, or costs that code an attempt.
  pub phone_verify-Promise : VerifyPromise (verify hash_code phone_number now submitted_code db)
  unfolding verify
  phone_verify-Promise =
      conclude-VerifyPromise (verify_locked hash_code phone_number now submitted_code db)
        verify_locked-Concluded
