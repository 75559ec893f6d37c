-- ===== src/PhoneVerification/Exhaustion.antt =====
-- A code cannot be guessed for longer than its attempts last, and a verified number stays verified.
use unishop_china.Prelude.{
  ℕ, suc, ◌+◌, ◌<◌, ◌≤◌, ◌≡◌, ◌≢◌, refl, sym, subst, ap, ◌∙◌, inl, inr, true, false, none, some,
  List, [], ◌∷◌, arith, Bool-cases, leb, ◌==◌, ==_refl,
}
use unishop_china.Prelude.Rows.{All}
use unishop_china.Prelude.Rows.Counting.{first?-update}
use unishop_china.Prelude.Rows.Searching.{top?-update}
use unishop_china.Models.{User, is_active, PhoneVerificationCode, Db, log_call}
use unishop_china.Action.{Result, ok, err, Error}
use unishop_china.Repositories.Users
use unishop_china.Repositories.PhoneCodes
use unishop_china.PhoneVerification.Service.{check_code, judge, verify_locked, conclude, verify}
use unishop_china.PhoneVerification.Verify.{VerifyPromise, phone_verify-Promise}

-- An unused latest code of an account that is active and not verified.
pub record IsTriable (phone_number : ℕ) (db : Db) (user : User) (code : PhoneVerificationCode)
    : Type 0 where
  pub found : Users.get_by_phone phone_number db ≡ some user
  pub active : is_active user.account_status ≡ true
  pub unverified : user.phone_verified ≡ false
  pub code_found : PhoneCodes.get_latest_for_user user.id db ≡ some code
  pub unused : code.verified_at ≡ none

-- A code that was submitted, and when.
pub record Try : Type 0 where
  pub time : ℕ
  pub submitted_code : ℕ

abbrev pub length : List Try → ℕ
length [] = 0
length (w ∷ ws) = suc (length ws)

module _ (hash_code : ℕ → ℕ) (phone_number : ℕ) where
  -- The state after one call of `verify` for each try.
  unfoldable pub verify_all : List Try → Db → Db
  verify_all [] db = db
  verify_all (w ∷ ws) db =
      verify_all ws (verify hash_code phone_number w.time w.submitted_code db).1

  -- A try before the expiry that does not have the digest of the code.
  abbrev pub Misses : PhoneVerificationCode → Try → Type 0
  Misses code w = (w.time < code.expires_at) × (hash_code w.submitted_code ≢ code.code_hash)

  exhausted-refused :
      (now c : ℕ) (db : Db) (user : User) (code : PhoneVerificationCode)
      → IsTriable phone_number db user code
      → now < code.expires_at
      → 5 ≤ code.attempts
      → verify hash_code phone_number now c db ≡ (err Error.verification_attempts_exceeded, db)
  unfolding verify conclude verify_locked judge
  exhausted-refused now c db user code t early full =
      ground (arith, t.found, t.active, t.unverified, t.code_found, t.unused)

  wrong-costs :
      (w : Try) (db : Db) (user : User) (code : PhoneVerificationCode)
      → IsTriable phone_number db user code
      → code.attempts < 5
      → Misses code w
      → (verify hash_code phone_number w.time w.submitted_code db).1
        ≡ (PhoneCodes.increment_attempts code.id db).1
  unfolding verify conclude verify_locked judge check_code
  wrong-costs w db user code t left (early, wrong) =
      ground (arith, t.found, t.active, t.unverified, t.code_found, t.unused)

  incremented-IsTriable :
      (db : Db) (user : User) (code : PhoneVerificationCode)
      → IsTriable phone_number db user code
      → IsTriable phone_number
          (PhoneCodes.increment_attempts code.id db).1
          user
          (record code { attempts = code.attempts + 1 })
  unfolding PhoneCodes.increment_attempts PhoneCodes.get_latest_for_user PhoneCodes.is_newer
      Users.get_by_phone
  incremented-IsTriable db user code t = record {
    found = t.found;
    active = t.active;
    unverified = t.unverified;
    code_found =
        (top?-update PhoneCodes.is_newer (λ c. c.user_id == user.id) (PhoneCodes.has_id code.id)
            (λ c. record c { attempts = c.attempts + 1 }) db.phone_codes (λ x. ground arith)
            (λ x y. ground arith)).1
          code t.code_found
        ∙ ground (arith, ==_refl code.id);
    unused = t.unused;
  }

  -- Guessing is bounded: after wrong codes that use up the five attempts of the latest code of an
  -- active account that is not verified, each tried before the code's expiry, every further code
  -- that is tried before it is refused, the right one too, and changes nothing.
  pub verify_exhausted :
      (wrong : List Try) (now c : ℕ) (db : Db) (user : User) (code : PhoneVerificationCode)
      → IsTriable phone_number db user code
      → All (Misses code) wrong
      → 5 ≤ code.attempts + length wrong
      → now < code.expires_at
      → verify hash_code phone_number now c (verify_all wrong db)
        ≡ (err Error.verification_attempts_exceeded, verify_all wrong db)
  unfolding verify_all
  verify_exhausted [] now c db user code t misses full early =
      exhausted-refused now c db user code t early (omega arith)
  verify_exhausted (w ∷ wrong) now c db user code t (miss, misses) full early =
      elim (Bool-cases (leb 5 code.attempts)) [
        | inl done ↦
            subst Stays
              (sym (
                ap (λ (x : Result (Unit {0}) × Db). x.1)
                  (exhausted-refused w.time w.submitted_code db user code t miss.0 (ground arith))))
              (verify_exhausted wrong now c db user code t misses (ground arith) early)
        | inr left ↦ subst Stays (sym (wrong-costs w db user code t (ground arith) miss)) (
            verify_exhausted wrong now c (PhoneCodes.increment_attempts code.id db).1 user
              (record code { attempts = code.attempts + 1 }) (incremented-IsTriable db user code t)
              misses (omega arith) early)
      ]
    where
      Stays : Db → Type 0
      Stays d =
          verify hash_code phone_number now c (verify_all wrong d)
          ≡ (err Error.verification_attempts_exceeded, verify_all wrong d)

module _ (hash_code : ℕ → ℕ) (phone_number now : ℕ) where
  already-verified :
      (later c : ℕ) (db : Db) (user : User)
      → Users.get_by_phone phone_number db ≡ some user
      → is_active user.account_status ≡ true
      → user.phone_verified ≡ true
      → verify hash_code phone_number later c db ≡ (ok tt, db)
  unfolding verify conclude verify_locked
  already-verified later c db user found active done = ground arith

  verified-user :
      (db : Db) (user : User) (code : PhoneVerificationCode)
      → Users.get_by_phone phone_number db ≡ some user
      → Users.get_by_phone phone_number
          (PhoneCodes.mark_verified code now (Users.mark_phone_verified user db))
        ≡ some (record user { phone_verified = true })
  unfolding Users.get_by_phone Users.mark_phone_verified PhoneCodes.mark_verified
  verified-user db user code e =
      first?-update (λ u. Users.eq_column u.phone_number phone_number) (Users.has_id user.id)
        (λ u. record u { phone_verified = true }) db.users user (λ x. ground arith) e
      ∙ ground (arith, ==_refl user.id)

  -- After a successful `verify` the number's account is verified, and every further `verify` of the
  -- number, with whatever code and at whatever time, succeeds and changes nothing.
  pub verify_settled :
      (c later c' : ℕ) (db db' : Db)
      → verify hash_code phone_number now c db ≡ (ok tt, db')
      → ((user : User) × (Users.get_by_phone phone_number db' ≡ some user)
          × (user.phone_verified ≡ true))
        × (verify hash_code phone_number later c' db' ≡ (ok tt, db'))
  unfolding log_call Users.get_by_phone
  verify_settled c later c' db db' e = go (
      subst (VerifyPromise hash_code phone_number now c db) e
        (phone_verify-Promise hash_code phone_number now c db))
    where
      go :
          VerifyPromise hash_code phone_number now c db (ok tt, db')
          → ((user : User) × (Users.get_by_phone phone_number db' ≡ some user)
              × (user.phone_verified ≡ true))
            × (verify hash_code phone_number later c' db' ≡ (ok tt, db'))
      go (inl ((user, found, active, done), same)) =
          let found' : Users.get_by_phone phone_number db' ≡ some user =
            ap (Users.get_by_phone phone_number) same ∙ found in
          ((user, found', done), already-verified later c' db' user found' active done)
      go (inr (d, (user, code, able, matches, state), logged)) =
          let found' : Users.get_by_phone phone_number db'
              ≡ some (record user { phone_verified = true }) =
            ap (Users.get_by_phone phone_number) logged
            ∙ ap (Users.get_by_phone phone_number) state
            ∙ verified-user db user code able.found in
          (
            (record user { phone_verified = true }, found', refl),
            already-verified later c' db' _ found' able.active refl,
          )
