-- ===== src/EmailVerification/Once.antt =====
-- After an accepted code: it is spent, the account is verified and has no open challenge. And a
-- right code is accepted.
use unishop_china.Prelude.{
  ℕ, ◌≡◌, refl, subst, ◌∙◌, ◌⊎◌, inl, inr, Bool, true, false, ◌&&◌, not, some, arith, Option-cases,
  ◌==◌, ==_refl,
}
use unishop_china.Prelude.Rows.{update, count}
use unishop_china.Prelude.Rows.Counting.{first?-update, count-le}
use unishop_china.Prelude.Rows.Searching.{count-update_imp, count-add-le, top?-holds, count-pos-top}
use unishop_china.Models.{User, EmailVerificationCode, Db, ProviderCall, log_call}
use unishop_china.Action.{Result, ok, err, Error}
use unishop_china.Repositories.Users
use unishop_china.Repositories.EmailCodes
use unishop_china.Repositories.EmailCodes.{is_open_for, is_other_open, is_available}
use unishop_china.EmailVerification.Service.{
  EmailEnv, eligible, stored_hash, challenge_available, redeem, judge, verify_locked, verify,
}
use unishop_china.EmailVerification.Invariant.{IsValid, has_id}
use unishop_china.EmailVerification.Invariant.{use-IsValid, attempt-IsValid}
use unishop_china.EmailVerification.Redeem.{
  IsRedeemable, redeemed, VerifyPromise, Costs, verify-Promise, verify-accepted, verify-refused,
}

-- The user found before the code was accepted is found afterwards, verified.
redeemed-user :
    (env : EmailEnv) (user_id now : ℕ) (user : User) (challenge : EmailVerificationCode) (db : Db)
    → Users.get_by_id user_id db ≡ some user
    → Users.get_by_id user_id (redeemed env user_id now user challenge db)
      ≡ some (record user { email_verified = true })
unfolding Users.get_by_id Users.mark_email_verified EmailCodes.invalidate_active_for_user
    EmailCodes.consume_if_available
redeemed-user env user_id now user challenge db e =
    first?-update (Users.has_id user_id) (Users.has_id user.id)
      (λ u. record u { email_verified = true }) db.users user (λ x. ground arith) e
    ∙ ground (arith, ==_refl user.id)

-- The same for what `verify` returns, the provider's request included.
accepted-user :
    (env : EmailEnv) (user_id now code : ℕ) (db d db' : Db) (user : User)
    (challenge : EmailVerificationCode)
    → Users.get_by_id user_id db ≡ some user
    → d ≡ redeemed env user_id now user challenge db
    → db' ≡ log_call (ProviderCall.consume_email_code user_id code) d
    → Users.get_by_id user_id db' ≡ some (record user { email_verified = true })
unfolding Users.get_by_id log_call
accepted-user env user_id now code db d db' user challenge found state logged =
    rw (logged, state) (redeemed-user env user_id now user challenge db found)

verified-refused :
    (env : EmailEnv) (user_id now code : ℕ) (db : Db) (user : User)
    → Users.get_by_id user_id db ≡ some user
    → user.email_verified ≡ true
    → verify_locked env user_id now code db ≡ (ok false, db)
unfolding verify_locked judge challenge_available eligible
verified-refused env user_id now code db user found done =
    elim (Option-cases (EmailCodes.get_latest_active_for_user user_id db)) [
      | inl none_open ↦ ground arith
      | inr (challenge, latest) ↦ ground arith
    ]

-- A challenge is not redeemed twice: after a code was accepted, `verify` refuses every code of
-- the account and changes nothing, whatever the time.
verify_once :
    (env : EmailEnv) (user_id now later code code' : ℕ) (db db' : Db)
    → verify env user_id now code db ≡ (ok tt, db')
    → verify env user_id later code' db' ≡ (err Error.email_verification_invalid, db')
verify_once env user_id now later code code' db db' e =
    let (d, (user, challenge, able, matches, state), logged) =
      subst (VerifyPromise env user_id now code db) e (verify-Promise env user_id now code db) in
    verify-refused env user_id later code' db' db' (
      verified-refused env user_id later code' db' (record user { email_verified = true })
        (accepted-user env user_id now code db d db' user challenge able.found state logged) refl)

-- Redeeming the latest open challenge leaves the account no open one.
redeemed-closes :
    (env : EmailEnv) (user_id now : ℕ) (db : Db) (user : User) (challenge : EmailVerificationCode)
    → IsValid env.max_attempts db.email_codes
    → IsRedeemable env user_id now db user challenge
    → count (is_open_for user_id) (redeemed env user_id now user challenge db).email_codes ≡ 0
unfolding EmailCodes.invalidate_active_for_user Users.mark_email_verified
    EmailCodes.consume_if_available is_other_open is_available is_open_for
    EmailCodes.get_latest_active_for_user
redeemed-closes env user_id now db user challenge v able = omega (
  arith,
  v.unique_id challenge.id,
  count-update_imp (is_open_for user_id) (is_other_open user_id challenge.id) open_here spend
      (update available spend db.email_codes) (λ x. ground arith),
  count-update_imp open_here available leftover spend db.email_codes (λ x. ground arith),
  count-add-le leftover available (has_id challenge.id) db.email_codes (λ x. ground arith)
      (λ x. ground arith) (λ x. ground arith),
  count-pos-top EmailCodes.is_newer available (is_open_for user_id) db.email_codes challenge
      able.challenge_found
      (ground (
        arith,
        ==_refl challenge.id,
        top?-holds EmailCodes.is_newer (is_open_for user_id) db.email_codes challenge
            able.challenge_found,
        able.unexpired,
        able.tries_left,
      )),
)
  where
    available : EmailVerificationCode → Bool
    available = is_available challenge.id user_id now env.max_attempts

    spend : EmailVerificationCode → EmailVerificationCode
    spend c = record c { used_at = some now }

    open_here : EmailVerificationCode → Bool
    open_here c = is_open_for user_id c && c.id == challenge.id

    leftover : EmailVerificationCode → Bool
    leftover c = open_here c && not (available c)

-- If the email challenges were well formed before, then after a code was accepted the account's
-- address is verified and it has no open challenge left.
pub verify_closes :
    (env : EmailEnv) (user_id now code : ℕ) (db db' : Db)
    → IsValid env.max_attempts db.email_codes
    → verify env user_id now code db ≡ (ok tt, db')
    → (user : User) × (Users.get_by_id user_id db' ≡ some user)
      × (user.email_verified ≡ true)
      × (count (is_open_for user_id) db'.email_codes ≡ 0)
unfolding log_call
verify_closes env user_id now code db db' v e =
    let (d, (user, challenge, able, matches, state), logged) =
      subst (VerifyPromise env user_id now code db) e (verify-Promise env user_id now code db) in
    (
      record user { email_verified = true },
      accepted-user env user_id now code db d db' user challenge able.found state logged,
      refl,
      rw (logged, state) (redeemed-closes env user_id now db user challenge v able),
    )

-- The right code of a redeemable challenge is accepted, and everything that its acceptance writes
-- is written.
pub verify_accepts :
    (env : EmailEnv) (user_id now code : ℕ) (db : Db) (user : User)
    (challenge : EmailVerificationCode)
    → IsValid env.max_attempts db.email_codes
    → IsRedeemable env user_id now db user challenge
    → env.hash_code code ≡ challenge.code_hash
    → verify env user_id now code db ≡ (
      ok tt,
      log_call
          (ProviderCall.consume_email_code user_id code)
          (redeemed env user_id now user challenge db),
    )
unfolding verify_locked judge redeem challenge_available stored_hash EmailCodes.consume_if_available
    is_available is_open_for EmailCodes.get_latest_active_for_user
verify_accepts env user_id now code db user challenge v able matches =
    verify-accepted env user_id now code db _ (
      ground (
        arith,
        able.found,
        able.challenge_found,
        able.user_eligible,
        able.unexpired,
        able.tries_left,
        matches,
        open_now,
        ==_refl challenge.code_hash,
        one,
      ))
  where
    available : EmailVerificationCode → Bool
    available = is_available challenge.id user_id now env.max_attempts

    open_now : is_open_for user_id challenge ≡ true
    open_now =
        top?-holds EmailCodes.is_newer (is_open_for user_id) db.email_codes challenge
          able.challenge_found

    one : count available db.email_codes ≡ 1
    one = omega (
      arith,
      v.unique_id challenge.id,
      count-le available (has_id challenge.id) db.email_codes (λ x. ground arith),
      count-pos-top EmailCodes.is_newer available (is_open_for user_id) db.email_codes challenge
          able.challenge_found
          (ground (arith, ==_refl challenge.id, open_now, able.unexpired, able.tries_left)),
    )

-- A call of `verify`, accepted or refused, keeps the challenges well formed.
pub verify-IsValid :
    (env : EmailEnv) (user_id now code : ℕ) (db : Db)
    → IsValid env.max_attempts db.email_codes
    → IsValid env.max_attempts (verify env user_id now code db).1.email_codes
unfolding log_call EmailCodes.invalidate_active_for_user EmailCodes.consume_if_available
    EmailCodes.increment_attempts_if_available Users.mark_email_verified
verify-IsValid env user_id now code db v = go _ (verify-Promise env user_id now code db)
  where
    costs :
        (d : Db)
        → (d ≡ db) ⊎ Costs env user_id now code db d
        → IsValid env.max_attempts d.email_codes
    costs d (inl same) = rw same v
    costs d (inr (user, challenge, able, differs, state)) =
        rw state (attempt-IsValid env.max_attempts challenge.id user_id now db.email_codes v)

    go :
        (result : Result (Unit {0}) × Db)
        → VerifyPromise env user_id now code db result
        → IsValid env.max_attempts result.1.email_codes
    go (ok u, d') (d, (user, challenge, able, matches, state), logged) =
        rw (logged, state)
          (use-IsValid env.max_attempts _ now _
            (use-IsValid env.max_attempts _ now db.email_codes v))
    go (err e, d') promise = costs d' promise
