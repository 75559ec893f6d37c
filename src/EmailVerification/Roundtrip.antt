-- ===== src/EmailVerification/Roundtrip.antt =====
-- A challenge that was requested and delivered is the one open challenge, and its code verifies.
use unishop_china.Prelude.{
  ℕ, ◌+◌, ◌-◌, ◌<◌, ◌≤◌, ◌≡◌, refl, subst, ap, ◌∙◌, inl, inr, true, ◌&&◌, Option, none, some, arith,
  Option-cases, ==_refl,
}
use unishop_china.Prelude.Rows.{update, count, top?, select}
use unishop_china.Prelude.Rows.Counting.{count-le, count-update_eq, first?-holds}
use unishop_china.Prelude.Rows.Searching.{top?-none, count-update_imp}
use unishop_china.Models.{
  User, EmailVerificationCode, Db, Delivery, ProviderCall, log_call, seconds, minutes, hours,
}
use unishop_china.Action.{Result, ok}
use unishop_china.Repositories.Users
use unishop_china.Repositories.EmailCodes
use unishop_china.Repositories.EmailCodes.{
  is_open_for, is_other_open, is_pending, may_activate, is_available,
}
use unishop_china.EmailVerification.Service
use unishop_china.EmailVerification.Service.{
  EmailEnv, CodeDraw, Pending, eligible, email_of, check_cooldown, check_hourly_limit,
  store_challenge, issue_for, issue, activate_if, after_activation, activate_or_cancel, activate,
  deliver, confirm, resend, after_issue, resend_result, verify,
}
use unishop_china.EmailVerification.Issue.{challenge_of}
use unishop_china.EmailVerification.Invariant.{IsValid, has_id}
use unishop_china.EmailVerification.Keeps.{resend-IsValid}
use unishop_china.EmailVerification.Redeem.{IsRedeemable}
use unishop_china.EmailVerification.Once.{verify_accepts}

-- The conditions under which `resend` makes a challenge.
pub record MayResend (env : EmailEnv) (user_id now : ℕ) (draw : CodeDraw) (db : Db) (user : User)
    : Type 0 where
  pub found : Users.get_by_id user_id db ≡ some user
  pub user_eligible : eligible (some user) ≡ true
  pub provider : env.provider_enabled && env.provider_available ≡ true
  pub cooled :
      (latest : EmailVerificationCode)
      → EmailCodes.get_latest_created_for_user user.id db ≡ some latest
      → latest.created_at + seconds env.cooldown_seconds ≤ now
  pub below_limit :
      EmailCodes.count_created_since user.id (now - hours 1) db < env.hourly_limit_requests
  pub six_digits : draw.is_valid_code ≡ true

module _ (env : EmailEnv) (user_id now : ℕ) (draw : CodeDraw) (user : User) where
  abbrev pending : Pending
  pending = record {
    pending_code_id = draw.code_id;
    raw_code = draw.raw_code;
    destination = email_of user;
    expires_at = now + minutes env.code_expiry_minutes;
  }

  abbrev stored : Db → Db
  stored db = EmailCodes.create_pending (challenge_of env user now draw) db

  abbrev opened : EmailVerificationCode
  opened = record (challenge_of env user now draw) { activated_at = some now }

  cools :
      (latest? : Option EmailVerificationCode)
      → ((latest : EmailVerificationCode)
          → latest? ≡ some latest
          → latest.created_at + seconds env.cooldown_seconds ≤ now)
      → check_cooldown env now latest? ≡ ok tt
  unfolding check_cooldown
  cools none cool = refl
  cools (some c) cool = ground (arith, cool c refl)

  below :
      (db : Db)
      → EmailCodes.count_created_since user.id (now - hours 1) db < env.hourly_limit_requests
      → check_hourly_limit env user.id now db ≡ ok tt
  unfolding check_hourly_limit
  below db h = ground arith

  issues :
      (db : Db)
      → MayResend env user_id now draw db user
      → issue env user_id now draw db ≡ (ok (some pending), stored db)
  unfolding issue issue_for store_challenge
  issues db may = ground (
    arith,
    may.found,
    may.user_eligible,
    may.provider,
    may.six_digits,
    cools _ may.cooled,
    below db may.below_limit,
  )

  stored-latest :
      (db : Db)
      → MayResend env user_id now draw db user
      → 0 < env.cooldown_seconds
      → EmailCodes.get_latest_created_for_user user.id (stored db)
        ≡ some (challenge_of env user now draw)
  unfolding EmailCodes.get_latest_created_for_user EmailCodes.create_pending EmailCodes.new_pending
      top? select EmailCodes.is_newer seconds
  stored-latest db may positive =
      elim (Option-cases (EmailCodes.get_latest_created_for_user user.id db)) [
        | inl new ↦ ground (arith, ==_refl user.id)
        | inr (latest, e) ↦ ground (arith, ==_refl user.id, may.cooled latest e)
      ]

  -- What the provider finds, and the state that the confirmed delivery leaves.
  abbrev told : Db → Db
  told db =
      log_call
        (ProviderCall.deliver_email_code user_id (email_of user) draw.raw_code
          (now + minutes env.code_expiry_minutes))
        (stored db)

  abbrev confirmed : Db → Db
  confirmed db =
      EmailCodes.invalidate_active_for_user user_id now draw.code_id
        (EmailCodes.activate_pending draw.code_id user_id now (told db)).1

  one_pending :
      (db : Db)
      → user.id ≡ user_id
      → 0 < env.code_expiry_minutes
      → count (has_id draw.code_id) db.email_codes ≡ 0
      → count (may_activate draw.code_id user_id now) (stored db).email_codes ≡ 1
  unfolding count may_activate is_pending EmailCodes.create_pending EmailCodes.new_pending minutes
  one_pending db same positive fresh = ground (
    arith,
    ==_refl draw.code_id,
    count-le (may_activate draw.code_id user_id now) (has_id draw.code_id) db.email_codes
        (λ x. ground arith),
  )

  same_email :
      (u : User) → eligible (some u) ≡ true → Service.has_email (some u) (email_of u) ≡ true
  unfolding eligible
  same_email u e = elim (Option-cases u.email) [
    | inl absent ↦ ground arith
    | inr (address, set) ↦ ground (arith, ==_refl address)
  ]

  activates :
      (db : Db)
      → MayResend env user_id now draw db user
      → user.id ≡ user_id
      → 0 < env.cooldown_seconds
      → 0 < env.code_expiry_minutes
      → count (has_id draw.code_id) db.email_codes ≡ 0
      → activate user_id now pending (told db) ≡ (ok true, confirmed db)
  unfolding activate activate_or_cancel activate_if after_activation log_call Users.get_by_id
      EmailCodes.get_latest_created_for_user EmailCodes.activate_pending EmailCodes.create_pending
      EmailCodes.new_pending
  activates db may same cool positive fresh = ground (
    arith,
    may.found,
    may.user_eligible,
    same,
    same_email user may.user_eligible,
    stored-latest db may cool,
    ==_refl draw.code_id,
    one_pending db same positive fresh,
  )

  confirms :
      (db : Db)
      → MayResend env user_id now draw db user
      → user.id ≡ user_id
      → 0 < env.cooldown_seconds
      → 0 < env.code_expiry_minutes
      → count (has_id draw.code_id) db.email_codes ≡ 0
      → resend env user_id now draw (λ d. d) Delivery.delivered db
        ≡ (ok (resend_result env), confirmed db)
  unfolding resend after_issue deliver confirm
  confirms db may same cool positive fresh =
      ground (arith, issues db may, activates db may same cool positive fresh)

  confirmed-latest :
      (db : Db)
      → user.id ≡ user_id
      → 0 < env.code_expiry_minutes
      → count (has_id draw.code_id) db.email_codes ≡ 0
      → EmailCodes.get_latest_active_for_user user_id (confirmed db) ≡ some opened
  unfolding EmailCodes.get_latest_active_for_user EmailCodes.invalidate_active_for_user
      EmailCodes.activate_pending EmailCodes.create_pending EmailCodes.new_pending log_call top?
      select update is_open_for is_other_open may_activate is_pending minutes
  confirmed-latest db same positive fresh =
      let marked =
        update (may_activate draw.code_id user_id now) (λ c. record c { activated_at = some now })
          db.email_codes in
      let rest =
        update (is_other_open user_id draw.code_id) (λ c. record c { used_at = some now }) marked in
      ground (
        arith,
        same,
        ==_refl draw.code_id,
        ==_refl user.id,
        top?-none EmailCodes.is_newer (is_open_for user_id) rest (
            omega (
              arith,
              fresh,
              count-update_imp (is_open_for user_id) (is_other_open user_id draw.code_id)
                  (has_id draw.code_id) (λ c. record c { used_at = some now }) marked
                  (λ x. ground arith),
              count-update_eq (has_id draw.code_id) (may_activate draw.code_id user_id now)
                  (λ c. record c { activated_at = some now }) db.email_codes (λ x. ground arith),
            )),
      )

  redeemable :
      (db : Db) (later : ℕ)
      → MayResend env user_id now draw db user
      → user.id ≡ user_id
      → 0 < env.code_expiry_minutes
      → 0 < env.max_attempts
      → count (has_id draw.code_id) db.email_codes ≡ 0
      → later < now + minutes env.code_expiry_minutes
      → IsRedeemable env user_id later (confirmed db) user opened
  unfolding EmailCodes.invalidate_active_for_user EmailCodes.activate_pending
      EmailCodes.create_pending EmailCodes.new_pending log_call Users.get_by_id
  redeemable db later may same positive tries fresh early = record {
    found = may.found;
    challenge_found = confirmed-latest db same positive fresh;
    user_eligible = may.user_eligible;
    unexpired = early;
    tries_left = tries;
  }

-- A delivered code verifies: where the conditions of a request hold, the challenges are well formed
-- and the key drawn for the new one is new, and the cooldown, the expiry and the attempts are
-- positive, the request succeeds and leaves a database in which `verify` with that code, before its
-- expiry, succeeds, if nothing is committed between.
pub resend_verifies :
    (env : EmailEnv) (user_id now later : ℕ) (draw : CodeDraw) (user : User) (db : Db)
    → MayResend env user_id now draw db user
    → IsValid env.max_attempts db.email_codes
    → count (has_id draw.code_id) db.email_codes ≡ 0
    → 0 < env.cooldown_seconds
    → 0 < env.code_expiry_minutes
    → 0 < env.max_attempts
    → later < now + minutes env.code_expiry_minutes
    → let (r, db') = resend env user_id now draw (λ d. d) Delivery.delivered db in
      (r ≡ ok (resend_result env)) × ((verify env user_id later draw.raw_code db').0 ≡ ok tt)
unfolding Users.get_by_id EmailCodes.new_pending
resend_verifies env user_id now later draw user db may v fresh cool positive tries early =
    let same : user.id ≡ user_id =
      ground (arith, first?-holds (Users.has_id user_id) db.users user may.found) in
    let e = confirms env user_id now draw user db may same cool positive fresh in
    (
      ap (λ (x : Result ℕ × Db). x.0) e,
      ap (λ (x : Result ℕ × Db). (verify env user_id later draw.raw_code x.1).0) e
          ∙ ap (λ (x : Result (Unit {0}) × Db). x.0)
              (verify_accepts env user_id later draw.raw_code _ user _
                (subst (λ (x : Result ℕ × Db). IsValid env.max_attempts x.1.email_codes) e
                  (resend-IsValid env env.max_attempts user_id now (λ d. d) Delivery.delivered draw
                    db (λ d w. w) fresh v))
                (redeemable env user_id now draw user db later may same positive tries fresh early)
                refl),
    )
