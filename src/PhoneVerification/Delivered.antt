-- ===== src/PhoneVerification/Delivered.antt =====
-- A delivered SMS code verifies, and a code that was not delivered does not.
use unishop_china.Prelude.{
  ◌⊎◌, ℕ, ◌+◌, ◌-◌, ◌<◌, ◌≤◌, ◌≡◌, refl, sym, subst, ap, ◌∙◌, inl, inr, true, false, some, arith,
  Option-cases, ◌==◌, ==_refl,
}
use unishop_china.Prelude.Rows.{top?, select, first?}
use unishop_china.Prelude.Rows.Searching.{top?-update}
use unishop_china.Models.{
  is_delivered, User, is_active, PhoneVerificationCode, Db, Delivery, log_call, seconds, minutes,
}
use unishop_china.Action.{Result, ok, err, Error}
use unishop_china.Repositories.Users
use unishop_china.Repositories.PhoneCodes
use unishop_china.PhoneVerification.Service.{
  CodeDraw, expire_unsent_code, check_cooldown, check_hourly_limit, may_resend, issue_for, issue,
  after_issue, resend, check_code, judge, verify_locked, conclude, verify,
}
use unishop_china.PhoneVerification.Resend.{MayIssue, code_of, told, resend-state}

-- The code drawn is newer than the codes that the account has.
abbrev pub IsNewest : User → CodeDraw → Db → Type 0
IsNewest user draw db =
    (c : PhoneVerificationCode)
    → PhoneCodes.get_latest_for_user user.id db ≡ some c
    → c.created_at < draw.created_at

module _ (hash_code : ℕ → ℕ) (phone_number now : ℕ) (draw : CodeDraw) (user : User) where
  issues :
      (db : Db)
      → MayIssue hash_code phone_number now draw db user
      → issue hash_code phone_number now draw db
        ≡ (ok true, PhoneCodes.create_code (code_of hash_code phone_number now draw user) db)
  unfolding issue issue_for may_resend check_cooldown check_hourly_limit
  issues db may = elim (Option-cases (PhoneCodes.get_latest_for_phone phone_number db)) [
    | inl new ↦ ground (arith, may.found, may.active, may.unverified, may.below_limit)
    | inr (latest, e) ↦
        ground (arith, may.found, may.active, may.unverified, may.below_limit, may.cooled latest e)
  ]

  told-latest :
      (db : Db)
      → IsNewest user draw db
      → PhoneCodes.get_latest_for_user user.id (told hash_code phone_number now draw user db)
        ≡ some (code_of hash_code phone_number now draw user)
  unfolding PhoneCodes.get_latest_for_user PhoneCodes.create_code PhoneCodes.new_code
      PhoneCodes.is_newer log_call top? select
  told-latest db newest = elim (Option-cases (PhoneCodes.get_latest_for_user user.id db)) [
    | inl new ↦ ground (arith, ==_refl user.id)
    | inr (latest, e) ↦ ground (arith, ==_refl user.id, newest latest e)
  ]

  told-found :
      (db : Db)
      → Users.get_by_phone phone_number (told hash_code phone_number now draw user db)
        ≡ Users.get_by_phone phone_number db
  unfolding Users.get_by_phone log_call PhoneCodes.create_code
  told-found db = refl

  accepts :
      (later : ℕ) (db : Db)
      → Users.get_by_phone phone_number db ≡ some user
      → is_active user.account_status ≡ true
      → user.phone_verified ≡ false
      → PhoneCodes.get_latest_for_user user.id db
        ≡ some (code_of hash_code phone_number now draw user)
      → later < now + minutes 10
      → (verify hash_code phone_number later draw.raw_code db).0 ≡ ok tt
  unfolding verify conclude verify_locked judge check_code PhoneCodes.new_code
  accepts later db found active fresh latest early =
      ground (arith, ==_refl (hash_code draw.raw_code))

  -- A delivered code verifies: where the conditions of a request hold and the code drawn is newer
  -- than the account's codes, the request succeeds, and `verify` with that code, within ten minutes
  -- of it, succeeds in the database that it leaves, if nothing is committed between.
  pub resend_delivered :
      (later failed_at : ℕ) (db : Db)
      → MayIssue hash_code phone_number now draw db user
      → IsNewest user draw db
      → later < now + minutes 10
      → let (r, db') =
          resend true true hash_code phone_number now draw
            (λ d. d)
            Delivery.delivered
            failed_at
            db in
        (r ≡ ok 600) × ((verify hash_code phone_number later draw.raw_code db').0 ≡ ok tt)
  unfolding after_issue
  resend_delivered later failed_at db may newest early =
      let e =
        resend-state hash_code phone_number now draw (λ d. d) Delivery.delivered failed_at _ db _
          (issues db may) in
      (
        ap (λ (x : Result ℕ × Db). x.0) e,
        ap (λ (x : Result ℕ × Db). (verify hash_code phone_number later draw.raw_code x.1).0) e
            ∙ accepts later (told hash_code phone_number now draw user db)
                (told-found db ∙ may.found) may.active may.unverified (told-latest db newest) early,
      )

  -- The state that a failed delivery leaves.
  abbrev withdrawn : ℕ → Db → Db
  withdrawn failed_at db =
      PhoneCodes.expire_code (code_of hash_code phone_number now draw user) (failed_at - seconds 1)
        (told hash_code phone_number now draw user db)

  withdraws :
      (failed_at : ℕ) (db : Db)
      → expire_unsent_code draw.code_id failed_at (told hash_code phone_number now draw user db)
        ≡ withdrawn failed_at db
  unfolding expire_unsent_code PhoneCodes.get_by_id log_call PhoneCodes.create_code
      PhoneCodes.new_code first?
  withdraws failed_at db = ground (arith, ==_refl draw.code_id)

  withdrawn-latest :
      (failed_at : ℕ) (db : Db)
      → IsNewest user draw db
      → PhoneCodes.get_latest_for_user user.id (withdrawn failed_at db)
        ≡ some (record (code_of hash_code phone_number now draw user) {
          expires_at = failed_at - seconds 1;
        })
  unfolding PhoneCodes.get_latest_for_user PhoneCodes.expire_code PhoneCodes.is_newer
      PhoneCodes.new_code
  withdrawn-latest failed_at db newest =
      (top?-update PhoneCodes.is_newer (λ c. c.user_id == user.id) (PhoneCodes.has_id draw.code_id)
          (λ c. record c { expires_at = failed_at - seconds 1 })
          (told hash_code phone_number now draw user db).phone_codes (λ x. ground arith)
          (λ x y. ground arith)).1
        (code_of hash_code phone_number now draw user) (told-latest db newest)
      ∙ ground (arith, ==_refl draw.code_id)

  expired :
      (later failed_at c : ℕ) (db : Db)
      → Users.get_by_phone phone_number db ≡ some user
      → is_active user.account_status ≡ true
      → user.phone_verified ≡ false
      → PhoneCodes.get_latest_for_user user.id db
        ≡ some (record (code_of hash_code phone_number now draw user) {
          expires_at = failed_at - seconds 1;
        })
      → failed_at ≤ later
      → verify hash_code phone_number later c db ≡ (err Error.verification_code_expired, db)
  unfolding verify conclude verify_locked judge PhoneCodes.new_code
  expired later failed_at c db found active fresh latest after = ground (arith, ==_refl c)

  withdrawn-found :
      (failed_at : ℕ) (db : Db)
      → Users.get_by_phone phone_number (withdrawn failed_at db)
        ≡ Users.get_by_phone phone_number db
  unfolding Users.get_by_phone log_call PhoneCodes.create_code PhoneCodes.expire_code
  withdrawn-found failed_at db = refl

  unconfirmed_lem :
      (answer : Delivery) (failed_at : ℕ) (db : Db)
      → is_delivered answer ≡ false
      → after_issue phone_number draw
          (λ d. d)
          answer
          failed_at
          true
          (PhoneCodes.create_code (code_of hash_code phone_number now draw user) db)
        ≡ (
          err Error.sms_provider_unavailable,
          expire_unsent_code draw.code_id failed_at (told hash_code phone_number now draw user db),
        )
  unfolding after_issue
  unconfirmed_lem answer failed_at db silent = ground arith

  -- A code that was not delivered does not verify: under the same conditions, where the provider
  -- raises or answers without confirming, the request raises, and from the time of the failure on `verify` refuses
  -- every code of the number as expired in the database that it leaves, and changes nothing.
  pub resend_undelivered :
      (answer : Delivery) (later failed_at c : ℕ) (db : Db)
      → (answer ≡ Delivery.failed) ⊎ (answer ≡ Delivery.undelivered)
      → MayIssue hash_code phone_number now draw db user
      → IsNewest user draw db
      → failed_at ≤ later
      → let (r, db') =
          resend true true hash_code phone_number now draw (λ d. d) answer failed_at db in
        (r ≡ err Error.sms_provider_unavailable)
        × (verify hash_code phone_number later c db' ≡ (err Error.verification_code_expired, db'))
  unfolding after_issue
  resend_undelivered answer later failed_at c db unconfirmed may newest after =
      let silent : is_delivered answer ≡ false = elim unconfirmed [
        | inl raised ↦ rw raised refl
        | inr unanswered ↦ rw unanswered refl
      ] in
      let e : resend true true hash_code phone_number now draw (λ d. d) answer failed_at db
          ≡ (err Error.sms_provider_unavailable, withdrawn failed_at db) =
        resend-state hash_code phone_number now draw (λ d. d) answer failed_at _ db _
          (issues db may)
        ∙ unconfirmed_lem answer failed_at db silent
        ∙ ap (λ (d : Db). (err Error.sms_provider_unavailable, d)) (withdraws failed_at db) in
      (
        ap (λ (x : Result ℕ × Db). x.0) e,
        subst
            (λ (x : Result ℕ × Db).
              verify hash_code phone_number later c x.1
              ≡ (err Error.verification_code_expired, x.1))
            (sym e)
            (expired later failed_at c (withdrawn failed_at db)
              (withdrawn-found failed_at db ∙ may.found) may.active may.unverified
              (withdrawn-latest failed_at db newest) after),
      )
