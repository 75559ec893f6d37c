-- ===== src/PhoneVerification/Resend.antt =====
-- What `resend` promises; a delivered code verifies, and a code that was not delivered does not.
use unishop_china.Prelude.{
  ℕ, ◌+◌, ◌-◌, ◌<◌, ◌≤◌, ◌≡◌, refl, sym, subst, ◌⊎◌, inl, inr, Bool, true, false, Option, none,
  some, arith, Bool-cases, Option-cases,
}
use unishop_china.Models.{
  User, is_active, PhoneVerificationCode, Db, Delivery, is_delivered, ProviderCall, log_call,
  seconds, minutes, hours,
}
use unishop_china.Action.{Result, ok, err, Error, check-cases}
use unishop_china.Repositories.Users
use unishop_china.Repositories.PhoneCodes
use unishop_china.PhoneVerification.Service.{
  CodeDraw, expire_unsent_code, check_cooldown, check_hourly_limit, may_resend, issue_for, issue,
  after_issue, resend,
}

module _ (hash_code : ℕ → ℕ) (phone_number now : ℕ) (draw : CodeDraw) where
  -- The conditions under which `resend` stores a code.
  pub record MayIssue (db : Db) (user : User) : Type 0 where
    pub found : Users.get_by_phone phone_number db ≡ some user
    pub active : is_active user.account_status ≡ true
    pub unverified : user.phone_verified ≡ false
    pub cooled :
        (latest : PhoneVerificationCode)
        → PhoneCodes.get_latest_for_phone phone_number db ≡ some latest
        → latest.created_at + seconds 60 ≤ now
    pub below_limit : PhoneCodes.count_created_since phone_number (now - hours 1) db < 5

  abbrev pub code_of : User → PhoneVerificationCode
  code_of user =
      PhoneCodes.new_code draw.code_id draw.created_at user.id phone_number
        (hash_code draw.raw_code) (now + minutes 10)

  -- What the provider finds.
  abbrev pub told : User → Db → Db
  told user db =
      log_call (ProviderCall.send_sms_code phone_number draw.raw_code)
        (PhoneCodes.create_code (code_of user) db)

  abbrev pub Issued : Db → Result Bool × Db → Type 0
  Issued db (ok false, db') = db' ≡ db
  Issued db (ok true, db') =
      (user : User) × MayIssue db user × (db' ≡ PhoneCodes.create_code (code_of user) db)
  Issued db (err e, db') = Unit

  cooldown_lem :
      (latest? : Option PhoneVerificationCode)
      → check_cooldown now latest? ≡ ok tt
      → (latest : PhoneVerificationCode) → latest? ≡ some latest
      → latest.created_at + seconds 60 ≤ now
  unfolding check_cooldown
  cooldown_lem none h latest e = cc
  cooldown_lem (some c) h latest e = ground arith

  hourly_limit_lem :
      (db : Db)
      → check_hourly_limit phone_number now db ≡ ok tt
      → PhoneCodes.count_created_since phone_number (now - hours 1) db < 5
  unfolding check_hourly_limit
  hourly_limit_lem db h = ground arith

  issue-Issued : (db : Db) → Issued db (issue hash_code phone_number now draw db)
  unfolding issue issue_for may_resend
  issue-Issued db = elim (Option-cases (Users.get_by_phone phone_number db)) [
    | inl missing ↦ rw (missing, issue) refl
    | inr (user, found) ↦
        rw (found, issue)
          (elim (Bool-cases (may_resend user)) [
            | inr out ↦ rw out refl
            | inl able ↦
                rw able
                  (elim (check-cases
                    (check_cooldown now (PhoneCodes.get_latest_for_phone phone_number db))) [
                      | inr (e, hot) ↦ rw hot tt
                      | inl cool ↦
                          rw cool (elim (check-cases (check_hourly_limit phone_number now db)) [
                            | inr (e, over) ↦ rw over tt
                            | inl below ↦ rw below (
                              user,
                              record {
                                found = found;
                                active = ground arith;
                                unverified = ground arith;
                                cooled = cooldown_lem _ cool;
                                below_limit = hourly_limit_lem db below;
                              },
                              refl,
                            )
                          ])
                    ])
          ])
  ]

  module _ (meanwhile : Db → Db) (answer : Delivery) (failed_at : ℕ) where
    -- What `resend` promises where the provider is enabled and available.
    abbrev pub ResendPromise : Db → Result ℕ × Db → Type 0
    ResendPromise db (ok seconds_left, db') =
        (db' ≡ db)
        ⊎ ((user : User) × MayIssue db user
            × (is_delivered answer ≡ true)
            × (db' ≡ meanwhile (told user db)))
    ResendPromise db (err e, db') =
        (db' ≡ db)
        ⊎ ((user : User) × MayIssue db user
            × (is_delivered answer ≡ false)
            × (e ≡ Error.sms_provider_unavailable)
            × (db' ≡ expire_unsent_code draw.code_id failed_at (meanwhile (told user db))))

    pub resend-state :
        (r : Result Bool) (db db1 : Db)
        → issue hash_code phone_number now draw db ≡ (r, db1)
        → resend true true hash_code phone_number now draw meanwhile answer failed_at db ≡ elim r [
          | ok issued ↦ after_issue phone_number draw meanwhile answer failed_at issued db1
          | err e ↦ (err e, db)
        ]
    unfolding resend
    resend-state (ok issued) db db1 e = ground arith
    resend-state (err x) db db1 e = ground arith

    -- A request for an SMS code, the provider being enabled and available, stores a code only for an
    -- active account whose number is not verified, sixty seconds after the number's latest code and
    -- with fewer than five codes in the last hour, and asks the provider to send it. Where the
    -- delivery is not confirmed it raises and the code is made expired. Every other request changes
    -- nothing.
    resend-Promise :
        (db : Db)
        → ResendPromise db
            (resend true true hash_code phone_number now draw meanwhile answer failed_at db)
    unfolding after_issue
    resend-Promise db = go _ _ refl (issue-Issued db)
      where
        go :
            (r : Result Bool) (db1 : Db)
            → issue hash_code phone_number now draw db ≡ (r, db1)
            → Issued db (r, db1)
            → ResendPromise db
                (resend true true hash_code phone_number now draw meanwhile answer failed_at db)
        go (err x) db1 e i =
            subst (ResendPromise db) (sym (resend-state (err x) db db1 e)) (inl refl)
        go (ok false) db1 e i =
            subst (ResendPromise db) (sym (resend-state (ok false) db db1 e)) (inl i)
        go (ok true) db1 e (user, may, state) =
            subst (ResendPromise db) (sym (resend-state (ok true) db db1 e))
              (elim (Bool-cases (is_delivered answer)) [
                | inl confirmed ↦ rw confirmed (inr (user, may, confirmed, rw state refl))
                | inr unconfirmed ↦
                    rw unconfirmed (inr (user, may, unconfirmed, refl, rw state refl))
              ])
