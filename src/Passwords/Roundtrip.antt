-- ===== src/Passwords/Roundtrip.antt =====
-- A code that was requested and confirmed can be redeemed.
use unishop_china.Prelude.{
  ℕ, ◌+◌, ◌<◌, ◌≡◌, refl, ap, ◌∙◌, inl, inr, Bool, true, none, some, arith, Option-cases, ◌==◌,
  ==_refl,
}
use unishop_china.Prelude.Rows.{update, count, top?, select}
use unishop_china.Prelude.Rows.Counting.{count-update_eq}
use unishop_china.Prelude.Rows.Searching.{top?-update, count-update_imp}
use unishop_china.Models.{
  User, is_active, PasswordResetCode, IdentifierKind, Db, Delivery, ProviderCall, log_call, seconds,
  minutes,
}
use unishop_china.Action.{Result, ok}
use unishop_china.Repositories.Users
use unishop_china.Repositories.ResetCodes
use unishop_china.Passwords.Service.{
  ResetEnv, ResetDraw, is_active_account, may_issue, store_pending, may_request, workload_user_id,
  issue, may_activate, activate, request_reset, stored_hash, challenge_is_available, redeem, judge,
  reset_locked, reset_password,
}
use unishop_china.Passwords.Request.{MayIssue, pending_of, request-issued, after_issue-state}
use unishop_china.Passwords.Completion.{redeemed, reset-accepted}

abbrev has_id : ℕ → PasswordResetCode → Bool
has_id code_id c = c.id == code_id

module _ (env : ResetEnv) (kind : IdentifierKind) (identifier now : ℕ) (draw : ResetDraw)
    (user : User) where
  -- The code that is stored, and the code that the confirmation makes of it.
  abbrev stored : PasswordResetCode
  stored =
      ResetCodes.new_pending draw.code_id user.id (env.hash_code draw.raw_code)
        (now + minutes env.code_expiry_minutes) now

  abbrev usable : PasswordResetCode
  usable = record stored { used_at = none }

  issues :
      (db : Db)
      → MayIssue env kind identifier now draw db user
      → issue env kind identifier now draw db ≡ (
        ok (some (pending_of env kind identifier now draw user)),
        store_pending env user now draw db,
      )
  unfolding issue may_request is_active_account workload_user_id may_issue
  issues db may = elim (Option-cases (ResetCodes.get_latest_for_user user.id db)) [
    | inl new ↦ ground (arith, may.found, may.active, may.provider, may.below_limit)
    | inr (latest, e) ↦
        ground (arith, may.found, may.active, may.provider, may.below_limit, may.cooled latest e)
  ]

  stored-latest :
      (db : Db)
      → MayIssue env kind identifier now draw db user
      → 0 < env.cooldown_seconds
      → ResetCodes.get_latest_for_user user.id (store_pending env user now draw db) ≡ some stored
  unfolding store_pending ResetCodes.get_latest_for_user ResetCodes.create_pending
      ResetCodes.new_pending ResetCodes.invalidate_active_for_user top? select ResetCodes.is_newer
      seconds
  stored-latest db may positive =
      let (empty, first) =
        top?-update ResetCodes.is_newer (λ c. c.user_id == user.id)
          (ResetCodes.is_active_for user.id now) (λ c. record c { used_at = some now })
          db.reset_codes (λ x. ground arith) (λ x y. ground arith) in
      elim (Option-cases (ResetCodes.get_latest_for_user user.id db)) [
        | inl new ↦ ground (arith, ==_refl user.id, empty new)
        | inr (latest, e) ↦ ground (arith, ==_refl user.id, first latest e, may.cooled latest e)
      ]

  -- The state that the confirmed request leaves.
  abbrev confirmed : Db → Db
  confirmed db = ResetCodes.activate_pending draw.code_id (
      log_call
        (ProviderCall.deliver_reset_code kind identifier draw.raw_code
          (now + minutes env.code_expiry_minutes))
        (store_pending env user now draw db))

  confirms :
      (db : Db)
      → MayIssue env kind identifier now draw db user
      → Users.get_by_id user.id db ≡ some user
      → 0 < env.cooldown_seconds
      → request_reset env kind identifier now draw (λ d. d) Delivery.delivered db
        ≡ (ok tt, confirmed db)
  unfolding activate may_activate log_call store_pending Users.get_by_id
      ResetCodes.get_latest_for_user ResetCodes.create_pending ResetCodes.new_pending
      ResetCodes.invalidate_active_for_user
  confirms db may found positive =
      request-issued env kind identifier now draw (λ d. d) Delivery.delivered _ db _ (issues db may)
      ∙ after_issue-state env kind identifier now draw (λ d. d) Delivery.delivered _ _
      ∙ ground (
        arith,
        may.active,
        ==_refl user.password_hash,
        ==_refl draw.code_id,
        stored-latest db may positive,
      )

  confirmed-latest :
      (db : Db)
      → MayIssue env kind identifier now draw db user
      → 0 < env.cooldown_seconds
      → ResetCodes.get_latest_for_user user.id (confirmed db) ≡ some usable
  unfolding ResetCodes.get_latest_for_user ResetCodes.activate_pending ResetCodes.may_activate
      log_call ResetCodes.is_newer ResetCodes.new_pending
  confirmed-latest db may positive =
      (top?-update ResetCodes.is_newer (λ c. c.user_id == user.id)
          (ResetCodes.may_activate draw.code_id) (λ c. record c { used_at = none })
          (store_pending env user now draw db).reset_codes (λ x. ground arith)
          (λ x y. ground arith)).1
        stored (stored-latest db may positive)
      ∙ ground (arith, ==_refl draw.code_id)

  confirmed-found :
      (k : IdentifierKind) (db : Db)
      → Users.find k identifier (confirmed db) ≡ Users.find k identifier db
  unfolding Users.find Users.get_by_email Users.get_by_phone ResetCodes.activate_pending log_call
      store_pending ResetCodes.create_pending ResetCodes.invalidate_active_for_user
  confirmed-found IdentifierKind.by_email db = refl
  confirmed-found IdentifierKind.by_phone db = refl

  one_available :
      (db : Db) (later : ℕ)
      → count (has_id draw.code_id) db.reset_codes ≡ 0
      → 0 < env.max_attempts
      → later < now + minutes env.code_expiry_minutes
      → count
          (ResetCodes.is_available draw.code_id user.id later env.max_attempts)
          (confirmed db).reset_codes
        ≡ 1
  unfolding count update ResetCodes.is_available ResetCodes.activate_pending ResetCodes.may_activate
      log_call store_pending ResetCodes.create_pending ResetCodes.new_pending
      ResetCodes.invalidate_active_for_user
  one_available db later fresh tries early =
      let retired =
        update (ResetCodes.is_active_for user.id now) (λ c. record c { used_at = some now })
          db.reset_codes in
      ground (
        arith,
        ==_refl draw.code_id,
        ==_refl user.id,
        count-update_imp (ResetCodes.is_available draw.code_id user.id later env.max_attempts)
            (ResetCodes.may_activate draw.code_id) (has_id draw.code_id)
            (λ c. record c { used_at = none }) retired (λ x. ground arith),
        count-update_eq (has_id draw.code_id) (ResetCodes.is_active_for user.id now)
            (λ c. record c { used_at = some now }) db.reset_codes (λ x. ground arith),
      )

  redeems :
      (db : Db) (later new_password : ℕ)
      → Users.find kind identifier db ≡ some user
      → is_active user.account_status ≡ true
      → ResetCodes.get_latest_for_user user.id db ≡ some usable
      → count (ResetCodes.is_available draw.code_id user.id later env.max_attempts) db.reset_codes
        ≡ 1
      → 0 < env.max_attempts
      → later < now + minutes env.code_expiry_minutes
      → reset_locked env kind identifier later draw.raw_code new_password db
        ≡ (ok true, redeemed env later new_password user usable db)
  unfolding reset_locked judge redeem is_active_account workload_user_id challenge_is_available
      stored_hash Users.update_password_hash ResetCodes.consume_if_available ResetCodes.new_pending
  redeems db later new_password found active latest one tries early =
      ground (arith, ==_refl (env.hash_code draw.raw_code))

-- A code whose delivery was confirmed redeems: where the conditions of a request hold, the
-- cooldown and the attempts are positive, and the key drawn for the code is new, the request leaves
-- a database in which a reset with that code before its expiry succeeds, if nothing is committed
-- between.
pub request_reset_redeems :
    (env : ResetEnv) (kind : IdentifierKind) (identifier now later : ℕ) (draw : ResetDraw)
    (new_password : ℕ) (user : User) (db : Db)
    → MayIssue env kind identifier now draw db user
    → Users.get_by_id user.id db ≡ some user
    → count (has_id draw.code_id) db.reset_codes ≡ 0
    → 0 < env.cooldown_seconds
    → 0 < env.max_attempts
    → later < now + minutes env.code_expiry_minutes
    → (reset_password env kind identifier later draw.raw_code new_password
        (request_reset env kind identifier now draw (λ d. d) Delivery.delivered db).1).0
      ≡ ok tt
request_reset_redeems env kind identifier now later draw new_password user db may found fresh cool
      tries early =
    let e =
      redeems env kind identifier now draw user (confirmed env kind identifier now draw user db)
        later new_password (confirmed-found env kind identifier now draw user kind db ∙ may.found)
        may.active (confirmed-latest env kind identifier now draw user db may cool)
        (one_available env kind identifier now draw user db later fresh tries early) tries early in
    ap
      (λ (x : Result (Unit {0}) × Db).
        (reset_password env kind identifier later draw.raw_code new_password x.1).0)
      (confirms env kind identifier now draw user db may found cool)
    ∙ ap (λ (x : Result (Unit {0}) × Db). x.0)
        (reset-accepted env kind identifier later draw.raw_code new_password _ _ e)
