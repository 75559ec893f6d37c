-- ===== src/Passwords/Request.antt =====
-- What `request_reset` promises.
use unishop_china.Prelude.{
  ℕ, ◌+◌, ◌-◌, ◌<◌, ◌≤◌, ◌≡◌, refl, sym, subst, ◌∙◌, ◌⊎◌, inl, inr, true, ◌&&◌, Option, none, some,
  arith, Bool-cases, Option-cases, if◌then◌else◌,
}
use unishop_china.Models.{
  User, is_active, PasswordResetCode, IdentifierKind, Db, Delivery, is_delivered, ProviderCall,
  log_call, seconds, minutes, hours,
}
use unishop_china.Action.{Result, ok, err}
use unishop_china.Repositories.Users
use unishop_china.Repositories.ResetCodes
use unishop_china.Passwords.Service.{
  ResetEnv, ResetDraw, PendingReset, is_active_account, may_issue, store_pending, may_request,
  workload_user_id, issue, activate, after_issue, request_reset,
}

module _ (env : ResetEnv) (kind : IdentifierKind) (identifier now : ℕ) (draw : ResetDraw) where
  abbrev pub pending_of : User → PendingReset
  pending_of user = record {
    pending_code_id = draw.code_id;
    pending_user_id = user.id;
    credential_version = user.password_hash;
  }

  -- The account for which `request_reset` stores a pending code, and the conditions.
  pub record MayIssue (db : Db) (user : User) : Type 0 where
    pub found : Users.find kind identifier db ≡ some user
    pub active : is_active user.account_status ≡ true
    pub provider : env.provider_enabled && env.provider_available ≡ true
    pub cooled :
        (latest : PasswordResetCode)
        → ResetCodes.get_latest_for_user user.id db ≡ some latest
        → latest.created_at + seconds env.cooldown_seconds ≤ now
    pub below_limit :
        ResetCodes.count_created_since user.id (now - hours 1) db < env.hourly_limit_requests

  may_issue_lem :
      (latest? : Option PasswordResetCode) (recent_count : ℕ)
      → may_issue env now latest? recent_count ≡ true
      → (recent_count < env.hourly_limit_requests)
        × ((latest : PasswordResetCode)
            → latest? ≡ some latest
            → latest.created_at + seconds env.cooldown_seconds ≤ now)
  unfolding may_issue
  may_issue_lem none recent_count h = (ground arith, λ latest e. cc)
  may_issue_lem (some c) recent_count h = (ground arith, λ latest e. ground arith)

  abbrev pub Issued : Db → Result (Option PendingReset) × Db → Type 0
  Issued db (ok none, db') = db' ≡ db
  Issued db (ok (some p), db') =
      (user : User) × MayIssue db user
      × (p ≡ pending_of user)
      × (db' ≡ store_pending env user now draw db)
  Issued db (err e, db') = ⊥

  issue-Issued : (db : Db) → Issued db (issue env kind identifier now draw db)
  unfolding issue may_request workload_user_id is_active_account
  issue-Issued db = elim (Option-cases (Users.find kind identifier db)) [
    | inl missing ↦ rw (missing, issue) refl
    | inr (user, found) ↦
        rw (found, issue)
          (elim (Bool-cases (may_request env (some user))) [
            | inr out ↦ rw out refl
            | inl able ↦
                rw able
                  (elim (Bool-cases (
                    may_issue env now (ResetCodes.get_latest_for_user user.id db)
                      (ResetCodes.count_created_since user.id (now - hours 1) db))) [
                        | inr refused ↦ rw refused refl
                        | inl allowed ↦
                            rw allowed (user, conditions user found able allowed, refl, refl)
                      ])
          ])
  ]
    where
      conditions :
          (user : User)
          → Users.find kind identifier db ≡ some user
          → may_request env (some user) ≡ true
          → may_issue env now
              (ResetCodes.get_latest_for_user user.id db)
              (ResetCodes.count_created_since user.id (now - hours 1) db)
            ≡ true
          → MayIssue db user
      conditions user found able allowed =
          let (below, cool) = may_issue_lem _ _ allowed in
          record {
            found = found;
            active = ground arith;
            provider = ground arith;
            cooled = cool;
            below_limit = below;
          }

module _ (env : ResetEnv) (kind : IdentifierKind) (identifier now : ℕ) (draw : ResetDraw)
    (meanwhile : Db → Db) (answer : Delivery) where
  -- What the provider's answer finds.
  abbrev pub sent : User → Db → Db
  sent user db = meanwhile (
      log_call
        (ProviderCall.deliver_reset_code kind identifier draw.raw_code
          (now + minutes env.code_expiry_minutes))
        (store_pending env user now draw db))

  -- What `request_reset` promises: it never raises, and what it writes.
  abbrev pub RequestPromise : Db → Result (Unit {0}) × Db → Type 0
  RequestPromise db (ok _, db') =
      (db' ≡ db)
      ⊎ ((user : User) × MayIssue env kind identifier now draw db user
          × (db' ≡ (
              if is_delivered answer
              then activate (pending_of env kind identifier now draw user) (sent user db)
              else sent user db)))
  RequestPromise db (err e, db') = ⊥

  pub request-issued :
      (p : Option PendingReset) (db db1 : Db)
      → issue env kind identifier now draw db ≡ (ok p, db1)
      → request_reset env kind identifier now draw meanwhile answer db
        ≡ after_issue env kind identifier now draw meanwhile answer p db1
  unfolding request_reset
  request-issued p db db1 e = ground arith

  pub after_issue-state :
      (p : PendingReset) (db : Db)
      → after_issue env kind identifier now draw meanwhile answer (some p) db ≡ (
        ok tt,
        if is_delivered answer
            then activate p (
                meanwhile (
                  log_call
                    (ProviderCall.deliver_reset_code kind identifier draw.raw_code
                      (now + minutes env.code_expiry_minutes))
                    db))
            else meanwhile (
                log_call
                  (ProviderCall.deliver_reset_code kind identifier draw.raw_code
                    (now + minutes env.code_expiry_minutes))
                  db),
      )
  unfolding after_issue
  after_issue-state p db = elim (Bool-cases (is_delivered answer)) [
    | inl confirmed ↦ rw confirmed refl
    | inr unconfirmed ↦ rw unconfirmed refl
  ]

  after_issue-none :
      (db : Db) → after_issue env kind identifier now draw meanwhile answer none db ≡ (ok tt, db)
  unfolding after_issue
  after_issue-none db = refl

  -- A request for a password reset never raises. It changes nothing, or it does the following, and
  -- then the identifier names an active account, the provider is enabled and available, the
  -- account's latest code is older than the cooldown, and the account has fewer codes of the last
  -- hour than the limit. It retires the account's usable codes, stores a code that is not usable
  -- yet, asks the provider to deliver it, and if the provider confirms makes the code usable
  -- where the conditions of the activation hold.
  pub request_reset-Promise :
      (db : Db) → RequestPromise db (request_reset env kind identifier now draw meanwhile answer db)
  request_reset-Promise db = go _ _ refl (issue-Issued env kind identifier now draw db)
    where
      go :
          (r : Result (Option PendingReset)) (db1 : Db)
          → issue env kind identifier now draw db ≡ (r, db1)
          → Issued env kind identifier now draw db (r, db1)
          → RequestPromise db (request_reset env kind identifier now draw meanwhile answer db)
      go (err e) db1 eq i = absurd i
      go (ok none) db1 eq i =
          subst (RequestPromise db) (sym (request-issued none db db1 eq ∙ after_issue-none db1))
            (inl i)
      go (ok (some p)) db1 eq i =
          let (user, may, pending, state) = i in
          subst (RequestPromise db)
            (sym (request-issued (some p) db db1 eq ∙ after_issue-state p db1))
            (inr (user, may, rw (pending, state) refl))
