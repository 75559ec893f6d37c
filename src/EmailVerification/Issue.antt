-- ===== src/EmailVerification/Issue.antt =====
-- What the first transaction of `resend` promises: the conditions under which a challenge is made,
-- and the challenge.
use unishop_china.Prelude.{
  ℕ, ◌+◌, ◌-◌, ◌<◌, ◌≤◌, ◌≡◌, refl, inl, inr, true, ◌&&◌, ◌||◌, not, Option, none, some, arith,
  Bool-cases, Option-cases,
}
use unishop_china.Models.{User, EmailVerificationCode, Db, seconds, minutes, hours}
use unishop_china.Action.{Result, ok, err, check-cases}
use unishop_china.Repositories.Users
use unishop_china.Repositories.EmailCodes
use unishop_china.EmailVerification.Service.{
  EmailEnv, CodeDraw, Pending, issue, issue_for, check_cooldown, check_hourly_limit, eligible,
  email_of,
}

-- The challenge that `resend` stores.
abbrev pub challenge_of : EmailEnv → User → ℕ → CodeDraw → EmailVerificationCode
challenge_of env user now draw =
    EmailCodes.new_pending draw.code_id user.id (env.hash_code draw.raw_code)
      (now + minutes env.code_expiry_minutes) now

pub record IsIssue (env : EmailEnv) (user_id now : ℕ) (draw : CodeDraw) (db : Db) (p : Pending)
    (db' : Db) : Type 0 where
  pub user : User
  pub found : Users.get_by_id user_id db ≡ some user
  pub user_eligible : eligible (some user) ≡ true
  pub provider : env.provider_enabled && env.provider_available ≡ true
  pub cooled :
      (latest : EmailVerificationCode)
      → EmailCodes.get_latest_created_for_user user.id db ≡ some latest
      → latest.created_at + seconds env.cooldown_seconds ≤ now
  pub below_limit :
      EmailCodes.count_created_since user.id (now - hours 1) db < env.hourly_limit_requests
  pub six_digits : draw.is_valid_code ≡ true
  pub code_id : p.pending_code_id ≡ draw.code_id
  pub raw_code : p.raw_code ≡ draw.raw_code
  pub destination : p.destination ≡ email_of user
  pub state : db' ≡ EmailCodes.create_pending (challenge_of env user now draw) db

cooldown_lem :
    (env : EmailEnv) (now : ℕ) (latest? : Option EmailVerificationCode)
    → check_cooldown env now latest? ≡ ok tt
    → (latest : EmailVerificationCode) → latest? ≡ some latest
    → latest.created_at + seconds env.cooldown_seconds ≤ now
unfolding check_cooldown
cooldown_lem env now none h latest e = cc
cooldown_lem env now (some c) h latest e = ground arith

hourly_limit_lem :
    (env : EmailEnv) (user_id now : ℕ) (db : Db)
    → check_hourly_limit env user_id now db ≡ ok tt
    → EmailCodes.count_created_since user_id (now - hours 1) db < env.hourly_limit_requests
unfolding check_hourly_limit
hourly_limit_lem env user_id now db h = ground arith

module _ (env : EmailEnv) (user_id now : ℕ) (draw : CodeDraw) where
  abbrev pub Issued : Db → Result (Option Pending) × Db → Type 0
  Issued db (ok none, db') = db' ≡ db
  Issued db (ok (some p), db') = IsIssue env user_id now draw db p db'
  Issued db (err e, db') = Unit

  issue_for-Issued :
      (user : User) (db : Db)
      → Users.get_by_id user_id db ≡ some user
      → eligible (some user) ≡ true
      → Issued db (issue_for env user now draw db)
  unfolding issue_for
  issue_for-Issued user db found el =
      elim (Bool-cases (not env.provider_enabled || not env.provider_available)) [
        | inl down ↦ rw down tt
        | inr up ↦
            rw up
              (elim (check-cases
                (check_cooldown env now (EmailCodes.get_latest_created_for_user user.id db))) [
                  | inr (e, hot) ↦ rw hot tt
                  | inl cool ↦ rw cool (elim (check-cases (check_hourly_limit env user.id now db)) [
                    | inr (e, over) ↦ rw over tt
                    | inl below ↦ rw below (elim (Bool-cases draw.is_valid_code) [
                      | inr bad ↦ rw bad tt
                      | inl good ↦ simp good (record {
                        user = user;
                        found = found;
                        user_eligible = el;
                        provider = ground arith;
                        cooled = cooldown_lem env now _ cool;
                        below_limit = hourly_limit_lem env user.id now db below;
                        six_digits = good;
                        code_id = refl;
                        raw_code = refl;
                        destination = refl;
                        state = refl;
                      })
                    ])
                  ])
                ])
      ]

  -- The first transaction of `resend` stores a challenge only for an eligible account, with the
  -- provider enabled and available, the cooldown since the account's latest challenge over, fewer
  -- challenges in the last hour than the limit, and a code of six digits; it stores the digest of
  -- that code and nothing else. Where it returns early it changes nothing.
  pub issue-Issued : (db : Db) → Issued db (issue env user_id now draw db)
  unfolding issue
  issue-Issued db = elim (Option-cases (Users.get_by_id user_id db)) [
    | inl missing ↦ rw (missing, issue) refl
    | inr (user, found) ↦
        rw (found, issue)
          (elim (Bool-cases (eligible (some user))) [
            | inl el ↦ rw el (issue_for-Issued user db found el)
            | inr out ↦ rw out refl
          ])
  ]
