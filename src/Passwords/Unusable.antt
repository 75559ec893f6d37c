-- ===== src/Passwords/Unusable.antt =====
-- Only a confirmed delivery to unchanged credentials makes a reset code usable.
use unishop_china.Prelude.{
  ℕ, ◌+◌, ◌≤◌, ◌≡◌, ◌≢◌, refl, ◌⊎◌, inl, inr, false, some, arith, Option-cases, if◌then◌else◌,
}
use unishop_china.Prelude.Rows.{count}
use unishop_china.Prelude.Rows.Counting.{count-update_le}
use unishop_china.Models.{
  User, IdentifierKind, Db, Delivery, is_delivered, ProviderCall, log_call, minutes,
}
use unishop_china.Action.{Result, ok, err}
use unishop_china.Repositories.Users
use unishop_china.Repositories.ResetCodes
use unishop_china.Passwords.Service.{
  ResetEnv, ResetDraw, store_pending, may_activate, activate, request_reset,
}
use unishop_china.Passwords.Request.{
  MayIssue, pending_of, sent, RequestPromise, request_reset-Promise,
}

-- Storing a pending code makes no code usable.
stored-unusable :
    (env : ResetEnv) (user : User) (now : ℕ) (draw : ResetDraw) (v t : ℕ) (db : Db)
    → count (ResetCodes.is_active_for v t) (store_pending env user now draw db).reset_codes
      ≤ count (ResetCodes.is_active_for v t) db.reset_codes
unfolding store_pending ResetCodes.create_pending ResetCodes.invalidate_active_for_user count
    ResetCodes.is_active_for
stored-unusable env user now draw v t db = ground (
  arith,
  count-update_le (ResetCodes.is_active_for v t) (ResetCodes.is_active_for user.id now)
      (λ c. record c { used_at = some now }) db.reset_codes (λ x. ground arith),
)

-- A request makes no code of any account usable, at any time, if the delivery of the code is not
-- confirmed, or if the password of the account has changed when it is confirmed, and if what others
-- commit meanwhile makes none usable either.
pub request_reset_unusable :
    (env : ResetEnv) (kind : IdentifierKind) (identifier now : ℕ) (draw : ResetDraw)
    (meanwhile : Db → Db) (answer : Delivery) (v t : ℕ) (db : Db)
    → ((d : Db)
        → count (ResetCodes.is_active_for v t) (meanwhile d).reset_codes
          ≤ count (ResetCodes.is_active_for v t) d.reset_codes)
    → ((is_delivered answer ≡ false)
        ⊎ ((user current : User) (d : Db)
            → Users.find kind identifier db ≡ some user
            → Users.get_by_id user.id (meanwhile d) ≡ some current
            → current.password_hash ≢ user.password_hash))
    → count
        (ResetCodes.is_active_for v t)
        (request_reset env kind identifier now draw meanwhile answer db).1.reset_codes
      ≤ count (ResetCodes.is_active_for v t) db.reset_codes
unfolding log_call activate may_activate
request_reset_unusable env kind identifier now draw meanwhile answer v t db keeps spoilt =
    go _ (request_reset-Promise env kind identifier now draw meanwhile answer db)
  where
    usable : Db → ℕ
    usable d = count (ResetCodes.is_active_for v t) d.reset_codes

    sent-unusable :
        (user : User)
        → usable (sent env kind identifier now draw meanwhile answer user db) ≤ usable db
    sent-unusable user = ground (
      arith,
      keeps (
          log_call
            (ProviderCall.deliver_reset_code kind identifier draw.raw_code
              (now + minutes env.code_expiry_minutes))
            (store_pending env user now draw db)),
      stored-unusable env user now draw v t db,
    )

    refused :
        (user : User)
        → MayIssue env kind identifier now draw db user
        → (is_delivered answer ≡ false)
          ⊎ ((user current : User) (d : Db)
              → Users.find kind identifier db ≡ some user
              → Users.get_by_id user.id (meanwhile d) ≡ some current
              → current.password_hash ≢ user.password_hash)
        → (if is_delivered answer
            then activate
                (pending_of env kind identifier now draw user)
                (sent env kind identifier now draw meanwhile answer user db)
            else sent env kind identifier now draw meanwhile answer user db)
          ≡ sent env kind identifier now draw meanwhile answer user db
    refused user may (inl unconfirmed) = rw unconfirmed refl
    refused user may (inr changed) =
        elim (Option-cases
          (Users.get_by_id user.id (sent env kind identifier now draw meanwhile answer user db))) [
            | inl missing ↦ ground arith
            | inr (current, found) ↦ ground (arith, changed user current _ may.found found)
          ]

    go :
        (result : Result (Unit {0}) × Db)
        → RequestPromise env kind identifier now draw meanwhile answer db result
        → usable result.1 ≤ usable db
    go (ok u, db') (inl same) = rw same (omega arith)
    go (ok u, db') (inr (user, may, state)) =
        rw (state, refused user may spoilt) (sent-unusable user)
    go (err e, db') bad = absurd bad
