-- ===== src/EmailVerification/History.antt =====
-- Histories of the challenges over any calls of the two e-mail services.
use unishop_china.Prelude.{ℕ, ◌≡◌}
use unishop_china.Prelude.Rows.{count}
use unishop_china.Models.{Db, Delivery}
use unishop_china.EmailVerification.Service.{EmailEnv, CodeDraw, resend, verify}
use unishop_china.EmailVerification.Invariant.{IsValid, has_id}
use unishop_china.EmailVerification.Keeps.{resend-IsValid}
use unishop_china.EmailVerification.Once.{verify-IsValid}

-- A history of calls. Between the two transactions of a request for a challenge another history
-- may run; the key of the new challenge is new.
pub data Reach (env : EmailEnv) : Db → Db → Type 0 where
  here : {db : Db} → Reach env db db
  verifies :
      {db mid : Db} (user_id now code : ℕ)
      → Reach env db mid
      → Reach env db (verify env user_id now code mid).1
  resends :
      {db mid : Db} (user_id now : ℕ) (draw : CodeDraw) (meanwhile : Db → Db) (answer : Delivery)
      → ((d : Db) → Reach env d (meanwhile d))
      → count (has_id draw.code_id) mid.email_codes ≡ 0
      → Reach env db mid
      → Reach env db (resend env user_id now draw meanwhile answer mid).1

-- Whatever challenges are requested and whatever codes are tried, also while a provider answers, the
-- challenges stay well formed, if they are at the start and drawn keys are new: the keys are unique,
-- an account has at most one open challenge, and the attempts keep to their limit.
pub email_history-IsValid :
    (env : EmailEnv) {db db' : Db}
    → Reach env db db'
    → IsValid env.max_attempts db.email_codes
    → IsValid env.max_attempts db'.email_codes
email_history-IsValid env here v = v
email_history-IsValid env (verifies {db} {mid} user_id now code r) v =
    verify-IsValid env user_id now code mid (email_history-IsValid env r v)
email_history-IsValid env (resends {db} {mid} user_id now draw meanwhile answer other fresh r) v =
    resend-IsValid env env.max_attempts user_id now meanwhile answer draw mid
      (λ d w. email_history-IsValid env (other d) w) fresh (email_history-IsValid env r v)
