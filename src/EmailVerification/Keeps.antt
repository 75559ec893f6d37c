-- ===== src/EmailVerification/Keeps.antt =====
-- `resend` and `verify` keep the challenges well formed.
use unishop_china.Prelude.{
  ℕ, ◌≤◌, ◌≡◌, refl, sym, subst, inl, inr, Bool, true, false, Option, none, some, List, arith,
  Bool-cases, ◌==◌,
}
use unishop_china.Prelude.Rows.{count}
use unishop_china.Prelude.Rows.Counting.{count-le}
use unishop_china.Prelude.Rows.Searching.{update-none}
use unishop_china.Models.{EmailVerificationCode, Db, Delivery, is_delivered, log_call}
use unishop_china.Action.{Result, ok, err, Error, Action, transaction, settle, pure, ◌>>=◌}
use unishop_china.Repositories.EmailCodes
use unishop_china.Repositories.EmailCodes.{
  is_open_for, is_other_open, is_pending, may_activate, is_available,
}
use unishop_china.EmailVerification.Service.{
  EmailEnv, CodeDraw, Pending, activate, activate_or_cancel, issue, resend, after_issue, deliver,
  confirm, abandon,
}
use unishop_china.EmailVerification.Issue.{Issued, issue-Issued, challenge_of}
use unishop_china.EmailVerification.Invariant.{
  IsValid, has_id, use-IsValid, pending-IsValid, activated-IsValid,
}

module _ (k : ℕ) where
  -- The rowcount of an activation is 0 or 1.
  activate-rows :
      (code_id user_id now : ℕ) (codes : List EmailVerificationCode)
      → IsValid k codes
      → count (may_activate code_id user_id now) codes ≤ 1
  unfolding may_activate
  activate-rows code_id user_id now codes v = omega (
    arith,
    v.unique_id code_id,
    count-le (may_activate code_id user_id now) (has_id code_id) codes (λ x. ground arith),
  )

  activate_or_cancel-IsValid :
      (wanted : Bool) (user_id now : ℕ) (pending : Pending) (db : Db)
      → IsValid k db.email_codes
      → IsValid k (activate_or_cancel wanted user_id now pending db).1.email_codes
  unfolding activate_or_cancel EmailCodes.cancel_pending EmailCodes.activate_pending
      EmailCodes.invalidate_active_for_user
  activate_or_cancel-IsValid false user_id now pending db v = use-IsValid k _ now db.email_codes v
  activate_or_cancel-IsValid true user_id now pending db v =
      elim (Bool-cases
        (count (may_activate pending.pending_code_id user_id now) db.email_codes == 1)) [
          | inl hit ↦
              rw hit (activated-IsValid k pending.pending_code_id user_id now db.email_codes v)
          | inr miss ↦
              rw
                (
                  miss,
                  update-none (may_activate pending.pending_code_id user_id now) _ db.email_codes (
                      ground (
                        arith,
                        activate-rows pending.pending_code_id user_id now db.email_codes v,
                      )),
                )
                (use-IsValid k _ now db.email_codes v)
        ]

  activate-IsValid :
      (user_id now : ℕ) (pending : Pending) (db : Db)
      → IsValid k db.email_codes
      → IsValid k (activate user_id now pending db).1.email_codes
  unfolding activate
  activate-IsValid user_id now pending db v = activate_or_cancel-IsValid _ user_id now pending db v

  settled-IsValid :
      {A : Type 0} (db : Db) (r : Result A × Db)
      → IsValid k db.email_codes
      → IsValid k r.1.email_codes
      → IsValid k (settle db r).1.email_codes
  settled-IsValid db (ok a, db') v w = w
  settled-IsValid db (err e, db') v w = v

  -- `confirm` goes on from the state that its transaction left.
  confirm-codes :
      (user_id now : ℕ) (pending : Pending) (db : Db)
      → (confirm user_id now pending db).1.email_codes
        ≡ (transaction (activate user_id now pending) db).1.email_codes
  unfolding confirm log_call
  confirm-codes user_id now pending db = ground arith

  confirm-IsValid :
      (user_id now : ℕ) (pending : Pending) (db : Db)
      → IsValid k db.email_codes
      → IsValid k (confirm user_id now pending db).1.email_codes
  confirm-IsValid user_id now pending db v = rw (confirm-codes user_id now pending db) (
      settled-IsValid db (activate user_id now pending db) v
        (activate-IsValid user_id now pending db v))

  abandon-IsValid :
      (user_id now : ℕ) (pending : Pending) (db : Db)
      → IsValid k db.email_codes
      → IsValid k (abandon user_id now pending db).1.email_codes
  unfolding abandon log_call EmailCodes.cancel_pending
  abandon-IsValid user_id now pending db v = use-IsValid k _ now db.email_codes v

-- The challenges in the state of a call that goes on without writing.
codes-bind :
    {A B : Type 0} (m : Action A) (b : B) (db : Db)
    → ((m >>= λ _. pure b) db).1.email_codes ≡ (m db).1.email_codes
codes-bind m b db = ground arith

bind-IsValid :
    {A B : Type 0} (k : ℕ) (m : Action A) (b : B) (db : Db)
    → IsValid k (m db).1.email_codes
    → IsValid k ((m >>= λ _. pure b) db).1.email_codes
bind-IsValid k m b db v = subst (IsValid k) (sym (codes-bind m b db)) v

module _ (env : EmailEnv) (k user_id now : ℕ) (meanwhile : Db → Db) (answer : Delivery) where
  after_issue-IsValid :
      (issued : Option Pending) (db : Db)
      → ((d : Db) → IsValid k d.email_codes → IsValid k (meanwhile d).email_codes)
      → IsValid k db.email_codes
      → IsValid k (after_issue env user_id now meanwhile answer issued db).1.email_codes
  unfolding after_issue deliver log_call
  after_issue-IsValid none db keep v = v
  after_issue-IsValid (some p) db keep v = elim (Bool-cases (is_delivered answer)) [
    | inl confirmed ↦
        rw confirmed (
          bind-IsValid k (confirm user_id now p) _ _ (confirm-IsValid k user_id now p _ (keep _ v)))
    | inr refused ↦
        rw refused (
          bind-IsValid k (abandon user_id now p) _ _ (abandon-IsValid k user_id now p _ (keep _ v)))
  ]

  -- A request for a new challenge keeps the challenges well formed, if the key that it draws is
  -- new and if what others commit while the provider answers keeps them well formed.
  pub resend-IsValid :
      (draw : CodeDraw) (db : Db)
      → ((d : Db) → IsValid k d.email_codes → IsValid k (meanwhile d).email_codes)
      → count (has_id draw.code_id) db.email_codes ≡ 0
      → IsValid k db.email_codes
      → IsValid k (resend env user_id now draw meanwhile answer db).1.email_codes
  unfolding resend EmailCodes.create_pending EmailCodes.new_pending
  resend-IsValid draw db keep fresh v = go _ _ refl (issue-Issued env user_id now draw db)
    where
      ended_err :
          (e : Error) (db1 : Db)
          → issue env user_id now draw db ≡ (err e, db1)
          → resend env user_id now draw meanwhile answer db ≡ (err e, db)
      ended_err e db1 eq = ground arith

      ended_ok :
          (issued : Option Pending) (db1 : Db)
          → issue env user_id now draw db ≡ (ok issued, db1)
          → resend env user_id now draw meanwhile answer db
            ≡ after_issue env user_id now meanwhile answer issued db1
      ended_ok issued db1 eq = ground arith

      go :
          (r : Result (Option Pending)) (db1 : Db)
          → issue env user_id now draw db ≡ (r, db1)
          → Issued env user_id now draw db (r, db1)
          → IsValid k (resend env user_id now draw meanwhile answer db).1.email_codes
      go (err e) db1 eq i =
          subst (λ (x : Result ℕ × Db). IsValid k x.1.email_codes) (sym (ended_err e db1 eq)) v
      go (ok none) db1 eq i =
          subst (λ (x : Result ℕ × Db). IsValid k x.1.email_codes) (sym (ended_ok none db1 eq))
            (after_issue-IsValid none db1 keep (rw i v))
      go (ok (some p)) db1 eq i =
          subst (λ (x : Result ℕ × Db). IsValid k x.1.email_codes) (sym (ended_ok (some p) db1 eq))
            (after_issue-IsValid (some p) db1 keep (
              rw i.state (
                pending-IsValid k (challenge_of env i.user now draw) db.email_codes v fresh refl
                  refl)))
