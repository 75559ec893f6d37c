-- ===== src/EmailVerification/Invariant.antt =====
-- The well-formedness of the e-mail challenges, and that the calls of the service keep it.
use unishop_china.Prelude.{
  ℕ, ◌+◌, ◌≤◌, ◌≡◌, inl, inr, Bool, none, some, List, ◌∷◌, arith, Bool-cases, ◌==◌,
}
use unishop_china.Prelude.Rows.{update, count, All}
use unishop_china.Prelude.Rows.Counting.{count-update_eq, count-update_le, All-update}
use unishop_china.Prelude.Rows.Searching.{count-update_imp, All-update_if}
use unishop_china.Models.{EmailVerificationCode}
use unishop_china.Repositories.EmailCodes.{is_open_for, is_other_open, may_activate, is_available}

abbrev pub has_id : ℕ → EmailVerificationCode → Bool
has_id code_id c = c.id == code_id

abbrev pub Tried : ℕ → EmailVerificationCode → Type 0
Tried max_attempts c = c.attempts ≤ max_attempts

-- Primary keys are unique, a user has at most one challenge that is activated and not used, and
-- no challenge was tried more often than the limit.
pub record IsValid (max_attempts : ℕ) (codes : List EmailVerificationCode) : Type 0 where
  pub unique_id : (i : ℕ) → count (has_id i) codes ≤ 1
  pub one_open : (u : ℕ) → count (is_open_for u) codes ≤ 1
  pub tried : All (Tried max_attempts) codes

module _ (k : ℕ) where
  -- Marking challenges as used keeps the invariant, whichever it selects.
  pub use-IsValid :
      (q : EmailVerificationCode → Bool) (now : ℕ) (codes : List EmailVerificationCode)
      → IsValid k codes
      → IsValid k (update q (λ c. record c { used_at = some now }) codes)
  unfolding is_open_for
  use-IsValid q now codes v = record {
    unique_id = λ i.
        rw
          (count-update_eq (has_id i) q (λ c. record c { used_at = some now }) codes
            (λ x. ground arith))
          (v.unique_id i);
    one_open = λ u. omega (
      arith,
      v.one_open u,
      count-update_le (is_open_for u) q (λ c. record c { used_at = some now }) codes
          (λ x. ground arith),
    );
    tried = All-update (Tried k) q (λ c. record c { used_at = some now }) codes (λ x h. h) v.tried;
  }

  -- One more attempt on challenges that have one left.
  pub attempt-IsValid :
      (code_id user_id now : ℕ) (codes : List EmailVerificationCode)
      → IsValid k codes
      → IsValid k (
          update
            (is_available code_id user_id now k)
            (λ c. record c { attempts = c.attempts + 1 })
            codes)
  unfolding is_available is_open_for
  attempt-IsValid code_id user_id now codes v = record {
    unique_id = λ i.
        rw (count-update_eq (has_id i) available again codes (λ x. ground arith)) (v.unique_id i);
    one_open = λ u.
        rw (count-update_eq (is_open_for u) available again codes (λ x. ground arith))
          (v.one_open u);
    tried = All-update_if (Tried k) available again codes (λ x a h. ground arith) v.tried;
  }
    where
      available : EmailVerificationCode → Bool
      available = is_available code_id user_id now k

      again : EmailVerificationCode → EmailVerificationCode
      again c = record c { attempts = c.attempts + 1 }

  -- A new pending challenge.
  pub pending-IsValid :
      (c : EmailVerificationCode) (codes : List EmailVerificationCode)
      → IsValid k codes
      → count (has_id c.id) codes ≡ 0
      → c.activated_at ≡ none
      → c.attempts ≡ 0
      → IsValid k (c ∷ codes)
  unfolding count is_open_for
  pending-IsValid c codes v fresh closed untried = record {
    unique_id = λ i. ground (arith, v.unique_id i);
    one_open = λ u. ground (arith, v.one_open u);
    tried = (omega arith, v.tried);
  }

  -- Activating one challenge and retiring the other open ones of its user.
  pub activated-IsValid :
      (code_id user_id now : ℕ) (codes : List EmailVerificationCode)
      → IsValid k codes
      → IsValid k (
          update
            (is_other_open user_id code_id)
            (λ c. record c { used_at = some now })
            (update
              (may_activate code_id user_id now)
              (λ c. record c { activated_at = some now })
              codes))
  unfolding is_other_open is_open_for may_activate
  activated-IsValid code_id user_id now codes v = record {
    unique_id = λ i.
        rw (count-update_eq (has_id i) retires retire opened (λ x. ground arith))
          (omega (arith, v.unique_id i, keeps_id i));
    one_open = λ u. elim (Bool-cases (u == user_id)) [
      | inl own ↦ omega (
        arith,
        v.unique_id code_id,
        keeps_id code_id,
        count-update_imp (is_open_for u) retires (has_id code_id) retire opened (λ x. ground arith),
      )
      | inr other ↦ omega (
        arith,
        v.one_open u,
        count-update_le (is_open_for u) retires retire opened (λ x. ground arith),
        count-update_le (is_open_for u) opens mark codes (λ x. ground arith),
      )
    ];
    tried =
        All-update (Tried k) retires retire opened (λ x h. h)
          (All-update (Tried k) opens mark codes (λ x h. h) v.tried);
  }
    where
      opens : EmailVerificationCode → Bool
      opens = may_activate code_id user_id now

      mark : EmailVerificationCode → EmailVerificationCode
      mark c = record c { activated_at = some now }

      opened : List EmailVerificationCode
      opened = update opens mark codes

      retires : EmailVerificationCode → Bool
      retires = is_other_open user_id code_id

      retire : EmailVerificationCode → EmailVerificationCode
      retire c = record c { used_at = some now }

      keeps_id : (i : ℕ) → count (has_id i) opened ≡ count (has_id i) codes
      keeps_id i = count-update_eq (has_id i) opens mark codes (λ x. ground arith)
