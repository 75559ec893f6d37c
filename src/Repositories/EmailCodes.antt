-- ===== src/Repositories/EmailCodes.antt =====
-- backend/app/repositories/email_verification_code_repository.py.
use unishop_china.Prelude.{
  ℕ, ◌+◌, Bool, ◌&&◌, ◌||◌, not, Option, none, some, ◌∷◌, is_some, is_none, leb, ltb, ◌==◌,
}
use unishop_china.Prelude.Rows.{select, update, count, top?}
use unishop_china.Models.{EmailVerificationCode, Db}

unfoldable pub new_pending : ℕ → ℕ → ℕ → ℕ → ℕ → EmailVerificationCode
new_pending id user_id code_hash expires_at created_at = record {
  id = id;
  created_at = created_at;
  user_id = user_id;
  code_hash = code_hash;
  expires_at = expires_at;
  attempts = 0;
  activated_at = none;
  used_at = none;
}

unfoldable pub create_pending : EmailVerificationCode → Db → Db
create_pending challenge db = record db { email_codes = challenge ∷ db.email_codes }

-- `order_by(created_at.desc(), id.desc())`
unfoldable pub is_newer : EmailVerificationCode → EmailVerificationCode → Bool
is_newer c d = ltb d.created_at c.created_at || (c.created_at == d.created_at && ltb d.id c.id)

abbrev pub of_user : ℕ → EmailVerificationCode → Bool
of_user user_id c = c.user_id == user_id

-- Activated and not used: the condition of `get_latest_active_for_user`.
unfoldable pub is_open_for : ℕ → EmailVerificationCode → Bool
is_open_for user_id c = c.user_id == user_id && is_some c.activated_at && is_none c.used_at

unfoldable pub get_latest_created_for_user : ℕ → Db → Option EmailVerificationCode
get_latest_created_for_user user_id db = top? is_newer (select (of_user user_id) db.email_codes)

unfoldable pub get_latest_active_for_user : ℕ → Db → Option EmailVerificationCode
get_latest_active_for_user user_id db = top? is_newer (select (is_open_for user_id) db.email_codes)

unfoldable pub created_since : ℕ → ℕ → EmailVerificationCode → Bool
created_since user_id since c = c.user_id == user_id && leb since c.created_at

unfoldable pub count_created_since : ℕ → ℕ → Db → ℕ
count_created_since user_id since db = count (created_since user_id since) db.email_codes

unfoldable pub get_oldest_created_since : ℕ → ℕ → Db → Option ℕ
get_oldest_created_since user_id since db =
    elim (top? (λ c d. ltb c.created_at d.created_at)
      (select (created_since user_id since) db.email_codes)) [
        | none ↦ none
        | some c ↦ some c.created_at
      ]

unfoldable pub is_pending : ℕ → ℕ → EmailVerificationCode → Bool
is_pending code_id user_id c =
    c.id == code_id && c.user_id == user_id && is_none c.activated_at && is_none c.used_at

unfoldable pub may_activate : ℕ → ℕ → ℕ → EmailVerificationCode → Bool
unfolding is_pending
may_activate code_id user_id now c = is_pending code_id user_id c && ltb now c.expires_at

-- Each update returns its `rowcount` beside the new state.
unfoldable pub activate_pending : ℕ → ℕ → ℕ → Db → ℕ × Db
activate_pending code_id user_id now db = (
  count (may_activate code_id user_id now) db.email_codes,
  record db {
    email_codes =
        update (may_activate code_id user_id now) (λ c. record c { activated_at = some now })
          db.email_codes;
  },
)

unfoldable pub cancel_pending : ℕ → ℕ → ℕ → Db → Db
cancel_pending code_id user_id now db = record db {
  email_codes =
      update (is_pending code_id user_id) (λ c. record c { used_at = some now }) db.email_codes;
}

unfoldable pub is_other_open : ℕ → ℕ → EmailVerificationCode → Bool
unfolding is_open_for
is_other_open user_id exclude_code_id c = is_open_for user_id c && not (c.id == exclude_code_id)

-- Both callers give `exclude_code_id`.
unfoldable pub invalidate_active_for_user : ℕ → ℕ → ℕ → Db → Db
invalidate_active_for_user user_id now exclude_code_id db = record db {
  email_codes =
      update (is_other_open user_id exclude_code_id) (λ c. record c { used_at = some now })
        db.email_codes;
}

-- The condition that `increment_attempts_if_available` and `consume_if_available` share.
unfoldable pub is_available : ℕ → ℕ → ℕ → ℕ → EmailVerificationCode → Bool
unfolding is_open_for
is_available code_id user_id now maximum_attempts c =
    c.id == code_id
    && is_open_for user_id c
    && ltb now c.expires_at
    && ltb c.attempts maximum_attempts

unfoldable pub increment_attempts_if_available : ℕ → ℕ → ℕ → ℕ → Db → Db
increment_attempts_if_available code_id user_id now maximum_attempts db = record db {
  email_codes =
      update (is_available code_id user_id now maximum_attempts)
        (λ c. record c { attempts = c.attempts + 1 }) db.email_codes;
}

unfoldable pub consume_if_available : ℕ → ℕ → ℕ → ℕ → Db → ℕ × Db
consume_if_available code_id user_id now maximum_attempts db = (
  count (is_available code_id user_id now maximum_attempts) db.email_codes,
  record db {
    email_codes =
        update (is_available code_id user_id now maximum_attempts)
          (λ c. record c { used_at = some now }) db.email_codes;
  },
)
