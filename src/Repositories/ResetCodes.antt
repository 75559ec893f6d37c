-- ===== src/Repositories/ResetCodes.antt =====
-- backend/app/repositories/password_reset_code_repository.py.
use unishop_china.Prelude.{
  ℕ, ◌+◌, Bool, ◌&&◌, ◌||◌, not, Option, none, some, ◌∷◌, is_some, is_none, leb, ltb, ◌==◌,
}
use unishop_china.Prelude.Rows.{select, update, count, top?}
use unishop_china.Models.{PasswordResetCode, Db}

-- `order_by(created_at.desc(), id.desc())`
unfoldable pub is_newer : PasswordResetCode → PasswordResetCode → Bool
is_newer c d = ltb d.created_at c.created_at || (c.created_at == d.created_at && ltb d.id c.id)

unfoldable pub get_latest_for_user : ℕ → Db → Option PasswordResetCode
get_latest_for_user user_id db = top? is_newer (select (λ c. c.user_id == user_id) db.reset_codes)

unfoldable pub count_created_since : ℕ → ℕ → Db → ℕ
count_created_since user_id since db =
    count (λ c. c.user_id == user_id && leb since c.created_at) db.reset_codes

unfoldable pub is_active_for : ℕ → ℕ → PasswordResetCode → Bool
is_active_for user_id now c = c.user_id == user_id && is_none c.used_at && ltb now c.expires_at

unfoldable pub invalidate_active_for_user : ℕ → ℕ → Db → Db
invalidate_active_for_user user_id now db = record db {
  reset_codes =
      update (is_active_for user_id now) (λ c. record c { used_at = some now }) db.reset_codes;
}

-- A pending code is one that is marked used when it is made, so that it cannot be redeemed yet.
unfoldable pub new_pending : ℕ → ℕ → ℕ → ℕ → ℕ → PasswordResetCode
new_pending id user_id code_hash expires_at pending_at = record {
  id = id;
  created_at = pending_at;
  user_id = user_id;
  code_hash = code_hash;
  expires_at = expires_at;
  used_at = some pending_at;
  attempts = 0;
}

unfoldable pub create_pending : PasswordResetCode → Db → Db
create_pending code db = record db { reset_codes = code ∷ db.reset_codes }

unfoldable pub may_activate : ℕ → PasswordResetCode → Bool
may_activate code_id c = c.id == code_id && is_some c.used_at

unfoldable pub activate_pending : ℕ → Db → Db
activate_pending code_id db = record db {
  reset_codes = update (may_activate code_id) (λ c. record c { used_at = none }) db.reset_codes;
}

-- The condition that `increment_attempts_if_available` and `consume_if_available` share.
unfoldable pub is_available : ℕ → ℕ → ℕ → ℕ → PasswordResetCode → Bool
is_available code_id user_id now maximum_attempts c =
    c.id == code_id
    && c.user_id == user_id
    && is_none c.used_at
    && ltb now c.expires_at
    && ltb c.attempts maximum_attempts

unfoldable pub increment_attempts_if_available : ℕ → ℕ → ℕ → ℕ → Db → Db
increment_attempts_if_available code_id user_id now maximum_attempts db = record db {
  reset_codes =
      update (is_available code_id user_id now maximum_attempts)
        (λ c. record c { attempts = c.attempts + 1 }) db.reset_codes;
}

-- The `rowcount` beside the new state.
unfoldable pub consume_if_available : ℕ → ℕ → ℕ → ℕ → Db → ℕ × Db
consume_if_available code_id user_id now maximum_attempts db = (
  count (is_available code_id user_id now maximum_attempts) db.reset_codes,
  record db {
    reset_codes =
        update (is_available code_id user_id now maximum_attempts)
          (λ c. record c { used_at = some now }) db.reset_codes;
  },
)

unfoldable pub is_other_unused : ℕ → ℕ → PasswordResetCode → Bool
is_other_unused user_id exclude_code_id c =
    c.user_id == user_id && not (c.id == exclude_code_id) && is_none c.used_at

unfoldable pub invalidate_other_active_for_user : ℕ → ℕ → ℕ → Db → Db
invalidate_other_active_for_user user_id exclude_code_id now db = record db {
  reset_codes =
      update (is_other_unused user_id exclude_code_id) (λ c. record c { used_at = some now })
        db.reset_codes;
}
