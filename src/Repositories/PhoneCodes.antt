-- ===== src/Repositories/PhoneCodes.antt =====
-- backend/app/repositories/phone_verification_code_repository.py.
use unishop_china.Prelude.{ℕ, ◌+◌, Bool, ◌&&◌, ◌||◌, Option, none, some, ◌∷◌, leb, ltb, ◌==◌}
use unishop_china.Prelude.Rows.{select, first?, update, count, top?}
use unishop_china.Models.{PhoneVerificationCode, Db}

unfoldable pub new_code : ℕ → ℕ → ℕ → ℕ → ℕ → ℕ → PhoneVerificationCode
new_code id created_at user_id phone_number code_hash expires_at = record {
  id = id;
  created_at = created_at;
  user_id = user_id;
  phone_number = phone_number;
  code_hash = code_hash;
  expires_at = expires_at;
  attempts = 0;
  verified_at = none;
}

unfoldable pub create_code : PhoneVerificationCode → Db → Db
create_code code db = record db { phone_codes = code ∷ db.phone_codes }

abbrev pub has_id : ℕ → PhoneVerificationCode → Bool
has_id code_id c = c.id == code_id

unfoldable pub get_by_id : ℕ → Db → Option PhoneVerificationCode
get_by_id code_id db = first? (has_id code_id) db.phone_codes

-- `order_by(created_at.desc(), id.desc())`
unfoldable pub is_newer : PhoneVerificationCode → PhoneVerificationCode → Bool
is_newer c d = ltb d.created_at c.created_at || (c.created_at == d.created_at && ltb d.id c.id)

unfoldable pub get_latest_for_user : ℕ → Db → Option PhoneVerificationCode
get_latest_for_user user_id db = top? is_newer (select (λ c. c.user_id == user_id) db.phone_codes)

unfoldable pub get_latest_for_phone : ℕ → Db → Option PhoneVerificationCode
get_latest_for_phone phone_number db =
    top? is_newer (select (λ c. c.phone_number == phone_number) db.phone_codes)

unfoldable pub created_since : ℕ → ℕ → PhoneVerificationCode → Bool
created_since phone_number since c = c.phone_number == phone_number && leb since c.created_at

unfoldable pub count_created_since : ℕ → ℕ → Db → ℕ
count_created_since phone_number since db = count (created_since phone_number since) db.phone_codes

-- The attempts of the row after the update, and the new state; 0 where there is no such row.
unfoldable pub increment_attempts : ℕ → Db → ℕ × Db
unfolding get_by_id
increment_attempts code_id db =
    let db' : Db = record db {
      phone_codes =
          update (has_id code_id) (λ c. record c { attempts = c.attempts + 1 }) db.phone_codes;
    } in
    (elim (get_by_id code_id db') [ none ↦ 0 | some c ↦ c.attempts ], db')

unfoldable pub mark_verified : PhoneVerificationCode → ℕ → Db → Db
mark_verified code verified_at db = record db {
  phone_codes =
      update (has_id code.id) (λ c. record c { verified_at = some verified_at }) db.phone_codes;
}

unfoldable pub expire_code : PhoneVerificationCode → ℕ → Db → Db
expire_code code expired_at db = record db {
  phone_codes = update (has_id code.id) (λ c. record c { expires_at = expired_at }) db.phone_codes;
}
