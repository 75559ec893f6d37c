-- ===== src/Models.antt =====
-- The tables of backend/app/models that the account services read and write, the enums of
-- backend/app/common/enums.py, and the time spans of `timedelta`. Texts (identifiers, e-mail
-- addresses, digests) are only compared, hashed and tested for emptiness, so each is coded by a
-- number, the empty text by 0; UUIDs are ordered as well, and the code keeps the order. Times are
-- whole microseconds, the resolution of `datetime`.
use unishop_china.Prelude.{◌≡◌, refl, arith, ℕ, ◌*◌, Bool, true, false, Option, List, ◌∷◌}

pub data AccountStatus : Type 0 where
  active suspended banned deleted : AccountStatus

pub data UserRoleType : Type 0 where
  buyer seller admin : UserRoleType

-- `account_status is AccountStatus.ACTIVE`
abbrev pub is_active : AccountStatus → Bool
is_active AccountStatus.active = true
is_active _ = false

pub is_active_lem : (s : AccountStatus) → is_active s ≡ true → s ≡ AccountStatus.active
is_active_lem AccountStatus.active e = refl
is_active_lem AccountStatus.suspended e = absurd (ground arith)
is_active_lem AccountStatus.banned e = absurd (ground arith)
is_active_lem AccountStatus.deleted e = absurd (ground arith)

pub record User : Type 0 where
  pub id : ℕ
  pub email : Option ℕ
  pub phone_number : Option ℕ
  pub password_hash : ℕ
  pub phone_verified : Bool
  pub email_verified : Bool
  pub account_status : AccountStatus
  pub created_at : ℕ

pub record UserRole : Type 0 where
  pub user_id : ℕ
  pub role : UserRoleType

-- The values that `ck_refresh_tokens_revocation_reason` allows.
pub data RevocationReason : Type 0 where
  rotated logout logout_all reuse_detected inactive_account session_limit : RevocationReason
  expired_cleanup : RevocationReason

pub record RefreshToken : Type 0 where
  pub id : ℕ
  pub created_at : ℕ
  pub user_id : ℕ
  pub token_hash : ℕ
  pub family_id : ℕ
  pub csrf_token_hash : ℕ
  pub expires_at : ℕ
  pub family_expires_at : ℕ
  pub last_used_at : Option ℕ
  pub revoked_at : Option ℕ
  pub revocation_reason : Option RevocationReason
  pub replaced_by_token_id : Option ℕ

pub record EmailVerificationCode : Type 0 where
  pub id : ℕ
  pub created_at : ℕ
  pub user_id : ℕ
  pub code_hash : ℕ
  pub expires_at : ℕ
  pub attempts : ℕ
  pub activated_at : Option ℕ
  pub used_at : Option ℕ

pub record PasswordResetCode : Type 0 where
  pub id : ℕ
  pub created_at : ℕ
  pub user_id : ℕ
  pub code_hash : ℕ
  pub expires_at : ℕ
  pub used_at : Option ℕ
  pub attempts : ℕ

pub record PhoneVerificationCode : Type 0 where
  pub id : ℕ
  pub created_at : ℕ
  pub user_id : ℕ
  pub phone_number : ℕ
  pub code_hash : ℕ
  pub expires_at : ℕ
  pub attempts : ℕ
  pub verified_at : Option ℕ

-- `PasswordResetDestinationKind`, the kind of an identifier.
pub data IdentifierKind : Type 0 where
  by_email by_phone : IdentifierKind

-- What the services ask of the e-mail, reset and SMS providers. The providers are not modelled:
-- the database record also keeps the requests made of them, newest first.
pub data ProviderCall : Type 0 where
  deliver_email_code : ℕ → ℕ → ℕ → ℕ → ProviderCall
  consume_email_code : ℕ → ℕ → ProviderCall
  deliver_reset_code : IdentifierKind → ℕ → ℕ → ℕ → ProviderCall
  send_sms_code consume_sms_code : ℕ → ℕ → ProviderCall

pub record Db : Type 0 where
  pub users : List User
  pub roles : List UserRole
  pub refresh_tokens : List RefreshToken
  pub email_codes : List EmailVerificationCode
  pub reset_codes : List PasswordResetCode
  pub phone_codes : List PhoneVerificationCode
  pub calls : List ProviderCall

-- How a provider answers a request: it confirms, it does not confirm, or it raises.
pub data Delivery : Type 0 where
  delivered undelivered failed : Delivery

abbrev pub is_delivered : Delivery → Bool
is_delivered Delivery.delivered = true
is_delivered _ = false

unfoldable pub log_call : ProviderCall → Db → Db
log_call c db = record db { calls = c ∷ db.calls }

-- `timedelta(...)` in microseconds.
unfoldable pub seconds : ℕ → ℕ
seconds n = n * 1000000

unfoldable pub minutes : ℕ → ℕ
minutes n = n * 60000000

unfoldable pub hours : ℕ → ℕ
hours n = n * 3600000000

unfoldable pub days : ℕ → ℕ
days n = n * 86400000000
