-- ===== src/Accounts/Service.antt =====
-- `AuthenticationService` and `RegistrationService`, method by method, and the checks of
-- backend/app/core/authorization.py that read the account tables.
use unishop_china.Prelude.{
  ℕ, ◌+◌, Bool, not, ◌&&◌, ◌||◌, Option, none, some, List, [], ◌∷◌, is_some, is_none, if◌then◌else◌,
  ◌==◌,
}
use unishop_china.Models.{
  User, UserRole, UserRoleType, AccountStatus, is_active, IdentifierKind, Db, Delivery,
  is_delivered, ProviderCall, log_call, minutes,
}
use unishop_china.Prelude.Rows.{first?}
use unishop_china.Action.{
  Result, ok, err, Error, Action, pure, raise, gets, lift, modify, transaction, ◌>>=◌, ◌>>◌,
}
use unishop_china.Repositories.Users
use unishop_china.Repositories.Users.{Insertion, Violation}
use unishop_china.Repositories.PhoneCodes
use unishop_china.Sessions.Service.{SessionEnv, Draw, AuthCookieMaterial, create_login_session}
use unishop_china.PhoneVerification.Service.{CodeDraw, expire_unsent_code}

-- `SafeAuthenticatedUser`
pub record SafeUser : Type 0 where
  pub id : ℕ
  pub email : Option ℕ
  pub phone_number : Option ℕ
  pub email_verified : Bool
  pub phone_verified : Bool
  pub account_status : AccountStatus
  pub roles : List UserRoleType
  pub created_at : ℕ

-- `AuthenticationResult`; its token type is always "bearer".
pub record AuthenticationResult : Type 0 where
  pub access_token : ℕ
  pub expires_in : ℕ
  pub user : SafeUser
  pub cookies : AuthCookieMaterial

-- `_safe_user`
unfoldable pub safe_user : User → Db → SafeUser
safe_user user db = record {
  id = user.id;
  email = user.email;
  phone_number = user.phone_number;
  email_verified = user.email_verified;
  phone_verified = user.phone_verified;
  account_status = user.account_status;
  roles = Users.list_roles_for_user user.id db;
  created_at = user.created_at;
}

unfoldable pub load_current_user : ℕ → Db → Option SafeUser
load_current_user user_id db = elim (Users.get_by_id user_id db) [
  | none ↦ none
  | some user ↦ if is_active user.account_status then some (safe_user user db) else none
]

module _ (env : SessionEnv) (password_verifier : ℕ → ℕ → Bool) (dummy_password_hash : ℕ) where
  -- The password hash that the login verifies against.
  unfoldable pub verified_hash : Option User → ℕ
  verified_hash none = dummy_password_hash
  verified_hash (some user) = user.password_hash

  -- The login after the credentials were accepted.
  unfoldable pub complete_login : User → ℕ → ℕ → (ℕ → Draw) → Action AuthenticationResult
  complete_login user now family_id draws = do
    safe ← gets (safe_user user)
    cookies ← create_login_session env user.id now family_id draws
    pure (record {
      access_token = env.create_access_token user.id;
      expires_in = env.expires_in_seconds;
      user = safe;
      cookies = cookies;
    })

  -- The test of the credentials.
  unfoldable pub check_credentials :
      Option User → Bool → ℕ → ℕ → (ℕ → Draw) → Action AuthenticationResult
  check_credentials none password_is_valid now family_id draws = raise Error.invalid_credentials
  check_credentials (some user) password_is_valid now family_id draws =
      if not password_is_valid || not (is_active user.account_status)
      then raise Error.invalid_credentials
      else complete_login user now family_id draws

  -- `authenticate_user_and_create_access_token`. `family_id` is drawn by `create_login_session`.
  unfoldable pub authenticate :
      IdentifierKind → ℕ → ℕ → ℕ → ℕ → (ℕ → Draw) → Action AuthenticationResult
  authenticate kind identifier password now family_id draws = transaction (λ db.
      let user = Users.find kind identifier db in
      let password_is_valid = password_verifier password (verified_hash user) in
      check_credentials user password_is_valid now family_id draws db)

pub record RegisterRequest : Type 0 where
  pub email : Option ℕ
  pub phone_number : Option ℕ
  pub password : ℕ

-- `RegistrationResult`
pub record RegistrationResult : Type 0 where
  pub id : ℕ
  pub email : Option ℕ
  pub phone_number : Option ℕ
  pub phone_verified : Bool
  pub email_verified : Bool
  pub account_status : AccountStatus
  pub roles : List UserRoleType
  pub phone_verification_required : Bool
  pub created_at : ℕ

-- The key and the default time of the new user row, and the SMS code.
pub record RegisterDraw : Type 0 where
  pub user_id : ℕ
  pub created_at : ℕ
  pub code : CodeDraw

-- `_check_duplicates`
unfoldable pub check_email : Option ℕ → Db → Result (Unit {0})
check_email none db = ok tt
check_email (some email) db =
    if is_some (Users.get_by_email email db) then err Error.email_already_registered else ok tt

unfoldable pub check_phone : Option ℕ → Db → Result (Unit {0})
check_phone none db = ok tt
check_phone (some phone_number) db =
    if is_some (Users.get_by_phone phone_number db)
    then err Error.phone_already_registered
    else ok tt

unfoldable pub check_duplicates : RegisterRequest → Action (Unit {0})
unfolding check_email check_phone
check_duplicates request = do
  lift (← gets (check_email request.email))
  lift (← gets (check_phone request.phone_number))

-- `_safe_integrity_conflict`
unfoldable pub safe_integrity_conflict : Violation → Error
safe_integrity_conflict Violation.users_email = Error.email_already_registered
safe_integrity_conflict Violation.users_phone_number = Error.phone_already_registered
safe_integrity_conflict Violation.primary_key = Error.registration_conflict

-- `user_repository.create` and the handler of its `IntegrityError`.
unfoldable pub create_user : User → Action (Unit {0})
create_user user db = elim (Users.create user db) [
  | Insertion.inserted db' ↦ (ok tt, db')
  | Insertion.violates violation ↦ (err (safe_integrity_conflict violation), db)
]

unfoldable pub registration_result : User → RegistrationResult
registration_result user = record {
  id = user.id;
  email = user.email;
  phone_number = user.phone_number;
  phone_verified = user.phone_verified;
  email_verified = user.email_verified;
  account_status = user.account_status;
  roles = UserRoleType.buyer ∷ [];
  phone_verification_required = is_some user.phone_number;
  created_at = user.created_at;
}

module _ (hash_password hash_code : ℕ → ℕ) where
  -- The user row that `register` adds.
  unfoldable pub registered : RegisterRequest → RegisterDraw → User
  unfolding Users.new_user
  registered request draw =
      Users.new_user draw.user_id draw.created_at request.email request.phone_number
        (hash_password request.password)

  -- The SMS code of a registration with a phone number.
  unfoldable pub store_code : Option ℕ → ℕ → ℕ → CodeDraw → Db → Db
  store_code none user_id now draw db = db
  store_code (some phone_number) user_id now draw db =
      PhoneCodes.create_code
        (PhoneCodes.new_code draw.code_id draw.created_at user_id phone_number
          (hash_code draw.raw_code) (now + minutes 10))
        db

  -- The transaction of `register`.
  unfoldable pub register_locked : RegisterRequest → ℕ → RegisterDraw → Action RegistrationResult
  unfolding check_duplicates store_code
  register_locked request now draw = do
    check_duplicates request
    create_user (registered request draw)
    modify (Users.create_role draw.user_id UserRoleType.buyer)
    modify (store_code request.phone_number draw.user_id now draw.code)
    pure (registration_result (registered request draw))

-- The delivery of the SMS code after the commit: `meanwhile` is what others commit until the
-- provider answers; an unconfirmed code is made expired at `failed_at`.
unfoldable pub send_code : Option ℕ → CodeDraw → (Db → Db) → Delivery → ℕ → Db → Db
send_code none draw meanwhile answer failed_at db = db
send_code (some phone_number) draw meanwhile answer failed_at db =
    let db' = meanwhile (log_call (ProviderCall.send_sms_code phone_number draw.raw_code) db) in
    if is_delivered answer then db' else expire_unsent_code draw.code_id failed_at db'

module _ (hash_password hash_code : ℕ → ℕ) where
  unfoldable pub register :
      RegisterRequest → ℕ → RegisterDraw → (Db → Db) → Delivery → ℕ → Action RegistrationResult
  register request now draw meanwhile answer failed_at = do
    result ← transaction (register_locked hash_password hash_code request now draw)
    modify (send_code request.phone_number draw.code meanwhile answer failed_at)
    pure result

-- How `lock_active_user` and `require_db_admin` end: the user, or the status of the
-- `AuthorizationError`.
pub data Authorization (A : Type 0) : Type 0 where
  granted : A → Authorization A
  denied : ℕ → Authorization A

unfoldable pub lock_active_user : ℕ → Bool → Db → Authorization User
lock_active_user user_id eligible db = elim (Users.get_by_id user_id db) [
  | none ↦ Authorization.denied 401
  | some user ↦
      if not (is_active user.account_status)
      then Authorization.denied 401
      else if eligible && (not user.email_verified || not user.phone_verified)
      then Authorization.denied 403
      else Authorization.granted user
]

-- The row that `require_db_admin` selects.
unfoldable pub is_admin_row : ℕ → UserRole → Bool
is_admin_row actor_id row = row.user_id == actor_id && Users.is_role row.role UserRoleType.admin

unfoldable pub require_db_admin : ℕ → Db → Authorization (Unit {0})
require_db_admin actor_id db =
    if is_none (first? (is_admin_row actor_id) db.roles)
    then Authorization.denied 403
    else Authorization.granted tt
