-- ===== src/Repositories/Users.antt =====
-- backend/app/repositories/user_repository.py and role_repository.py.
use unishop_china.Prelude.{
  ℕ, ◌∷◌, ◌++◌, ◌&&◌, is_some, if◌then◌else◌, Bool, true, false, Option, none, some, List, map,
  ◌==◌,
}
use unishop_china.Prelude.Rows.{select, first?, update}
use unishop_china.Models.{User, UserRoleType, AccountStatus, IdentifierKind, Db}

abbrev pub has_id : ℕ → User → Bool
has_id user_id u = u.id == user_id

-- A unique nullable column against a value: NULL equals nothing.
abbrev pub eq_column : Option ℕ → ℕ → Bool
eq_column none v = false
eq_column (some c) v = c == v

unfoldable pub get_by_id : ℕ → Db → Option User
get_by_id user_id db = first? (has_id user_id) db.users

unfoldable pub get_by_email : ℕ → Db → Option User
get_by_email email db = first? (λ u. eq_column u.email email) db.users

unfoldable pub get_by_phone : ℕ → Db → Option User
get_by_phone phone_number db = first? (λ u. eq_column u.phone_number phone_number) db.users

-- `_find_user_for_update` of the password reset services, and the branch of the login.
unfoldable pub find : IdentifierKind → ℕ → Db → Option User
find IdentifierKind.by_email identifier = get_by_email identifier
find IdentifierKind.by_phone identifier = get_by_phone identifier

-- Assigning to a loaded row updates the row of that primary key.
unfoldable pub mark_phone_verified : User → Db → Db
mark_phone_verified user db = record db {
  users = update (has_id user.id) (λ u. record u { phone_verified = true }) db.users;
}

unfoldable pub mark_email_verified : User → Db → Db
mark_email_verified user db = record db {
  users = update (has_id user.id) (λ u. record u { email_verified = true }) db.users;
}

unfoldable pub update_password_hash : User → ℕ → Db → Db
update_password_hash user password_hash db = record db {
  users = update (has_id user.id) (λ u. record u { password_hash = password_hash }) db.users;
}

-- The new row, with the defaults of the columns.
unfoldable pub new_user : ℕ → ℕ → Option ℕ → Option ℕ → ℕ → User
new_user id created_at email phone_number password_hash = record {
  id = id;
  email = email;
  phone_number = phone_number;
  password_hash = password_hash;
  phone_verified = false;
  email_verified = false;
  account_status = AccountStatus.active;
  created_at = created_at;
}

-- What an `IntegrityError` names: the primary key, `ix_users_email` or `ix_users_phone_number`.
pub data Violation : Type 0 where
  primary_key users_email users_phone_number : Violation

-- How `create` ends: with the new row, or with an `IntegrityError`.
pub data Insertion : Type 0 where
  inserted : Db → Insertion
  violates : Violation → Insertion

-- A unique column holds a value once; NULL is not a value.
unfoldable pub is_taken : (User → Option ℕ) → Option ℕ → Db → Bool
is_taken column none db = false
is_taken column (some v) db = is_some (first? (λ u. eq_column (column u) v) db.users)

unfoldable pub create : User → Db → Insertion
create user db =
    if is_some (first? (has_id user.id) db.users)
    then Insertion.violates Violation.primary_key
    else if is_taken (λ u. u.email) user.email db
    then Insertion.violates Violation.users_email
    else if is_taken (λ u. u.phone_number) user.phone_number db
    then Insertion.violates Violation.users_phone_number
    else Insertion.inserted (record db { users = user ∷ db.users })

unfoldable pub create_role : ℕ → UserRoleType → Db → Db
create_role user_id role db = record db {
  roles = record { user_id = user_id; role = role } ∷ db.roles;
}

abbrev pub is_role : UserRoleType → UserRoleType → Bool
is_role UserRoleType.buyer UserRoleType.buyer = true
is_role UserRoleType.seller UserRoleType.seller = true
is_role UserRoleType.admin UserRoleType.admin = true
is_role _ _ = false

unfoldable pub roles_of : ℕ → UserRoleType → Db → List UserRoleType
roles_of user_id role db =
    map (λ r. r.role) (select (λ r. r.user_id == user_id && is_role r.role role) db.roles)

-- `order_by(UserRole.role)`: an enum column is ordered as the enum declares its values.
unfoldable pub list_roles_for_user : ℕ → Db → List UserRoleType
list_roles_for_user user_id db =
    roles_of user_id UserRoleType.buyer db
    ++ (roles_of user_id UserRoleType.seller db ++ roles_of user_id UserRoleType.admin db)
