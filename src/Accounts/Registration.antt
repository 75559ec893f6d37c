-- ===== src/Accounts/Registration.antt =====
-- What a registration promises: unique identifiers, all or nothing, and that the account can log
-- in.
use unishop_china.Prelude.{
  ℕ, ◌≤◌, ◌≡◌, refl, sym, subst, ◌⊎◌, inl, inr, Bool, Option, none, some, List, ◌∷◌, arith,
  Bool-cases, Option-cases,
}
use unishop_china.Prelude.Rows.{first?, count}
use unishop_china.Prelude.Rows.Counting.{count-none}
use unishop_china.Models.{User, UserRoleType, Db, Delivery}
use unishop_china.Action.{Result, ok, err, Error, check-cases}
use unishop_china.Repositories.Users
use unishop_china.Repositories.Users.{Insertion, Violation}
use unishop_china.Accounts.Service
use unishop_china.Accounts.Service.{
  RegisterRequest, RegisterDraw, RegistrationResult, registered, register_locked, register,
  check_email, check_phone, check_duplicates, create_user, store_code, send_code,
  registration_result, authenticate, complete_login,
}

abbrev pub has_email : ℕ → User → Bool
has_email v u = Users.eq_column u.email v

abbrev pub has_phone : ℕ → User → Bool
has_phone v u = Users.eq_column u.phone_number v

-- Keys, e-mail addresses and phone numbers name at most one account.
pub record IsValid (users : List User) : Type 0 where
  pub unique_id : (i : ℕ) → count (Users.has_id i) users ≤ 1
  pub unique_email : (v : ℕ) → count (has_email v) users ≤ 1
  pub unique_phone : (v : ℕ) → count (has_phone v) users ≤ 1

-- A value that no row has, or no value.
abbrev pub IsFree : (ℕ → User → Bool) → Option ℕ → List User → Type 0
IsFree has none users = Unit
IsFree has (some v) users = count (has v) users ≡ 0

module _ (hash_password hash_code : ℕ → ℕ) (request : RegisterRequest) (now : ℕ)
    (draw : RegisterDraw) where
  abbrev pub new_account : User
  new_account = registered hash_password hash_code request draw

  -- The state that the transaction of a registration leaves.
  abbrev pub stored : Db → Db
  stored db = store_code hash_password hash_code request.phone_number draw.user_id now draw.code (
      Users.create_role draw.user_id UserRoleType.buyer
        (record db { users = new_account ∷ db.users }))

  pub record Registers (db : Db) (r : RegistrationResult) (db' : Db) : Type 0 where
    pub free_id : count (Users.has_id draw.user_id) db.users ≡ 0
    pub free_email : IsFree has_email request.email db.users
    pub free_phone : IsFree has_phone request.phone_number db.users
    pub result : r ≡ registration_result new_account
    pub state : db' ≡ stored db

  abbrev pub Registered : Db → Result RegistrationResult × Db → Type 0
  Registered db (ok r, db') = Registers db r db'
  Registered db (err e, db') = Unit

  email_lem :
      (email : Option ℕ) (db : Db) → check_email email db ≡ ok tt → IsFree has_email email db.users
  unfolding check_email Users.get_by_email
  email_lem none db e = tt
  email_lem (some v) db e = count-none (has_email v) db.users (ground arith)

  phone_lem :
      (phone : Option ℕ) (db : Db) → check_phone phone db ≡ ok tt → IsFree has_phone phone db.users
  unfolding check_phone Users.get_by_phone
  phone_lem none db e = tt
  phone_lem (some v) db e = count-none (has_phone v) db.users (ground arith)

  inserted_lem :
      (user : User) (db : Db)
      → ((x : Error) × (create_user user db ≡ (err x, db)))
        ⊎ ((first? (Users.has_id user.id) db.users ≡ none)
            × (create_user user db ≡ (ok tt, record db { users = user ∷ db.users })))
  unfolding create_user Users.create
  inserted_lem user db = elim (Option-cases (first? (Users.has_id user.id) db.users)) [
    | inr (other, e) ↦ inl (Service.safe_integrity_conflict Violation.primary_key, ground arith)
    | inl free ↦ elim (Bool-cases (Users.is_taken (λ u. u.email) user.email db)) [
      | inl taken ↦ inl (Service.safe_integrity_conflict Violation.users_email, ground arith)
      | inr free_email ↦
          elim (Bool-cases (Users.is_taken (λ u. u.phone_number) user.phone_number db)) [
            | inl taken ↦
                inl (Service.safe_integrity_conflict Violation.users_phone_number, ground arith)
            | inr free_phone ↦ inr (free, ground arith)
          ]
    ]
  ]

  refused_email :
      (e : Error) (db : Db)
      → check_email request.email db ≡ err e
      → register_locked hash_password hash_code request now draw db ≡ (err e, db)
  unfolding register_locked
  refused_email e db h = ground arith

  refused_phone :
      (e : Error) (db : Db)
      → check_email request.email db ≡ ok tt
      → check_phone request.phone_number db ≡ err e
      → register_locked hash_password hash_code request now draw db ≡ (err e, db)
  unfolding register_locked
  refused_phone e db h g = ground arith

  refused_insert :
      (e : Error) (db : Db)
      → check_email request.email db ≡ ok tt
      → check_phone request.phone_number db ≡ ok tt
      → create_user new_account db ≡ (err e, db)
      → register_locked hash_password hash_code request now draw db ≡ (err e, db)
  unfolding register_locked
  refused_insert e db h g f = ground arith

  accepted :
      (db : Db)
      → check_email request.email db ≡ ok tt
      → check_phone request.phone_number db ≡ ok tt
      → create_user new_account db ≡ (ok tt, record db { users = new_account ∷ db.users })
      → register_locked hash_password hash_code request now draw db
        ≡ (ok (registration_result new_account), stored db)
  unfolding register_locked
  accepted db h g f = ground arith

  locked-Registered :
      (db : Db) → Registered db (register_locked hash_password hash_code request now draw db)
  unfolding registered Users.new_user
  locked-Registered db = elim (check-cases (check_email request.email db)) [
    | inr (e, taken) ↦ subst (Registered db) (sym (refused_email e db taken)) tt
    | inl free_email ↦ elim (check-cases (check_phone request.phone_number db)) [
      | inr (e, taken) ↦ subst (Registered db) (sym (refused_phone e db free_email taken)) tt
      | inl free_phone ↦ elim (inserted_lem new_account db) [
        | inl (e, failed) ↦
            subst (Registered db) (sym (refused_insert e db free_email free_phone failed)) tt
        | inr (free_id, made) ↦
            subst (Registered db) (sym (accepted db free_email free_phone made)) (record {
              free_id = count-none (Users.has_id draw.user_id) db.users free_id;
              free_email = email_lem request.email db free_email;
              free_phone = phone_lem request.phone_number db free_phone;
              result = refl;
              state = refl;
            })
      ]
    ]
  ]

  module _ (meanwhile : Db → Db) (answer : Delivery) (failed_at : ℕ) where
    -- What `register` promises.
    abbrev pub RegisterPromise : Db → Result RegistrationResult × Db → Type 0
    RegisterPromise db (ok r, db') =
        (d : Db) × Registers db r d
        × (db' ≡ send_code request.phone_number draw.code meanwhile answer failed_at d)
    RegisterPromise db (err e, db') = db' ≡ db

    register-state :
        (r : Result RegistrationResult) (db d : Db)
        → register_locked hash_password hash_code request now draw db ≡ (r, d)
        → register hash_password hash_code request now draw meanwhile answer failed_at db ≡ elim r [
          | ok x ↦ (ok x, send_code request.phone_number draw.code meanwhile answer failed_at d)
          | err e ↦ (err e, db)
        ]
    unfolding register
    register-state (ok x) db d e = ground arith
    register-state (err x) db d e = ground arith

    pub register-Promise :
        (db : Db)
        → RegisterPromise db
            (register hash_password hash_code request now draw meanwhile answer failed_at db)
    register-Promise db = go _ _ refl (locked-Registered db)
      where
        go :
            (r : Result RegistrationResult) (d : Db)
            → register_locked hash_password hash_code request now draw db ≡ (r, d)
            → Registered db (r, d)
            → RegisterPromise db
                (register hash_password hash_code request now draw meanwhile answer failed_at db)
        go (ok x) d e i =
            subst (RegisterPromise db) (sym (register-state (ok x) db d e)) (d, i, refl)
        go (err x) d e i = subst (RegisterPromise db) (sym (register-state (err x) db d e)) refl
