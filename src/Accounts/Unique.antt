-- ===== src/Accounts/Unique.antt =====
-- Registrations keep identifiers unique, and a registered account can log in.
use unishop_china.Prelude.{
  ℕ, ◌≤◌, ◌≡◌, refl, subst, ap, ◌∙◌, inl, inr, Bool, true, Option, none, some, List, ◌∷◌, arith,
  Bool-cases, Option-cases, ◌==◌, ==_refl,
}
use unishop_china.Prelude.Rows.{first?, count}
use unishop_china.Models.{User, IdentifierKind, Db, Delivery, log_call}
use unishop_china.Action.{Result, ok, err, transaction}
use unishop_china.Repositories.Users
use unishop_china.Repositories.PhoneCodes
use unishop_china.Sessions.Service.{SessionEnv, Draw}
use unishop_china.PhoneVerification.Service.{expire_unsent_code}
use unishop_china.Accounts.Service.{
  RegisterRequest, RegisterDraw, RegistrationResult, registered, register, store_code, send_code,
  authenticate, complete_login,
}
use unishop_china.Accounts.Login.{authenticate_accepted}
use unishop_china.Accounts.Registration.{
  IsValid, IsFree, has_email, has_phone, new_account, stored, Registers, RegisterPromise,
  register-Promise,
}

-- The accounts in the states that follow the insertion.
stored-users :
    (hash_password hash_code : ℕ → ℕ) (request : RegisterRequest) (now : ℕ) (draw : RegisterDraw)
    (db : Db)
    → (stored hash_password hash_code request now draw db).users
      ≡ new_account hash_password hash_code request now draw ∷ db.users
unfolding store_code Users.create_role PhoneCodes.create_code
stored-users hash_password hash_code request now draw db =
    elim (Option-cases request.phone_number) [
      | inl absent ↦ ground arith
      | inr (phone, given) ↦ ground arith
    ]

sent-users :
    (request : RegisterRequest) (draw : RegisterDraw) (answer : Delivery) (failed_at : ℕ) (db : Db)
    → (send_code request.phone_number draw.code (λ d. d) answer failed_at db).users ≡ db.users
unfolding send_code log_call expire_unsent_code PhoneCodes.expire_code
sent-users request draw answer failed_at db = elim (Option-cases request.phone_number) [
  | inl absent ↦ ground arith
  | inr (phone, given) ↦ ground arith
]

one_more :
    (has : ℕ → User → Bool) (column : User → Option ℕ) (user : User) (users : List User)
    → ((v : ℕ) (u : User) → has v u ≡ Users.eq_column (column u) v)
    → IsFree has (column user) users
    → ((v : ℕ) → count (has v) users ≤ 1)
    → (v : ℕ) → count (has v) (user ∷ users) ≤ 1
unfolding count
one_more has column user users agrees free unique v = go (column user) refl free
  where
    go : (o : Option ℕ) → column user ≡ o → IsFree has o users → count (has v) (user ∷ users) ≤ 1
    go none e f = ground (arith, agrees v user, unique v)
    go (some w) e f = elim (Bool-cases (w == v)) [
      | inl same ↦
          let w≡v : w ≡ v = ground arith in
          ground (arith, agrees v user, subst (λ x. count (has x) users ≡ 0) w≡v f)
      | inr other ↦ ground (arith, agrees v user, unique v)
    ]

module _ (hash_password hash_code : ℕ → ℕ) (request : RegisterRequest) (now : ℕ)
    (draw : RegisterDraw) (answer : Delivery) (failed_at : ℕ) (db : Db) where
  account : User
  account = new_account hash_password hash_code request now draw

  registered-IsValid :
      (d : Db) (r : RegistrationResult)
      → Registers hash_password hash_code request now draw db r d
      → IsValid db.users
      → IsValid d.users
  unfolding count registered Users.new_user
  registered-IsValid d r made v =
      rw (made.state, stored-users hash_password hash_code request now draw db)
        (record {
          unique_id = λ i. elim (Bool-cases (draw.user_id == i)) [
            | inl same ↦
                let e : draw.user_id ≡ i = ground arith in
                ground (arith, subst (λ x. count (Users.has_id x) db.users ≡ 0) e made.free_id)
            | inr other ↦ ground (arith, v.unique_id i)
          ];
          unique_email =
              one_more has_email (λ u. u.email)
                (new_account hash_password hash_code request now draw) db.users (λ w u. refl)
                made.free_email v.unique_email;
          unique_phone =
              one_more has_phone (λ u. u.phone_number)
                (new_account hash_password hash_code request now draw) db.users (λ w u. refl)
                made.free_phone v.unique_phone;
        })

  -- A registration keeps keys, e-mail addresses and phone numbers unique, if nothing is committed
  -- while the SMS code is sent.
  pub register-IsValid :
      IsValid db.users
      → IsValid
          (register hash_password hash_code request now draw (λ d. d) answer failed_at db).1.users
  register-IsValid v =
      go _ (register-Promise hash_password hash_code request now draw (λ d. d) answer failed_at db)
    where
      go :
          (result : Result RegistrationResult × Db)
          → RegisterPromise hash_password hash_code request now draw
              (λ d. d)
              answer
              failed_at
              db
              result
          → IsValid result.1.users
      go (err e, db') same = rw same v
      go (ok r, db') (d, made, sent) =
          rw (sent, sent-users request draw answer failed_at d) (registered-IsValid d r made v)

  -- The identifier of a kind that a registration gives.
  abbrev pub Gives : IdentifierKind → ℕ → Type 0
  Gives IdentifierKind.by_email identifier = request.email ≡ some identifier
  Gives IdentifierKind.by_phone identifier = request.phone_number ≡ some identifier

  account-found :
      (kind : IdentifierKind) (identifier : ℕ) (d : Db)
      → Gives kind identifier
      → d.users ≡ new_account hash_password hash_code request now draw ∷ db.users
      → Users.find kind identifier d ≡ some (new_account hash_password hash_code request now draw)
  unfolding Users.find Users.get_by_email Users.get_by_phone first? registered Users.new_user
  account-found IdentifierKind.by_email identifier d e users = ground (arith, ==_refl identifier)
  account-found IdentifierKind.by_phone identifier d e users = ground (arith, ==_refl identifier)

  -- A registered account can log in: after a registration, with nothing committed while the SMS
  -- code is sent, a login by either identifier that it gave and with its password passes the check
  -- of the credentials and goes on to the session of the new account, if the verifier accepts a
  -- password against its own hash.
  pub register_authenticates :
      (env : SessionEnv) (password_verifier : ℕ → ℕ → Bool) (dummy_password_hash : ℕ)
      (kind : IdentifierKind) (identifier later family_id : ℕ) (draws : ℕ → Draw)
      (r : RegistrationResult) (db' : Db)
      → password_verifier request.password (hash_password request.password) ≡ true
      → Gives kind identifier
      → register hash_password hash_code request now draw (λ d. d) answer failed_at db ≡ (ok r, db')
      → authenticate env password_verifier dummy_password_hash kind identifier request.password
          later family_id draws db'
        ≡ transaction
            (complete_login env password_verifier dummy_password_hash
              (new_account hash_password hash_code request now draw)
              later
              family_id
              draws)
            db'
  unfolding registered Users.new_user
  register_authenticates env password_verifier dummy_password_hash kind identifier later family_id
        draws r db' accepts gives e =
      let (d, made, sent) =
        subst
          (RegisterPromise hash_password hash_code request now draw (λ d. d) answer failed_at db) e
          (register-Promise hash_password hash_code request now draw (λ d. d) answer failed_at
            db) in
      authenticate_accepted env password_verifier dummy_password_hash kind identifier
        request.password later family_id draws db'
        (new_account hash_password hash_code request now draw)
        (account-found kind identifier db' gives (
          ap (λ (x : Db). x.users) sent
          ∙ sent-users request draw answer failed_at d
          ∙ ap (λ (x : Db). x.users) made.state
          ∙ stored-users hash_password hash_code request now draw db))
        accepts refl
