-- ===== src/Action.antt =====
-- How a service call runs: on the database, with Python's exceptions as values. The database
-- comes back after a raise too, since what was committed stays committed.
-- backend/app/core/transactions.py and backend/app/core/exceptions.py.
use unishop_china.Prelude.{ℕ, ◌≡◌, refl, ◌⊎◌, inl, inr, Bool, Option, if◌then◌else◌}
use unishop_china.Models.{Db}

-- The exceptions that the account services raise.
pub data Error : Type 0 where
  session_refresh request_verification refresh_token_collision : Error
  invalid_credentials invalid_password_reset invalid_password_change : Error
  email_verification_invalid email_verification_unavailable : Error
  email_verification_rate_limited : ℕ → Error
  invalid_verification_code verification_attempts_exceeded verification_code_expired : Error
  sms_provider_unavailable : Error
  verification_code_rate_limited : Option ℕ → Error
  email_already_registered phone_already_registered registration_conflict : Error
  runtime_error : Error

pub data Result (A : Type 0) : Type 0 where
  ok : A → Result A
  err : Error → Result A

abbrev pub Action : Type 0 → Type 0
Action A = Db → Result A × Db

module _ {A : Type 0} where
  abbrev pub pure : A → Action A
  pure a db = (ok a, db)

  abbrev pub raise : Error → Action A
  raise e db = (err e, db)

  abbrev pub gets : (Db → A) → Action A
  gets f db = (ok (f db), db)

  -- A computation that only raises.
  abbrev pub lift : Result A → Action A
  lift r db = (r, db)

infixl 5 ◌>>=◌ ◌>>◌
abbrev pub ◌>>=◌ : {A B : Type 0} → Action A → (A → Action B) → Action B
◌>>=◌ m f db = let (r, db') = m db in elim r [ ok a ↦ f a db' | err e ↦ (err e, db') ]

abbrev pub ◌>>◌ : {A B : Type 0} → Action A → Action B → Action B
m >> k = m >>= λ _. k

abbrev pub modify : (Db → Db) → Action (Unit {0})
modify f db = (ok tt, f db)

abbrev pub raise_if : Bool → Error → Action (Unit {0})
raise_if b e db = (if b then err e else ok tt, db)

-- What leaving a `with transaction` block keeps: on a raise the block's writes are rolled back.
abbrev pub settle : {A : Type 0} → Db → Result A × Db → Result A × Db
settle db (ok a, db') = (ok a, db')
settle db (err e, _) = (err e, db)

-- `commit_request_transaction` and the services' `_transaction`: a block that returns is
-- committed, a block that raises leaves the database as it found it.
abbrev pub transaction : {A : Type 0} → Action A → Action A
transaction m db = settle db (m db)

-- A check returns or raises.
pub check-cases : (r : Result (Unit {0})) → (r ≡ ok tt) ⊎ ((e : Error) × (r ≡ err e))
check-cases (ok u) = inl refl
check-cases (err e) = inr (e, refl)
