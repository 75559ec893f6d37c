-- ===== src/Market/Call.antt =====
-- How a marketplace call runs: on the database, with the services' exceptions as values.
-- backend/app/core/transactions.py, and the exceptions of catalog_service.py, product_service.py,
-- profile_service.py, personalization_errors.py and core/authorization.py.
use unishop_china.Prelude.{ℕ, ◌≡◌, Bool, true, false, Option, none, some, if◌then◌else◌}
use unishop_china.Accounts.Service.{Authorization}
use unishop_china.Market.Tables.{MarketDb}

-- An exception with a status keeps it. `integrity_error` is a constraint that no service handles.
pub data Fault : Type 0 where
  authorization catalog listing personalization : ℕ → Fault
  profile_unavailable onboarding_incomplete runtime_error type_error integrity_error : Fault

pub data Outcome (A : Type 0) : Type 0 where
  done : A → Outcome A
  failed : Fault → Outcome A

abbrev pub Call : Type 0 → Type 0
Call A = MarketDb → Outcome A × MarketDb

module _ {A : Type 0} where
  unfoldable pub pure : A → Call A
  pure a db = (Outcome.done a, db)

  unfoldable pub fail : Fault → Call A
  fail e db = (Outcome.failed e, db)

  unfoldable pub gets : (MarketDb → A) → Call A
  gets f db = (Outcome.done (f db), db)

  -- What is computed without the database; `None` raises.
  unfoldable pub found : Fault → Option A → Call A
  found e none db = (Outcome.failed e, db)
  found e (some a) db = (Outcome.done a, db)

  -- The row that a statement finds; `None` raises.
  unfoldable pub load : (MarketDb → Option A) → Fault → Call A
  unfolding found
  load f e db = found e (f db) db

  authorized : Authorization A → Call A
  authorized (Authorization.granted a) db = (Outcome.done a, db)
  authorized (Authorization.denied status) db = (Outcome.failed (Fault.authorization status), db)

  -- A check of core/authorization.py.
  unfoldable pub authorize : (MarketDb → Authorization A) → Call A
  unfolding authorized
  authorize f db = authorized (f db) db

  settle : MarketDb → Outcome A × MarketDb → Outcome A × MarketDb
  settle db (Outcome.done a, db') = (Outcome.done a, db')
  settle db (Outcome.failed e, _) = (Outcome.failed e, db)

  -- A `with transaction` block that raises leaves the database as it found it.
  unfoldable pub transaction : Call A → Call A
  unfolding settle
  transaction m db = settle db (m db)

infixl 5 ◌>>=◌ ◌>>◌
unfoldable pub ◌>>=◌ : {A B : Type 0} → Call A → (A → Call B) → Call B
◌>>=◌ m f db =
    let (r, db') = m db in
    elim r [ Outcome.done a ↦ f a db' | Outcome.failed e ↦ (Outcome.failed e, db') ]

abbrev pub ◌>>◌ : {A B : Type 0} → Call A → Call B → Call B
m >> k = m >>= λ _. k

unfoldable pub modify : (MarketDb → MarketDb) → Call (Unit {0})
modify f db = (Outcome.done tt, f db)

unfoldable pub fail_if : (MarketDb → Bool) → Fault → Call (Unit {0})
fail_if b e db = (if b db then Outcome.failed e else Outcome.done tt, db)

abbrev pub is_done : {A : Type 0} → Outcome A → Bool
is_done (Outcome.done a) = true
is_done (Outcome.failed e) = false

-- A call that did what it promises, or raised and left the database as it was.
abbrev pub Done : {A : Type 0} → (A → MarketDb → Type 0) → MarketDb → Outcome A × MarketDb → Type 0
Done P db (Outcome.done a, db') = P a db'
Done P db (Outcome.failed e, db') = db' ≡ db

-- What a block that returns leaves; a block that raises is rolled back.
pub data Ensures {A : Type 0} (Q : A → MarketDb → Type 0) : Outcome A × MarketDb → Type 0 where
  returns : (a : A) (db : MarketDb) → Q a db → Ensures Q (Outcome.done a, db)
  raises : (e : Fault) (db : MarketDb) → Ensures Q (Outcome.failed e, db)
