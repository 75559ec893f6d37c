-- ===== src/Market/Rules.antt =====
-- The rules by which the postcondition of a block is proved: one for each kind of statement, from
-- what the statement tells to the rest of the block.
use unishop_china.Prelude.{◌≡◌, refl, sym, subst, Bool, true, false, Option, none, some}
use unishop_china.Accounts.Service.{Authorization}
use unishop_china.Market.Tables.{MarketDb}
use unishop_china.Market.Call.{
  Fault, Outcome, Call, pure, fail, gets, found, load, authorize, transaction, ◌>>=◌, modify,
  fail_if, Done, Ensures,
}

module _ {B : Type 0} {Q : B → MarketDb → Type 0} where
  pub Ensures-pure : (b : B) (db : MarketDb) → Q b db → Ensures Q (pure b db)
  unfolding pure
  Ensures-pure b db q = Ensures.returns b db q

  pub Ensures-fail : (e : Fault) (db : MarketDb) → Ensures Q (fail e db)
  unfolding fail
  Ensures-fail e db = Ensures.raises e db

  -- A last statement that reads.
  pub Ensures-get : (f : MarketDb → B) (db : MarketDb) → Q (f db) db → Ensures Q (gets f db)
  unfolding gets
  Ensures-get f db q = Ensures.returns (f db) db q

  -- A last statement that loads a row.
  last_lem :
      (e : Fault) (o : Option B) (db : MarketDb)
      → ((b : B) → o ≡ some b → Q b db)
      → Ensures Q (found e o db)
  unfolding found
  last_lem e none db q = Ensures.raises e db
  last_lem e (some b) db q = Ensures.returns b db (q b refl)

  pub Ensures-last :
      (f : MarketDb → Option B) (e : Fault) (db : MarketDb)
      → ((b : B) → f db ≡ some b → Q b db)
      → Ensures Q (load f e db)
  unfolding load
  Ensures-last f e db q = last_lem e (f db) db q

  module _ {A : Type 0} (k : A → Call B) (db : MarketDb) where
    pub Ensures-gets : (f : MarketDb → A) → Ensures Q (k (f db) db) → Ensures Q ((gets f >>= k) db)
    unfolding gets ◌>>=◌
    Ensures-gets f q = q

    Ensures-found :
        (e : Fault) (o : Option A)
        → ((a : A) → o ≡ some a → Ensures Q (k a db))
        → Ensures Q ((found e o >>= k) db)
    unfolding found ◌>>=◌
    Ensures-found e none q = Ensures.raises e db
    Ensures-found e (some a) q = q a refl

    pub Ensures-load :
        (f : MarketDb → Option A) (e : Fault)
        → ((a : A) → f db ≡ some a → Ensures Q (k a db))
        → Ensures Q ((load f e >>= k) db)
    unfolding load ◌>>=◌
    Ensures-load f e q = Ensures-found e (f db) q

    authorized_lem :
        (z : Authorization A)
        → ((a : A) → z ≡ Authorization.granted a → Ensures Q (k a db))
        → Ensures Q ((authorize (λ _. z) >>= k) db)
    unfolding authorize ◌>>=◌
    authorized_lem (Authorization.granted a) q = q a refl
    authorized_lem (Authorization.denied status) q = Ensures.raises (Fault.authorization status) db

    pub Ensures-authorize :
        (f : MarketDb → Authorization A)
        → ((a : A) → f db ≡ Authorization.granted a → Ensures Q (k a db))
        → Ensures Q ((authorize f >>= k) db)
    unfolding authorize ◌>>=◌
    Ensures-authorize f q = authorized_lem (f db) q

    bind_lem :
        (P : A → MarketDb → Type 0) (r : Outcome A × MarketDb)
        → Ensures P r
        → ((a : A) (db' : MarketDb) → P a db' → Ensures Q (k a db'))
        → Ensures Q (((λ _. r) >>= k) db)
    unfolding ◌>>=◌
    bind_lem P _ (Ensures.returns a db' p) q = q a db' p
    bind_lem P _ (Ensures.raises e db') q = Ensures.raises e db'

    -- The rest after a block that is known by its postcondition.
    pub Ensures-bind :
        (m : Call A) (P : A → MarketDb → Type 0)
        → Ensures P (m db)
        → ((a : A) (db' : MarketDb) → P a db' → Ensures Q (k a db'))
        → Ensures Q ((m >>= k) db)
    unfolding ◌>>=◌
    Ensures-bind m P e q = bind_lem P (m db) e q

    -- The rest after a block that only reads.
    pub Ensures-check :
        (m : Call A) (P : A → Type 0)
        → Ensures (λ a db'. (db' ≡ db) × P a) (m db)
        → ((a : A) → P a → Ensures Q (k a db))
        → Ensures Q ((m >>= k) db)
    Ensures-check m P e q =
        Ensures-bind m (λ a db'. (db' ≡ db) × P a) e
          λ a db' (same, p). subst (λ d. Ensures Q (k a d)) (sym same) (q a p)

  module _ (k : Unit {0} → Call B) (db : MarketDb) where
    pub Ensures-modify :
        (f : MarketDb → MarketDb) → Ensures Q (k tt (f db)) → Ensures Q ((modify f >>= k) db)
    unfolding modify ◌>>=◌
    Ensures-modify f q = q

    unless_lem :
        (b : Bool) (e : Fault)
        → (b ≡ false → Ensures Q (k tt db))
        → Ensures Q ((fail_if (λ _. b) e >>= k) db)
    unfolding fail_if ◌>>=◌
    unless_lem true e q = Ensures.raises e db
    unless_lem false e q = q refl

    pub Ensures-unless :
        (b : MarketDb → Bool) (e : Fault)
        → (b db ≡ false → Ensures Q (k tt db))
        → Ensures Q ((fail_if b e >>= k) db)
    unfolding fail_if ◌>>=◌
    Ensures-unless b e q = unless_lem (b db) e q

-- A weaker postcondition.
pub Ensures-map :
    {A : Type 0} {P Q : A → MarketDb → Type 0} (r : Outcome A × MarketDb)
    → ((a : A) (db : MarketDb) → P a db → Q a db)
    → Ensures P r
    → Ensures Q r
Ensures-map _ h (Ensures.returns a db p) = Ensures.returns a db (h a db p)
Ensures-map _ h (Ensures.raises e db) = Ensures.raises e db

module _ {A : Type 0} {Q : A → MarketDb → Type 0} where
  settled_lem :
      (db : MarketDb) (r : Outcome A × MarketDb) → Ensures Q r → Done Q db (transaction (λ _. r) db)
  unfolding transaction
  settled_lem db _ (Ensures.returns a db' q) = q
  settled_lem db _ (Ensures.raises e db') = refl

  pub transaction-Done :
      (m : Call A) (db : MarketDb) → Ensures Q (m db) → Done Q db (transaction m db)
  unfolding transaction
  transaction-Done m db e = settled_lem db (m db) e

  -- What every successful end and the state before have in common, every end has.
  pub Done-keeps :
      (P : MarketDb → Type 0) (db : MarketDb) (r : Outcome A × MarketDb)
      → ((a : A) (db' : MarketDb) → Q a db' → P db')
      → P db
      → Done Q db r
      → P r.1
  Done-keeps P db (Outcome.done a, db') keep p d = keep a db' d
  Done-keeps P db (Outcome.failed e, db') keep p d = rw d p

pub Done-map :
    {A : Type 0} (P Q : A → MarketDb → Type 0) (db : MarketDb) (r : Outcome A × MarketDb)
    → ((a : A) (db' : MarketDb) → P a db' → Q a db')
    → Done P db r
    → Done Q db r
Done-map P Q db (Outcome.done a, db') f d = f a db' d
Done-map P Q db (Outcome.failed e, db') f d = d

-- The promise of a call that returned.
pub done_lem :
    {A : Type 0} (Q : A → MarketDb → Type 0) (db db' : MarketDb) (a : A) (r : Outcome A × MarketDb)
    → Done Q db r
    → r ≡ (Outcome.done a, db')
    → Q a db'
done_lem Q db db' a r d e = subst (Done Q db) e d
