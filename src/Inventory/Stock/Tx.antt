-- ===== src/Inventory/Stock/Tx.antt =====
-- The transaction of `StockService`: the tables, the mailbox of low-stock notices, and the stock
-- rows locked so far. An error carries no state: a transaction that throws is rolled back whole.
use smi_backend.Prelude.{ℕ, Bool, true, false, Option, none, some, List}
use smi_backend.Prelude.Result.{Result, ok, err}
use smi_backend.Inventory.Stock.Types.{Db, ItemLowStockEvent, StockError}

pub record TxState : Type 0 where
  pub db : Db
  pub events : List ItemLowStockEvent
  pub locks : List (ℕ × ℕ)

abbrev pub Tx : Type 0 → Type 0
Tx A = TxState → Result StockError (A × TxState)

infixl 5 ◌>>=◌ ◌>>◌
abbrev pub ◌>>=◌ : {A B : Type 0} → Tx A → (A → Tx B) → Tx B
◌>>=◌ m f s = elim (m s) [ ok (a, s') ↦ f a s' | err e ↦ err e ]

abbrev pub ◌>>◌ : {A B : Type 0} → Tx A → Tx B → Tx B
m >> k = m >>= λ _. k

module _ {A : Type 0} where
  abbrev pub pure : A → Tx A
  pure a s = ok (a, s)

  abbrev pub throw : StockError → Tx A
  throw e s = err e

  abbrev pub gets : (Db → A) → Tx A
  gets f s = ok (f s.db, s)

  -- `if (o is missing) throw e`
  abbrev pub or_throw : Option A → StockError → Tx A
  or_throw none e = throw e
  or_throw (some a) e = pure a

abbrev pub modify : (Db → Db) → Tx (Unit {0})
modify f s = ok (tt, record s { db = f s.db })

abbrev pub throw_if : Bool → StockError → Tx (Unit {0})
throw_if b e s = elim b [ true ↦ err e | false ↦ ok (tt, s) ]
