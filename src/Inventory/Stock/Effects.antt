-- ===== src/Inventory/Stock/Effects.antt =====
-- What an issue leaves in the tables.
use smi_backend.Prelude.{
  ℕ, ◌≡◌, refl, true, ◌&&◌, Option, none, some, [], ◌∷◌, ◌++◌, arith, ◌==◌, if◌then◌else◌,
}
use smi_backend.Prelude.Int.{ℤ, ◌+ℤ◌, ◌-ℤ◌}
use smi_backend.Prelude.Result.{Result, ok, err}
use smi_backend.Inventory.Stock.Types.{
  finite, StockRow, StockMovement, Db, StockMovementInput, StockError,
}
use smi_backend.Inventory.Stock.Tx.{TxState, Tx}
use smi_backend.Inventory.Stock.Queries.{Env, quantity_of, balance_at, covers, decremented}
use smi_backend.Inventory.Stock.Moves.{apply_outgoing}
use smi_backend.Inventory.Stock.Posted.{Issued, Received, apply_outgoing-Issued}
use smi_backend.Inventory.Stock.Ledger.{incoming_row_quantity}
use smi_backend.Inventory.Stock.Service.{World, run, issue}

abbrev pub start : World → TxState
start w = record { db = w.db; events = []; locks = [] }

-- Inversion of a call that answers.
pub run-eq-ok :
    {A : Type 0} (m : Tx A) (w w' : World) (a : A)
    → run m w ≡ (ok a, w')
    → (s : TxState) × (m (start w) ≡ ok (a, s))
      × (record { db = s.db; emitted = w.emitted ++ s.events } ≡ w')
unfolding run
run-eq-ok {A} m w w' a h = go (m (start w)) refl
  where
    go :
        (r : Result StockError (A × TxState))
        → m (start w) ≡ r
        → (s : TxState) × (m (start w) ≡ ok (a, s))
          × (record { db = s.db; emitted = w.emitted ++ s.events } ≡ w')
    go (ok (b, s)) e = (s, cc (rw (e, run) at h), cc (rw (e, run) at h))
    go (err x) e = absurd (cc (rw (e, run) at h))

-- A number taken off one balance.
abbrev pub less_at : ℕ → ℕ → ℤ → Db → ℕ → ℕ → ℤ
less_at i b q db i' b' =
    if (i' == i) && (b' == b) then balance_at db i' b' -ℤ q else balance_at db i' b'

-- A number added to one balance.
abbrev pub more_at : ℕ → ℕ → ℤ → Db → ℕ → ℕ → ℤ
more_at i b q db i' b' =
    if (i' == i) && (b' == b) then balance_at db i' b' +ℤ q else balance_at db i' b'

decremented-sub :
    (q : ℤ) (o : Option StockRow)
    → covers q o ≡ true
    → (decremented q o).quantity ≡ quantity_of o -ℤ q
decremented-sub q none h = absurd (cc)
decremented-sub q (some r) h = refl

pub Issued-balance :
    (input : StockMovementInput) (m : StockMovement) (s s' : TxState) (i b : ℕ)
    → Issued input m s s'
    → balance_at s'.db i b ≡ less_at input.item_id input.branch_id m.quantity s.db i b
unfolding balance_at
Issued-balance input m s s' i b r = ground (
  arith,
  decremented-sub r.q (s.db.stock input.item_id input.branch_id) r.enough,
  r.db_is,
  r.movement_is,
)

pub Received-balance :
    (input : StockMovementInput) (m : StockMovement) (s s' : TxState) (i b : ℕ)
    → Received input m s s'
    → balance_at s'.db i b ≡ more_at input.item_id input.branch_id m.quantity s.db i b
unfolding balance_at
Received-balance input m s s' i b r = ground (
  arith,
  incoming_row_quantity r.q (s.db.stock input.item_id input.branch_id),
  r.db_is,
  r.movement_is,
)

-- A successful issue takes its quantity off the one balance and no other, answers with the balance
-- that is left, and puts its movement before the others.
pub issue-effect :
    (env : Env) (input : StockMovementInput) (m : StockMovement) (w w' : World) (i b : ℕ)
    → issue env input w ≡ (ok m, w')
    → (balance_at w'.db i b ≡ less_at input.item_id input.branch_id m.quantity w.db i b)
      × (m.resulting_balance ≡ balance_at w'.db input.item_id input.branch_id)
      × (w'.db.movements ≡ m ∷ w.db.movements)
      × (input.quantity ≡ finite m.quantity)
unfolding issue balance_at
issue-effect env input m w w' i b h =
    let (s, e, done) = run-eq-ok (apply_outgoing env input) w w' m h in
    let r = apply_outgoing-Issued env input (start w) s m e in
    (
      rw (← done) (Issued-balance input m (start w) s i b r),
      ground (arith, done, r.db_is, r.movement_is),
      ground (arith, done, r.db_is, r.movement_is),
      ground (arith, r.quantity_is, r.movement_is),
    )
