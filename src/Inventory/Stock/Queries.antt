-- ===== src/Inventory/Stock/Queries.antt =====
-- The private helpers of `StockService` and the queries that they send, in a transaction. What the
-- database generates is a parameter: `new_id` is the default id of a movement, `stock_sum` the
-- aggregate `_sum` over the rows of an item, `nonce` the clock and random part of a reference, and
-- `has_equipment` the ids of the table of equipments, which the service does not write.
use smi_backend.Prelude.{
  ℕ, String, Bool, true, false, not, ◌&&◌, Option, none, some, List, [], ◌∷◌, ◌++◌, ◌==◌,
  if◌then◌else◌, or_default, is_some, any,
}
use smi_backend.Prelude.Int.{ℤ, pos, ◌+ℤ◌, ◌-ℤ◌, leb_ℤ, ltb_ℤ}
use smi_backend.Prelude.Result.{ok}
use smi_backend.Inventory.Stock.Types.{
  MovementDirection, Amount, finite, not_finite, Branch, StockRow, StockMovement, Db,
  StockMovementInput, ItemLowStockEvent, StockError, not_positive, item_not_found, branch_not_found,
  branch_inactive, insufficient_stock, duplicate_id, equipment_missing,
}
use smi_backend.Inventory.Stock.Tx.{Tx, ◌>>=◌, ◌>>◌, pure, throw, gets, or_throw, modify, throw_if}

pub record Env : Type 0 where
  pub new_id : List StockMovement → ℕ
  pub stock_sum : (ℕ → ℕ → Option StockRow) → ℕ → ℤ
  pub nonce : ℕ
  pub has_equipment : ℕ → Bool

-- The table with one row written.
abbrev pub set_stock : ℕ → ℕ → StockRow → (ℕ → ℕ → Option StockRow) → ℕ → ℕ → Option StockRow
set_stock i b row table i' b' = if (i' == i) && (b' == b) then some row else table i' b'

-- What `stock.upsert` leaves in a row.
abbrev pub upserted : StockRow → (StockRow → StockRow) → Option StockRow → StockRow
upserted create update none = create
upserted create update (some r) = update r

-- `stock.upsert`: the row that it leaves is written and returned.
abbrev pub upsert_stock : ℕ → ℕ → StockRow → (StockRow → StockRow) → Tx StockRow
upsert_stock i b create update = do
  row ← gets (λ db. upserted create update (db.stock i b))
  modify (λ db. record db { stock = set_stock i b row db.stock })
  pure row

abbrev pub empty_row : StockRow
empty_row = record { quantity = pos 0; minimum_quantity = pos 0 }

abbrev pub add_quantity : ℤ → StockRow → StockRow
add_quantity q r = record r { quantity = r.quantity +ℤ q }

-- The rows that `updateMany` with `quantity: { gte: q }` and a decrement writes: one or none.
abbrev pub covers : ℤ → Option StockRow → Bool
covers q none = false
covers q (some r) = leb_ℤ q r.quantity

abbrev pub decremented : ℤ → Option StockRow → StockRow
decremented q none = empty_row
decremented q (some r) = record r { quantity = r.quantity -ℤ q }

abbrev pub decrement_if_covered : ℕ → ℕ → ℤ → Tx Bool
decrement_if_covered i b q s = elim (covers q (s.db.stock i b)) [
  | true ↦
      (modify (λ db. record db { stock = set_stock i b (decremented q (db.stock i b)) db.stock })
          >> pure true)
        s
  | false ↦ pure false s
]

-- `SELECT … FOR UPDATE` of a stock row; a row that does not exist locks nothing.
abbrev pub lock_stock_row : ℕ → ℕ → Tx (Unit {0})
lock_stock_row i b s = elim (is_some (s.db.stock i b)) [
  | true ↦ ok (tt, record s { locks = s.locks ++ (i, b) ∷ [] })
  | false ↦ ok (tt, s)
]

-- `stock?.quantity ?? 0`
abbrev pub quantity_of : Option StockRow → ℤ
quantity_of none = pos 0
quantity_of (some r) = r.quantity

abbrev pub minimum_of : Option StockRow → ℤ
minimum_of none = pos 0
minimum_of (some r) = r.minimum_quantity

-- `balanceAt`
unfoldable pub balance_at : Db → ℕ → ℕ → ℤ
balance_at db i b = quantity_of (db.stock i b)

-- `assertPositive`, with the number that it lets through.
abbrev pub assert_positive : Amount → Tx ℤ
assert_positive not_finite = throw not_positive
assert_positive (finite q) = throw_if (leb_ℤ q (pos 0)) not_positive >> pure q

-- `findItem`
abbrev pub find_item : ℕ → Tx String
find_item i = do or_throw (← gets (λ db. db.items i)) (item_not_found i)

-- `assertBranchExists`
abbrev pub check_active : Branch → Tx String
check_active branch =
    throw_if (not branch.is_active) (branch_inactive branch.name) >> pure branch.name

abbrev pub assert_branch_exists : ℕ → Tx String
assert_branch_exists b = do
  branch ← gets (λ db. db.branches b)
  found ← or_throw branch (branch_not_found b)
  check_active found

abbrev pub has_id : ℕ → StockMovement → Bool
has_id id m = m.id == id

-- `explainFailedIssue`
abbrev pub name_of_branch : Option Branch → Option String
name_of_branch none = none
name_of_branch (some b) = some b.name

unfoldable pub explain_failed_issue : Env → StockMovementInput → Db → StockError
unfolding balance_at
explain_failed_issue env input db = elim (db.items input.item_id) [
  | none ↦ item_not_found input.item_id
  | some name ↦
      let available = balance_at db input.item_id input.branch_id in
      insufficient_stock name (name_of_branch (db.branches input.branch_id)) available
        input.quantity (env.stock_sum db.stock input.item_id -ℤ available)
]

-- The row that `record` creates.
abbrev pub new_movement : ℕ → StockMovementInput → ℤ → MovementDirection → ℤ → StockMovement
new_movement id input q direction resulting_balance = record {
  id = id;
  item_id = input.item_id;
  branch_id = input.branch_id;
  direction = direction;
  reason = input.reason;
  quantity = q;
  resulting_balance = resulting_balance;
  performed_by_id = input.performed_by_id;
  equipment_id = input.equipment_id;
  reference = input.reference;
  document_number = input.document_number;
  notes = input.notes;
  source_branch_id = none;
  destination_branch_id = none;
}

-- The foreign key of `equipmentId`, which may be null.
abbrev pub refers_to_equipment : Env → Option ℕ → Bool
refers_to_equipment env none = true
refers_to_equipment env (some e) = env.has_equipment e

-- `stockMovement.create`: the primary key is unique, and an equipment that it names exists.
abbrev pub create_movement : Env → StockMovement → Tx StockMovement
create_movement env m = do
  throw_if (← gets (λ db. any (has_id m.id) db.movements)) (duplicate_id m.id)
  throw_if (not (refers_to_equipment env m.equipment_id)) equipment_missing
  modify (λ db. record db { movements = m ∷ db.movements })
  pure m

-- `record`
unfoldable pub record_movement :
    Env → StockMovementInput → ℤ → MovementDirection → ℤ → Tx StockMovement
record_movement env input q direction resulting_balance = do
  id ← gets (λ db. or_default input.id (env.new_id db.movements))
  create_movement env (new_movement id input q direction resulting_balance)

-- The test of `queueIfBelowMinimum`: the balance crossed the branch's own minimum on this issue.
-- The sum that stands for the balance before the issue is exact on whole quantities.
unfoldable pub crossed_minimum : ℤ → ℤ → ℤ → Bool
crossed_minimum minimum balance q =
    ltb_ℤ (pos 0) minimum && (ltb_ℤ minimum (balance +ℤ q) && leb_ℤ balance minimum)

abbrev pub push_event : ItemLowStockEvent → Tx (Unit {0})
push_event e s = ok (tt, record s { events = s.events ++ e ∷ [] })

abbrev pub low_stock_event : StockMovementInput → ℤ → ℤ → Db → ItemLowStockEvent
low_stock_event input balance minimum db = record {
  item_id = input.item_id;
  item_name = db.items input.item_id;
  branch_id = input.branch_id;
  branch_name = name_of_branch (db.branches input.branch_id);
  quantity = balance;
  minimum_quantity = minimum;
}

-- `queueIfBelowMinimum`
unfoldable pub queue_if_below_minimum : StockMovementInput → Option StockRow → ℤ → ℤ → Tx (Unit {0})
unfolding crossed_minimum
queue_if_below_minimum input stock balance q s =
    elim (crossed_minimum (minimum_of stock) balance q) [
      | true ↦ push_event (low_stock_event input balance (minimum_of stock) s.db) s
      | false ↦ ok (tt, s)
    ]
