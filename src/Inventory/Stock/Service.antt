-- ===== src/Inventory/Stock/Service.antt =====
-- The public operations of `StockService` (src/inventory/stock.service.ts) on the committed tables:
-- each opens its own transaction, commits it and only then emits the notices.
use smi_backend.Prelude.{
  ℕ, Bool, true, false, ◌&&◌, Option, none, some, List, [], ◌++◌, ◌==◌, find, opt_eq,
}
use smi_backend.Prelude.Int.{ℤ}
use smi_backend.Prelude.Result.{Result, ok, err}
use smi_backend.Concurrency.CreateOrReturn.{ExistingRecord, create_or_return}
use smi_backend.Inventory.Stock.Types.{
  MovementDirection, incoming, outgoing, MovementReason, transfer, Reference, transfer_of,
  transfer_at, StockRow, StockMovement, Db, StockMovementInput, AdjustToCountInput, TransferInput,
  TransferResult, ItemLowStockEvent, StockError, not_a_transfer, other_owner, counterpart_not_found,
}
use smi_backend.Inventory.Stock.Tx.{Tx}
use smi_backend.Inventory.Stock.Queries.{Env, has_id, name_of_branch}
use smi_backend.Inventory.Stock.Moves.{
  apply_incoming, apply_outgoing, adjust_to_count_tx, set_minimum_tx,
}
use smi_backend.Inventory.Stock.Transfer.{transfer_fresh_tx}

-- The committed tables and the notices sent so far.
pub record World : Type 0 where
  pub db : Db
  pub emitted : List ItemLowStockEvent

-- `run` without `within`: commit and emit, or roll back and emit nothing.
unfoldable pub run : {A : Type 0} → Tx A → World → Result StockError A × World
run operation w = elim (operation (record { db = w.db; events = []; locks = [] })) [
  | ok (a, s) ↦ (ok a, record { db = s.db; emitted = w.emitted ++ s.events })
  | err e ↦ (err e, w)
]

-- The four tests of `findTransfer`: the reference and the destination of a transfer's outgoing leg.
abbrev pub transfer_parts :
    MovementReason → MovementDirection → Option Reference → Option ℕ → Option (Reference × ℕ)
transfer_parts transfer outgoing (some reference) (some destination) = some (reference, destination)
transfer_parts _ _ _ _ = none

abbrev pub reference_eq : Reference → Option Reference → Bool
reference_eq (Reference.given a) (some (Reference.given b)) = a == b
reference_eq (transfer_of a) (some (transfer_of b)) = a == b
reference_eq (transfer_at a) (some (transfer_at b)) = a == b
reference_eq _ _ = false

abbrev pub is_incoming_transfer : MovementReason → MovementDirection → Bool
is_incoming_transfer transfer incoming = true
is_incoming_transfer _ _ = false

-- The `where` by which `findTransfer` finds the incoming leg.
abbrev pub is_counterpart : StockMovement → Reference → ℕ → StockMovement → Bool
is_counterpart out reference destination m =
    reference_eq reference m.reference
    && (is_incoming_transfer m.reason m.direction
        && ((m.item_id == out.item_id)
            && ((m.branch_id == destination)
                && (opt_eq m.source_branch_id (some out.branch_id)
                    && opt_eq m.performed_by_id out.performed_by_id))))

-- The `result` of `findTransfer`: the stored transfer in the form of a new one.
abbrev pub replay_with :
    StockMovement → Reference → ℕ → Db → Option StockMovement → Result StockError TransferResult
replay_with out reference destination db none = err counterpart_not_found
replay_with out reference destination db (some into) = ok (record {
  reference = reference;
  out = out;
  incoming = into;
  source_branch_name = name_of_branch (db.branches out.branch_id);
  destination_branch_name = name_of_branch (db.branches destination);
})

unfoldable pub replay_transfer :
    StockMovement → Reference → ℕ → World → Result StockError TransferResult
replay_transfer out reference destination w =
    replay_with out reference destination w.db
      (find (is_counterpart out reference destination) w.db.movements)

abbrev pub Existing : Type 0 → Type 0
Existing T = Result StockError (Option (ExistingRecord World StockError T))

abbrev pub existing_transfer : StockMovement → Option (Reference × ℕ) → Existing TransferResult
existing_transfer out none = err not_a_transfer
existing_transfer out (some (reference, destination)) = ok (
    some (record {
      owner_id = out.performed_by_id;
      result = replay_transfer out reference destination;
    }))

abbrev pub existing_if_transfer : Option StockMovement → Existing TransferResult
existing_if_transfer none = ok none
existing_if_transfer (some m) =
    existing_transfer m (transfer_parts m.reason m.direction m.reference m.destination_branch_id)

-- `findTransfer`
unfoldable pub find_transfer : ℕ → World → Existing TransferResult
find_transfer id w = existing_if_transfer (find (has_id id) w.db.movements)

module _ (env : Env) where
  -- `receive`
  unfoldable pub receive : StockMovementInput → World → Result StockError StockMovement × World
  unfolding run
  receive input = run (apply_incoming env input)

  -- `issue`
  unfoldable pub issue : StockMovementInput → World → Result StockError StockMovement × World
  unfolding run
  issue input = run (apply_outgoing env input)

  -- `adjustToCount`
  unfoldable pub adjust_to_count :
      AdjustToCountInput → World → Result StockError (Option StockMovement) × World
  unfolding run
  adjust_to_count input = run (adjust_to_count_tx env input)

  -- `setMinimum`; its two lookups write nothing.
  unfoldable pub set_minimum : ℕ → ℕ → ℤ → World → Result StockError StockRow × World
  unfolding run
  set_minimum i b minimum = run (set_minimum_tx i b minimum)

  -- `transferFresh`
  unfoldable pub transfer_fresh :
      TransferInput → ℕ → World → Result StockError TransferResult × World
  unfolding run
  transfer_fresh input user = run (transfer_fresh_tx env input user)

  -- `transfer`: `meanwhile` is what other requests commit after the lookup of the id.
  unfoldable pub transfer_stock :
      TransferInput → ℕ → (World → World) → World → Result StockError TransferResult × World
  transfer_stock input user meanwhile =
      create_or_return find_transfer (transfer_fresh input user) input.id user other_owner meanwhile
