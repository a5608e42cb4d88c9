-- ===== src/Inventory/Stock/Transfer.antt =====
-- The transfer between two branches of src/inventory/stock.service.ts: the rows locked in order, the
-- two movements with one reference, and the transfer that a retry finds.
use smi_backend.Prelude.{
  ℕ, String, true, false, Option, none, some, map, ◌==◌, ltb, if◌then◌else◌, or_else,
}
use smi_backend.Inventory.Stock.Types.{
  transfer, Reference, transfer_of, transfer_at, transfer_to, transfer_from, StockMovement,
  StockMovementInput, TransferInput, TransferResult, same_branch,
}
use smi_backend.Inventory.Stock.Tx.{Tx, ◌>>=◌, ◌>>◌, pure, modify, throw_if}
use smi_backend.Inventory.Stock.Queries.{
  Env, upsert_stock, empty_row, lock_stock_row, assert_branch_exists, has_id,
}
use smi_backend.Inventory.Stock.Moves.{apply_incoming, apply_outgoing}

-- `lockTransferRows`: the destination's row is created so that there is something to lock.
abbrev pub lock_in_turn : ℕ → ℕ → ℕ → Tx (Unit {0})
lock_in_turn i destination b s = elim (b == destination) [
  | true ↦ (upsert_stock i b empty_row (λ r. r) >>= λ _. lock_stock_row i b) s
  | false ↦ lock_stock_row i b s
]

unfoldable pub lock_transfer_rows : ℕ → ℕ → ℕ → Tx (Unit {0})
lock_transfer_rows i source destination =
    lock_in_turn i destination (if ltb destination source then destination else source)
    >> lock_in_turn i destination (if ltb destination source then source else destination)

-- `stockMovement.update` of one row by its id.
abbrev pub update_movement : ℕ → (StockMovement → StockMovement) → Tx (Unit {0})
update_movement id f =
    modify (λ db. record db { movements = map (λ m. if has_id id m then f m else m) db.movements })

abbrev pub set_destination : ℕ → StockMovement → StockMovement
set_destination b m = record m { destination_branch_id = some b }

abbrev pub set_source : ℕ → StockMovement → StockMovement
set_source b m = record m { source_branch_id = some b }

-- The input of each of the two movements of a transfer.
abbrev pub outgoing_leg : TransferInput → ℕ → Reference → String → StockMovementInput
outgoing_leg input user reference destination_name = record {
  id = input.id;
  item_id = input.item_id;
  branch_id = input.source_branch_id;
  quantity = input.quantity;
  reason = transfer;
  performed_by_id = some user;
  equipment_id = none;
  reference = some reference;
  document_number = input.document_number;
  notes = or_else input.notes (some (transfer_to destination_name));
}

abbrev pub incoming_leg : TransferInput → ℕ → Reference → String → StockMovementInput
incoming_leg input user reference source_name = record {
  id = none;
  item_id = input.item_id;
  branch_id = input.destination_branch_id;
  quantity = input.quantity;
  reason = transfer;
  performed_by_id = some user;
  equipment_id = none;
  reference = some reference;
  document_number = input.document_number;
  notes = or_else input.notes (some (transfer_from source_name));
}

module _ (env : Env) where
  -- `input.id ? … : …`
  abbrev pub reference_for : Option ℕ → Reference
  reference_for none = transfer_at env.nonce
  reference_for (some id) = transfer_of id

  -- The transaction of `transferFresh`.
  unfoldable pub transfer_tx : TransferInput → ℕ → String → String → Tx TransferResult
  unfolding lock_transfer_rows
  transfer_tx input user source_name destination_name = do
    lock_transfer_rows input.item_id input.source_branch_id input.destination_branch_id
    out ← apply_outgoing env (outgoing_leg input user (reference_for input.id) destination_name)
    into ← apply_incoming env (incoming_leg input user (reference_for input.id) source_name)
    update_movement out.id (set_destination input.destination_branch_id)
    update_movement into.id (set_source input.source_branch_id)
    pure (record {
      reference = reference_for input.id;
      out = set_destination input.destination_branch_id out;
      incoming = set_source input.source_branch_id into;
      source_branch_name = some source_name;
      destination_branch_name = some destination_name;
    })

  -- `transferFresh`. The two branch lookups stand before the transaction and write nothing; of two
  -- that fail, the source's error is the one reported.
  unfoldable pub transfer_fresh_tx : TransferInput → ℕ → Tx TransferResult
  unfolding transfer_tx
  transfer_fresh_tx input user = do
    throw_if (input.source_branch_id == input.destination_branch_id) same_branch
    source_name ← assert_branch_exists input.source_branch_id
    destination_name ← assert_branch_exists input.destination_branch_id
    transfer_tx input user source_name destination_name
