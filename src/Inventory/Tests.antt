-- ===== src/Inventory/Tests.antt =====
-- The theorems on the inventory at concrete stores and calls.
use smi_backend.Prelude.{
  ℕ, String, ◌≡◌, ◌↔◌, refl, true, Option, none, some, List, [], ◌∷◌, length, ◌==◌, ◌&&◌,
  if◌then◌else◌, arith,
}
use smi_backend.Prelude.Int.{pos, ◌+ℤ◌, ◌-ℤ◌}
use smi_backend.Prelude.Result.{Result, ok, err, Succeeds}
use smi_backend.Inventory.Stock.Types.{
  finite, outgoing, incoming, transfer_of, transfer_to, transfer_from, transfer, intervention,
  Branch, StockMovement, StockMovementInput, AdjustToCountInput, TransferInput, TransferResult,
  StockError,
}
use smi_backend.Inventory.Stock.Queries.{Env, balance_at, record_movement, queue_if_below_minimum}
use smi_backend.Inventory.Stock.Moves.{apply_outgoing, apply_incoming}
use smi_backend.Inventory.Stock.Transfer.{transfer_fresh_tx}
use smi_backend.Inventory.Stock.Service.{World, issue, transfer_fresh, transfer_stock}
use smi_backend.Inventory.Stock.Ledger.{IsSound}
use smi_backend.Inventory.Stock.Sound.{
  Call, receive_call, issue_call, adjust_call, minimum_call, transfer_call, perform_all,
  perform_all-IsSound,
}
use smi_backend.Inventory.Stock.Outcomes.{CanIssue, issue-CanIssue}
use smi_backend.Inventory.Stock.Effects.{issue-effect, less_at}
use smi_backend.Inventory.Stock.Retry.{Accepted, transfer_fresh-Accepted, transfer_stock-retry}

abbrev env : Env
env = record { new_id = length; stock_sum = λ _ _. pos 0; nonce = 7; has_equipment = λ k. true }

abbrev branches : ℕ → Option Branch
branches b =
    if b == 1
    then some (record { name = "north"; is_active = true })
    else if b == 2
    then some (record { name = "south"; is_active = true })
    else none

abbrev items : ℕ → Option String
items i = if i == 1 then some "grease" else none

abbrev empty : World
empty = record {
  db = record { items = items; branches = branches; stock = λ _ _. none; movements = [] };
  emitted = [];
}

abbrev stocked : World
stocked = record {
  db = record {
    items = items;
    branches = branches;
    stock = λ i b.
        if (i == 1) && (b == 1)
        then some (record { quantity = pos 10; minimum_quantity = pos 4 })
        else none;
    movements = [];
  };
  emitted = [];
}

abbrev moving : ℕ → StockMovementInput
moving q = record {
  id = none;
  item_id = 1;
  branch_id = 1;
  quantity = finite (pos q);
  reason = intervention;
  performed_by_id = some 5;
  equipment_id = none;
  reference = none;
  document_number = none;
  notes = none;
}

abbrev moved_south : TransferInput
moved_south = record {
  id = some 70;
  item_id = 1;
  source_branch_id = 1;
  destination_branch_id = 2;
  quantity = finite (pos 3);
  document_number = none;
  notes = none;
}

abbrev counted : AdjustToCountInput
counted = record {
  id = none;
  item_id = 1;
  branch_id = 1;
  counted_quantity = pos 8;
  expected_quantity = some (pos 10);
  performed_by_id = some 5;
  notes = none;
}

abbrev or_movement : Result StockError StockMovement → StockMovement → StockMovement
or_movement (ok m) d = m
or_movement (err e) d = d

empty-IsSound : IsSound empty.db
empty-IsSound = record { nonneg = λ i b. omega arith; reconciled = λ i b. refl; audited = tt }

abbrev calls : List Call
calls =
    receive_call (moving 10)
    ∷ issue_call (moving 20)
    ∷ transfer_call moved_south 5
    ∷ minimum_call 1 1 (pos 4)
    ∷ issue_call (moving 4)
    ∷ adjust_call counted
    ∷ []

perform_all-IsSound_example : IsSound (perform_all env calls empty).db
perform_all-IsSound_example = perform_all-IsSound env calls empty empty-IsSound

abbrev issued : Result StockError StockMovement × World
issued = issue env (moving 7) stocked

abbrev the_issue : StockMovement
the_issue = record {
  id = 0;
  item_id = 1;
  branch_id = 1;
  direction = outgoing;
  reason = intervention;
  quantity = pos 7;
  resulting_balance = pos 3;
  performed_by_id = some 5;
  equipment_id = none;
  reference = none;
  document_number = none;
  notes = none;
  source_branch_id = none;
  destination_branch_id = none;
}

issue_answers : issue env (moving 7) stocked ≡ (ok the_issue, issued.1)
unfolding issue apply_outgoing record_movement queue_if_below_minimum ◌+ℤ◌ ◌-ℤ◌
issue_answers = refl

issue-CanIssue_example :
    Succeeds (issue env (moving 7) stocked).0 ↔ CanIssue env (moving 7) stocked.db
issue-CanIssue_example = issue-CanIssue env (moving 7) stocked

issue-effect_example :
    (balance_at issued.1.db 1 1 ≡ less_at 1 1 (pos 7) stocked.db 1 1)
    × (pos 3 ≡ balance_at issued.1.db 1 1)
    × (issued.1.db.movements ≡ the_issue ∷ [])
    × (finite (pos 7) ≡ finite (pos 7))
issue-effect_example = issue-effect env (moving 7) the_issue stocked issued.1 1 1 issue_answers

abbrev transferred : Result StockError TransferResult × World
transferred = transfer_fresh env moved_south 5 stocked

abbrev the_transfer : TransferResult
the_transfer = record {
  reference = transfer_of 70;
  out = record the_issue {
    id = 70;
    reason = transfer;
    quantity = pos 3;
    resulting_balance = pos 7;
    reference = some (transfer_of 70);
    notes = some (transfer_to "south");
    destination_branch_id = some 2;
  };
  incoming = record the_issue {
    id = 1;
    branch_id = 2;
    direction = incoming;
    reason = transfer;
    quantity = pos 3;
    resulting_balance = pos 3;
    reference = some (transfer_of 70);
    notes = some (transfer_from "north");
    source_branch_id = some 1;
  };
  source_branch_name = some "north";
  destination_branch_name = some "south";
}

transfer_answers : transfer_fresh env moved_south 5 stocked ≡ (ok the_transfer, transferred.1)
unfolding transfer_fresh transfer_fresh_tx apply_outgoing record_movement queue_if_below_minimum
    ◌+ℤ◌ ◌-ℤ◌ apply_incoming
transfer_answers = refl

transfer_fresh-Accepted_example : Accepted moved_south 5 stocked.db the_transfer transferred.1.db
transfer_fresh-Accepted_example =
    transfer_fresh-Accepted env moved_south 5 stocked transferred.1 the_transfer transfer_answers

transfer_stock-retry_example :
    transfer_stock env moved_south 5 (λ _. stocked) transferred.1 ≡ (ok the_transfer, transferred.1)
transfer_stock-retry_example =
    transfer_stock-retry env moved_south 5 70 (λ _. stocked) stocked transferred.1 the_transfer refl
      transfer_answers
