-- ===== src/Inventory/Stock/Moves.antt =====
-- `applyIncoming`, `applyOutgoing`, `adjustToCount` and `setMinimum` of
-- src/inventory/stock.service.ts, each as a transaction.
use smi_backend.Prelude.{
  ℕ, String, Bool, true, false, Option, none, some, [], ◌∷◌, or_else, is_some,
}
use smi_backend.Prelude.Int.{ℤ, pos, abs, ◌-ℤ◌, ltb_ℤ, eqb_ℤ}
use smi_backend.Prelude.Result.{Result, ok, err}
use smi_backend.Concurrency.Expected.{Fields, num, assert_expected, StaleUpdate, stale_update}
use smi_backend.Inventory.Stock.Types.{
  incoming, outgoing, physical_adjustment, finite, count_of, StockRow, StockMovement,
  StockMovementInput, AdjustToCountInput, StockError,
}
use smi_backend.Inventory.Stock.Tx.{Tx, ◌>>=◌, ◌>>◌, pure, throw, gets}
use smi_backend.Inventory.Stock.Queries.{
  Env, upsert_stock, empty_row, add_quantity, decrement_if_covered, lock_stock_row, quantity_of,
  assert_positive, find_item, assert_branch_exists, explain_failed_issue, record_movement,
  queue_if_below_minimum,
}

-- `lockedBalanceAt`
abbrev pub create_to_lock : ℕ → ℕ → ℤ → Tx (Unit {0})
create_to_lock i b counted s = elim (is_some (s.db.stock i b)) [
  | true ↦ ok (tt, s)
  | false ↦ elim (eqb_ℤ counted (pos 0)) [
    | true ↦ ok (tt, s)
    | false ↦ (upsert_stock i b empty_row (λ r. r) >>= λ _. pure tt) s
  ]
]

unfoldable pub locked_balance_at : ℕ → ℕ → ℤ → Tx ℤ
locked_balance_at i b counted = do
  create_to_lock i b counted
  lock_stock_row i b
  gets (λ db. quantity_of (db.stock i b))

-- The precondition of a count on the one field `quantity`, named 0.
abbrev pub quantity_field : ℤ → Fields
quantity_field q = (0, num q) ∷ []

abbrev pub stale_to_error : Result StaleUpdate (Unit {0}) → Tx (Unit {0})
stale_to_error (ok _) = pure tt
stale_to_error (err (stale_update names)) = throw (StockError.stale_update names)

abbrev pub expected_quantity : Option ℤ → Option Fields
expected_quantity none = none
expected_quantity (some q) = some (quantity_field q)

-- The movement of a count, by the difference, which is exact on whole quantities.
abbrev pub adjustment : AdjustToCountInput → String → ℤ → StockMovementInput
adjustment input name current = record {
  id = input.id;
  item_id = input.item_id;
  branch_id = input.branch_id;
  quantity = finite (abs (input.counted_quantity -ℤ current));
  reason = physical_adjustment;
  performed_by_id = input.performed_by_id;
  equipment_id = none;
  reference = none;
  document_number = none;
  notes = or_else input.notes (some (count_of name current input.counted_quantity));
}

-- `setMinimum`
unfoldable pub set_minimum_tx : ℕ → ℕ → ℤ → Tx StockRow
set_minimum_tx i b minimum = do
  find_item i
  assert_branch_exists b
  upsert_stock i b (record { quantity = pos 0; minimum_quantity = minimum })
      (λ r. record r { minimum_quantity = minimum })

module _ (env : Env) where
  -- `applyIncoming`
  unfoldable pub apply_incoming : StockMovementInput → Tx StockMovement
  apply_incoming input = do
    q ← assert_positive input.quantity
    find_item input.item_id
    assert_branch_exists input.branch_id
    stock ←
        upsert_stock input.item_id input.branch_id
          (record { quantity = q; minimum_quantity = pos 0 }) (add_quantity q)
    record_movement env input q incoming stock.quantity

  -- The part of `applyOutgoing` below its conditional decrement, which has written a row.
  abbrev pub finish_outgoing : StockMovementInput → ℤ → Tx StockMovement
  finish_outgoing input q = do
    stock ← gets (λ db. db.stock input.item_id input.branch_id)
    movement ← record_movement env input q outgoing (quantity_of stock)
    queue_if_below_minimum input stock (quantity_of stock) q
    pure movement

  abbrev pub after_decrement : StockMovementInput → ℤ → Bool → Tx StockMovement
  after_decrement input q true = finish_outgoing input q
  after_decrement input q false = λ s. err (explain_failed_issue env input s.db)

  -- `applyOutgoing`
  unfoldable pub apply_outgoing : StockMovementInput → Tx StockMovement
  apply_outgoing input = do
    q ← assert_positive input.quantity
    assert_branch_exists input.branch_id
    done ← decrement_if_covered input.item_id input.branch_id q
    after_decrement input q done

  -- The end of `adjustToCount`: nothing to do, or a movement of the difference.
  unfoldable pub settle : AdjustToCountInput → String → ℤ → Tx (Option StockMovement)
  unfolding apply_incoming apply_outgoing
  settle input name current = elim (eqb_ℤ (input.counted_quantity -ℤ current) (pos 0)) [
    | true ↦ pure none
    | false ↦ elim (ltb_ℤ (pos 0) (input.counted_quantity -ℤ current)) [
      | true ↦ apply_incoming (adjustment input name current) >>= λ m. pure (some m)
      | false ↦ apply_outgoing (adjustment input name current) >>= λ m. pure (some m)
    ]
  ]

  -- `adjustToCount`
  unfoldable pub adjust_to_count_tx : AdjustToCountInput → Tx (Option StockMovement)
  unfolding locked_balance_at settle
  adjust_to_count_tx input = do
    name ← find_item input.item_id
    assert_branch_exists input.branch_id
    current ← locked_balance_at input.item_id input.branch_id input.counted_quantity
    stale_to_error (
        assert_expected (quantity_field current) (expected_quantity input.expected_quantity)
          (quantity_field input.counted_quantity) (λ _. none))
    settle input name current
