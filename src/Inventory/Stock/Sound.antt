-- ===== src/Inventory/Stock/Sound.antt =====
-- The service as its clients see it: a sequence of calls on the committed tables.
use smi_backend.Prelude.{ℕ, ◌≡◌, refl, List, [], ◌∷◌}
use smi_backend.Prelude.Int.{ℤ}
use smi_backend.Prelude.Result.{Result, ok, err}
use smi_backend.Concurrency.CreateOrReturn.Laws.{create_or_return-keeps}
use smi_backend.Inventory.Stock.Types.{
  StockMovementInput, AdjustToCountInput, TransferInput, StockError, other_owner,
}
use smi_backend.Inventory.Stock.Tx.{TxState, Tx}
use smi_backend.Inventory.Stock.Queries.{Env}
use smi_backend.Inventory.Stock.Service.{
  World, run, receive, issue, adjust_to_count, set_minimum, transfer_stock, find_transfer,
  transfer_fresh,
}
use smi_backend.Inventory.Stock.Ledger.{IsSound}
use smi_backend.Inventory.Stock.Keeps.{
  Keeps, apply_incoming-Keeps, apply_outgoing-Keeps, adjust_to_count_tx-Keeps, set_minimum_tx-Keeps,
  transfer_fresh_tx-Keeps,
}

-- A call of one of the public operations; the user is the one of the session.
pub data Call : Type 0 where
  receive_call issue_call : StockMovementInput → Call
  adjust_call : AdjustToCountInput → Call
  minimum_call : ℕ → ℕ → ℤ → Call
  transfer_call : TransferInput → ℕ → Call

-- The tables and notices after a call, whether it answered or threw.
abbrev pub perform : Env → Call → World → World
perform env (receive_call input) w = (receive env input w).1
perform env (issue_call input) w = (issue env input w).1
perform env (adjust_call input) w = (adjust_to_count env input w).1
perform env (minimum_call i b minimum) w = (set_minimum env i b minimum w).1
perform env (transfer_call input user) w = (transfer_stock env input user (λ u. u) w).1

abbrev pub perform_all : Env → List Call → World → World
perform_all env [] w = w
perform_all env (c ∷ cs) w = perform_all env cs (perform env c w)

run-IsSound : {A : Type 0} (m : Tx A) (w : World) → Keeps m → IsSound w.db → IsSound (run m w).1.db
unfolding run
run-IsSound {A} m w k v = go (m start) refl
  where
    start : TxState
    start = record { db = w.db; events = []; locks = [] }

    go : (r : Result StockError (A × TxState)) → m start ≡ r → IsSound (run m w).1.db
    go (ok (a, s)) e = rw (e, run) (k start s a e v)
    go (err x) e = rw (e, run) v

perform-IsSound : (env : Env) (c : Call) (w : World) → IsSound w.db → IsSound (perform env c w).db
unfolding receive issue adjust_to_count set_minimum transfer_stock transfer_fresh
perform-IsSound env (receive_call input) w = run-IsSound _ w (apply_incoming-Keeps env input)
perform-IsSound env (issue_call input) w = run-IsSound _ w (apply_outgoing-Keeps env input)
perform-IsSound env (adjust_call input) w = run-IsSound _ w (adjust_to_count_tx-Keeps env input)
perform-IsSound env (minimum_call i b minimum) w =
    run-IsSound _ w (set_minimum_tx-Keeps i b minimum)
perform-IsSound env (transfer_call input user) w =
    create_or_return-keeps (λ u. IsSound u.db) find_transfer (transfer_fresh env input user)
      input.id user other_owner (λ u. u) w
      (λ u. run-IsSound _ u (transfer_fresh_tx-Keeps env input user)) (λ u v. v)

-- From sound tables, whatever calls are made, in whatever order and whether they answer or throw,
-- no balance becomes negative, every balance stays the sum of its movements, and every movement
-- keeps the balance that it left.
pub perform_all-IsSound :
    (env : Env) (calls : List Call) (w : World)
    → IsSound w.db
    → IsSound (perform_all env calls w).db
perform_all-IsSound env [] w v = v
perform_all-IsSound env (c ∷ cs) w v =
    perform_all-IsSound env cs (perform env c w) (perform-IsSound env c w v)
