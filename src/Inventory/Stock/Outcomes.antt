-- ===== src/Inventory/Stock/Outcomes.antt =====
-- What one call of the service answers and writes.
use smi_backend.Prelude.{
  ◌≡◌, refl, ◌↔◌, inl, inr, true, false, Option, none, some, [], arith, or_default, any,
  Option-cases,
}
use smi_backend.Prelude.Int.{ℤ, pos, ◌≤ℤ◌, ◌<ℤ◌, leb_ℤ→≤ℤ}
use smi_backend.Prelude.Result.{Result, ok, err, Succeeds}
use smi_backend.Inventory.Stock.Types.{
  finite, Branch, StockRow, StockMovement, Db, StockMovementInput, StockError,
}
use smi_backend.Inventory.Stock.Tx.{TxState}
use smi_backend.Inventory.Stock.Queries.{
  Env, has_id, refers_to_equipment, quantity_of, covers, record_movement, queue_if_below_minimum,
}
use smi_backend.Inventory.Stock.Moves.{apply_outgoing}
use smi_backend.Inventory.Stock.Posted.{apply_outgoing-Issued}
use smi_backend.Inventory.Stock.Service.{World, issue, run}

-- What an issue needs: a positive quantity, an active branch, a balance that covers it, an id that no
-- movement has, and, if it names an equipment, one that exists.
pub record CanIssue (env : Env) (input : StockMovementInput) (db : Db) : Type 0 where
  pub q : ℤ
  pub quantity_is : input.quantity ≡ finite q
  pub positive : pos 0 <ℤ q
  pub branch : Branch
  pub branch_is : db.branches input.branch_id ≡ some branch
  pub active : branch.is_active ≡ true
  pub enough : q ≤ℤ quantity_of (db.stock input.item_id input.branch_id)
  pub id_free : any (has_id (or_default input.id (env.new_id db.movements))) db.movements ≡ false
  pub equipment_known : refers_to_equipment env input.equipment_id ≡ true

apply_outgoing-refused :
    (env : Env) (input : StockMovementInput) (s : TxState) (e : StockError)
    → apply_outgoing env input s ≡ err e
    → CanIssue env input s.db
    → ⊥
unfolding apply_outgoing record_movement queue_if_below_minimum
apply_outgoing-refused env input s e h c = ground arith

covers→≤ℤ : (q : ℤ) (o : Option StockRow) → covers q o ≡ true → q ≤ℤ quantity_of o
covers→≤ℤ q none h = absurd (cc)
covers→≤ℤ q (some r) h = leb_ℤ→≤ℤ q r.quantity h

apply_outgoing-CanIssue :
    (env : Env) (input : StockMovementInput) (s s' : TxState) (m : StockMovement)
    → apply_outgoing env input s ≡ ok (m, s')
    → CanIssue env input s.db
unfolding apply_outgoing record_movement queue_if_below_minimum
apply_outgoing-CanIssue env input s s' m h = elim (Option-cases (s.db.branches input.branch_id)) [
  | inl absent ↦ absurd (ground arith)
  | inr (branch, e) ↦
      let r = apply_outgoing-Issued env input s s' m h in
      record {
        q = r.q;
        quantity_is = r.quantity_is;
        positive = r.positive;
        branch = branch;
        branch_is = e;
        active = ground arith;
        enough = covers→≤ℤ r.q (s.db.stock input.item_id input.branch_id) r.enough;
        id_free = ground arith;
        equipment_known = ground arith;
      }
]

abbrev start : World → TxState
start w = record { db = w.db; events = []; locks = [] }

-- An issue answers exactly when its quantity is positive and covered by the balance, its branch
-- exists and is active, its id is free, and the equipment that it names, if any, exists.
pub issue-CanIssue :
    (env : Env) (input : StockMovementInput) (w : World)
    → Succeeds (issue env input w).0 ↔ CanIssue env input w.db
unfolding issue
issue-CanIssue env input w = go (apply_outgoing env input (start w)) refl
  where
    go :
        (r : Result StockError (StockMovement × TxState))
        → apply_outgoing env input (start w) ≡ r
        → Succeeds (issue env input w).0 ↔ CanIssue env input w.db
    go (ok (m, s)) e =
        (λ _. apply_outgoing-CanIssue env input (start w) s m e, λ _. (m, rw (e, run)))
    go (err x) e = (
      λ h. absurd (cc (rw (e, run) at h.1)),
      λ c. absurd (apply_outgoing-refused env input (start w) x e c),
    )
