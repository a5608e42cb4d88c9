-- ===== src/Inventory/Stock/Posted.antt =====
-- What a movement does to the tables: the two operations that write one have the same shape.
use smi_backend.Prelude.{
  ◌≡◌, refl, true, false, ◌⊎◌, inl, inr, Option, [], ◌∷◌, ◌++◌, if◌then◌else◌, arith, any,
  or_default, Option-cases,
}
use smi_backend.Prelude.Int.{ℤ, pos, ◌+ℤ◌, ◌-ℤ◌, ◌≤ℤ◌, ◌<ℤ◌}
use smi_backend.Prelude.Result.{ok}
use smi_backend.Inventory.Stock.Types.{
  MovementDirection, incoming, outgoing, Amount, finite, not_finite, StockRow, StockMovement, Db,
  StockMovementInput,
}
use smi_backend.Inventory.Stock.Tx.{TxState}
use smi_backend.Inventory.Stock.Queries.{
  Env, has_id, set_stock, upserted, add_quantity, new_movement, decremented, covers,
  low_stock_event, quantity_of, record_movement, queue_if_below_minimum, crossed_minimum,
}
use smi_backend.Inventory.Stock.Moves.{apply_incoming, apply_outgoing}

-- The quantity of a movement with the sign of its direction.
abbrev pub signed : MovementDirection → ℤ → ℤ
signed incoming q = q
signed outgoing q = pos 0 -ℤ q

-- The movement `m` has been posted: its stock row and its line of the ledger, and nothing else.
pub record Posted (m : StockMovement) (db db' : Db) : Type 0 where
  pub row : StockRow
  pub positive : pos 0 <ℤ m.quantity
  pub stock_is : db'.stock ≡ set_stock m.item_id m.branch_id row db.stock
  pub moves :
      row.quantity ≡ quantity_of (db.stock m.item_id m.branch_id) +ℤ signed m.direction m.quantity
  pub balance : m.resulting_balance ≡ row.quantity
  pub ledger : db'.movements ≡ m ∷ db.movements
  pub covered : pos 0 ≤ℤ quantity_of (db.stock m.item_id m.branch_id) → pos 0 ≤ℤ row.quantity
  pub items_same : db'.items ≡ db.items
  pub branches_same : db'.branches ≡ db.branches

-- The row that an entry of `q` leaves.
abbrev pub incoming_row : ℤ → Option StockRow → StockRow
incoming_row q = upserted (record { quantity = q; minimum_quantity = pos 0 }) (add_quantity q)

-- What a successful `applyIncoming` has read and written.
pub record Received (input : StockMovementInput) (m : StockMovement) (s s' : TxState) : Type 0 where
  pub q : ℤ
  pub quantity_is : input.quantity ≡ finite q
  pub positive : pos 0 <ℤ q
  pub movement_is :
      m
      ≡ new_movement m.id input q incoming
          (incoming_row q (s.db.stock input.item_id input.branch_id)).quantity
  pub db_is : s'.db ≡ record s.db {
    stock =
        set_stock input.item_id input.branch_id
          (incoming_row q (s.db.stock input.item_id input.branch_id))
          s.db.stock;
    movements = m ∷ s.db.movements;
  }
  pub events_same : s'.events ≡ s.events
  pub id_free : any (has_id m.id) s.db.movements ≡ false

Amount-cases : (a : Amount) → ((q : ℤ) × (a ≡ finite q)) ⊎ (a ≡ not_finite)
Amount-cases (finite q) = inl (q, refl)
Amount-cases not_finite = inr refl

pub apply_incoming-Received :
    (env : Env) (input : StockMovementInput) (s s' : TxState) (m : StockMovement)
    → apply_incoming env input s ≡ ok (m, s')
    → Received input m s s'
unfolding apply_incoming record_movement
apply_incoming-Received env input s s' m h = elim (Amount-cases input.quantity) [
  | inl (q, e) ↦ record {
    q = q;
    quantity_is = e;
    positive = ground arith;
    movement_is = ground arith;
    db_is = ground arith;
    events_same = ground arith;
    id_free = ground arith;
  }
  | inr e ↦ absurd (ground arith)
]

-- What a successful `applyOutgoing` has read and written.
pub record Issued (input : StockMovementInput) (m : StockMovement) (s s' : TxState) : Type 0 where
  pub q : ℤ
  pub quantity_is : input.quantity ≡ finite q
  pub positive : pos 0 <ℤ q
  pub enough : covers q (s.db.stock input.item_id input.branch_id) ≡ true
  pub movement_is :
      m
      ≡ new_movement m.id input q outgoing
          (decremented q (s.db.stock input.item_id input.branch_id)).quantity
  pub db_is : s'.db ≡ record s.db {
    stock =
        set_stock input.item_id input.branch_id
          (decremented q (s.db.stock input.item_id input.branch_id))
          s.db.stock;
    movements = m ∷ s.db.movements;
  }
  pub events_are :
      let row = decremented q (s.db.stock input.item_id input.branch_id) in
      s'.events ≡ (
        if crossed_minimum row.minimum_quantity row.quantity q
        then s.events ++ low_stock_event input row.quantity row.minimum_quantity s.db ∷ []
        else s.events)
  pub id_free : any (has_id m.id) s.db.movements ≡ false
  pub id_given : or_default input.id m.id ≡ m.id

pub apply_outgoing-Issued :
    (env : Env) (input : StockMovementInput) (s s' : TxState) (m : StockMovement)
    → apply_outgoing env input s ≡ ok (m, s')
    → Issued input m s s'
unfolding apply_outgoing record_movement queue_if_below_minimum
apply_outgoing-Issued env input s s' m h = elim (Amount-cases input.quantity) [
  | inl (q, e) ↦ record {
    q = q;
    quantity_is = e;
    positive = ground arith;
    enough = ground arith;
    movement_is = ground arith;
    db_is = ground arith;
    events_are = ground arith;
    id_free = ground arith;
    id_given = elim (Option-cases input.id) [
      | inl absent ↦ rw absent refl
      | inr (k, given) ↦ ground arith
    ];
  }
  | inr e ↦ absurd (ground arith)
]
