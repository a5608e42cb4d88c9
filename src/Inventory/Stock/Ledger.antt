-- ===== src/Inventory/Stock/Ledger.antt =====
-- The ledger of movements against the balances: what each kind of write keeps.
use smi_backend.Prelude.{
  ℕ, ◌≡◌, refl, sym, subst, ◌∙◌, true, ◌&&◌, Option, none, some, List, [], ◌∷◌, map, arith, ◌==◌,
  if◌then◌else◌,
}
use smi_backend.Prelude.Int.{ℤ, pos, ◌+ℤ◌, ◌-ℤ◌, ◌≤ℤ◌, ◌<ℤ◌, int_laws, leb_ℤ→≤ℤ}
use smi_backend.Inventory.Stock.Types.{
  incoming, outgoing, StockRow, StockMovement, Db, StockMovementInput,
}
use smi_backend.Inventory.Stock.Tx.{TxState}
use smi_backend.Inventory.Stock.Queries.{
  set_stock, quantity_of, has_id, covers, decremented, new_movement,
}
use smi_backend.Inventory.Stock.Transfer.{set_destination, set_source}
use smi_backend.Inventory.Stock.Posted.{signed, incoming_row, Received, Issued}

-- The balance that the movements of an item in a branch add up to.
abbrev pub ledger_sum : ℕ → ℕ → List StockMovement → ℤ
ledger_sum i b [] = pos 0
ledger_sum i b (m ∷ ms) =
    if (i == m.item_id) && (b == m.branch_id)
    then ledger_sum i b ms +ℤ signed m.direction m.quantity
    else ledger_sum i b ms

-- Each movement has a positive quantity and records the balance that the movements up to it add up
-- to.
abbrev pub IsAudited : List StockMovement → Type 0
IsAudited [] = Unit
IsAudited (m ∷ ms) =
    (m.resulting_balance ≡ ledger_sum m.item_id m.branch_id (m ∷ ms))
    × (pos 0 <ℤ m.quantity)
    × IsAudited ms

-- No balance is negative, every balance is what its movements add up to, and the movements record
-- the balances that they left.
pub record IsSound (db : Db) : Type 0 where
  pub nonneg : (i b : ℕ) → pos 0 ≤ℤ quantity_of (db.stock i b)
  pub reconciled : (i b : ℕ) → quantity_of (db.stock i b) ≡ ledger_sum i b db.movements
  pub audited : IsAudited db.movements

-- A row written and a movement put before the others.
abbrev pub post : StockMovement → StockRow → Db → Db
post m row db = record db {
  stock = set_stock m.item_id m.branch_id row db.stock;
  movements = m ∷ db.movements;
}

pub post-IsSound :
    (m : StockMovement) (row : StockRow) (db : Db)
    → pos 0 <ℤ m.quantity
    → pos 0 ≤ℤ row.quantity
    → m.resulting_balance ≡ row.quantity
    → row.quantity ≡ quantity_of (db.stock m.item_id m.branch_id) +ℤ signed m.direction m.quantity
    → IsSound db
    → IsSound (post m row db)
post-IsSound m row db positive nonneg balance moves v = record {
  nonneg = λ i b. ground (arith, v.nonneg i b);
  reconciled = λ i b. ground (arith, v.reconciled i b);
  audited = (ground (arith, v.reconciled m.item_id m.branch_id), positive, v.audited);
}

-- A change of rows that moves no balance.
abbrev pub SameBalances : Db → Db → Type 0
SameBalances db db' =
    ((i b : ℕ) → quantity_of (db'.stock i b) ≡ quantity_of (db.stock i b))
    × (db'.movements ≡ db.movements)

pub SameBalances-IsSound : (db db' : Db) → SameBalances db db' → IsSound db → IsSound db'
SameBalances-IsSound db db' (same, log) v = record {
  nonneg = λ i b. rw (same i b) (v.nonneg i b);
  reconciled = λ i b. rw (same i b, log) (v.reconciled i b);
  audited = rw log v.audited;
}

-- A field of a movement that the ledger does not read is changed.
abbrev pub Relabels : (StockMovement → StockMovement) → Type 0
Relabels f =
    (m : StockMovement)
    → ((f m).item_id ≡ m.item_id)
      × ((f m).branch_id ≡ m.branch_id)
      × ((f m).direction ≡ m.direction)
      × ((f m).quantity ≡ m.quantity)
      × ((f m).resulting_balance ≡ m.resulting_balance)

abbrev pub relabel : ℕ → (StockMovement → StockMovement) → List StockMovement → List StockMovement
relabel id f = map (λ m. if has_id id m then f m else m)

ledger_sum-relabel :
    (f : StockMovement → StockMovement) (id i b : ℕ) (ms : List StockMovement)
    → Relabels f
    → ledger_sum i b (relabel id f ms) ≡ ledger_sum i b ms
ledger_sum-relabel f id i b [] r = refl
ledger_sum-relabel f id i b (m ∷ ms) r = ground (arith, r m, ledger_sum-relabel f id i b ms r)

relabel-IsAudited :
    (f : StockMovement → StockMovement) (id : ℕ) (ms : List StockMovement)
    → Relabels f
    → IsAudited ms
    → IsAudited (relabel id f ms)
relabel-IsAudited f id [] r v = tt
relabel-IsAudited f id (m ∷ ms) r v = (
  ground (arith, r m, ledger_sum-relabel f id m.item_id m.branch_id ms r),
  ground (arith, r m),
  relabel-IsAudited f id ms r v.2,
)

pub relabel-IsSound :
    (f : StockMovement → StockMovement) (id : ℕ) (db : Db)
    → Relabels f
    → IsSound db
    → IsSound (record db { movements = relabel id f db.movements })
relabel-IsSound f id db r v = record {
  nonneg = v.nonneg;
  reconciled = λ i b. v.reconciled i b ∙ sym (ledger_sum-relabel f id i b db.movements r);
  audited = relabel-IsAudited f id db.movements r v.audited;
}

pub set_destination-Relabels : (b : ℕ) → Relabels (set_destination b)
set_destination-Relabels b m = (refl, refl, refl, refl, refl)

pub set_source-Relabels : (b : ℕ) → Relabels (set_source b)
set_source-Relabels b m = (refl, refl, refl, refl, refl)

pub incoming_row_quantity :
    (q : ℤ) (o : Option StockRow) → (incoming_row q o).quantity ≡ quantity_of o +ℤ q
incoming_row_quantity q none = omega int_laws
incoming_row_quantity q (some r) = refl

pub decremented_quantity :
    (q : ℤ) (o : Option StockRow)
    → covers q o ≡ true
    → ((decremented q o).quantity ≡ quantity_of o +ℤ (pos 0 -ℤ q))
      × (pos 0 ≤ℤ (decremented q o).quantity)
decremented_quantity q none h = cc
decremented_quantity q (some r) h =
    let enough : q ≤ℤ r.quantity = leb_ℤ→≤ℤ q r.quantity h in (omega int_laws, omega int_laws)

incoming_row_nonneg :
    (q : ℤ) (o : Option StockRow)
    → pos 0 <ℤ q
    → pos 0 ≤ℤ quantity_of o
    → pos 0 ≤ℤ (incoming_row q o).quantity
incoming_row_nonneg q o p v = rw (incoming_row_quantity q o) (omega int_laws)

received-IsSound :
    (id : ℕ) (input : StockMovementInput) (q : ℤ) (db : Db)
    → pos 0 <ℤ q
    → IsSound db
    → let row = incoming_row q (db.stock input.item_id input.branch_id) in
      IsSound (post (new_movement id input q incoming row.quantity) row db)
received-IsSound id input q db p v =
    let before = db.stock input.item_id input.branch_id in
    let row = incoming_row q before in
    post-IsSound (new_movement id input q incoming row.quantity) row db p
      (incoming_row_nonneg q before p (v.nonneg input.item_id input.branch_id)) refl
      (incoming_row_quantity q before) v

issued-IsSound :
    (id : ℕ) (input : StockMovementInput) (q : ℤ) (db : Db)
    → pos 0 <ℤ q
    → covers q (db.stock input.item_id input.branch_id) ≡ true
    → IsSound db
    → let row = decremented q (db.stock input.item_id input.branch_id) in
      IsSound (post (new_movement id input q outgoing row.quantity) row db)
issued-IsSound id input q db p enough v =
    let before = db.stock input.item_id input.branch_id in
    let row = decremented q before in
    post-IsSound (new_movement id input q outgoing row.quantity) row db p
      (decremented_quantity q before enough).1 refl (decremented_quantity q before enough).0 v

pub Received-IsSound :
    (input : StockMovementInput) (m : StockMovement) (s s' : TxState)
    → Received input m s s'
    → IsSound s.db
    → IsSound s'.db
Received-IsSound input m s s' r v =
    let row = incoming_row r.q (s.db.stock input.item_id input.branch_id) in
    rw r.db_is (
      subst
        (λ x. IsSound (record s.db {
          stock = set_stock input.item_id input.branch_id row s.db.stock;
          movements = x ∷ s.db.movements;
        }))
        (sym r.movement_is) (received-IsSound m.id input r.q s.db r.positive v))

pub Issued-IsSound :
    (input : StockMovementInput) (m : StockMovement) (s s' : TxState)
    → Issued input m s s'
    → IsSound s.db
    → IsSound s'.db
Issued-IsSound input m s s' r v =
    let row = decremented r.q (s.db.stock input.item_id input.branch_id) in
    rw r.db_is (
      subst
        (λ x. IsSound (record s.db {
          stock = set_stock input.item_id input.branch_id row s.db.stock;
          movements = x ∷ s.db.movements;
        }))
        (sym r.movement_is) (issued-IsSound m.id input r.q s.db r.positive r.enough v))
