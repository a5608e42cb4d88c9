-- ===== src/Inventory/Stock/Transfers.antt =====
-- What a transfer leaves: two balances moved, two movements tied together, and a retry that finds
-- them.
use smi_backend.Prelude.{
  ℕ, String, ◌≡◌, refl, ap, ◌∙◌, inl, inr, false, ◌&&◌, some, List, [], ◌∷◌, arith, ◌==◌, ltb,
  if◌then◌else◌, Option-cases, any, or_default,
}
use smi_backend.Prelude.Int.{ℤ, ◌+ℤ◌, ◌-ℤ◌}
use smi_backend.Prelude.Result.{ok}
use smi_backend.Inventory.Stock.Types.{
  MovementDirection, incoming, outgoing, transfer, finite, StockMovement, Db, StockMovementInput,
  TransferInput, TransferResult, Reference,
}
use smi_backend.Inventory.Stock.Tx.{TxState, Tx, ◌>>◌, pure}
use smi_backend.Inventory.Stock.Queries.{Env, has_id, quantity_of, balance_at}
use smi_backend.Inventory.Stock.Moves.{apply_incoming, apply_outgoing}
use smi_backend.Inventory.Stock.Transfer.{
  lock_in_turn, lock_transfer_rows, update_movement, set_destination, set_source, outgoing_leg,
  incoming_leg, reference_for, transfer_tx,
}
use smi_backend.Inventory.Stock.Posted.{
  Issued, Received, apply_outgoing-Issued, apply_incoming-Received,
}
use smi_backend.Inventory.Stock.Ledger.{relabel}
use smi_backend.Inventory.Stock.Keeps.{>>=-eq-ok}
use smi_backend.Inventory.Stock.Effects.{less_at, more_at, Issued-balance, Received-balance}

relabel-absent :
    (f : StockMovement → StockMovement) (id : ℕ) (ms : List StockMovement)
    → any (has_id id) ms ≡ false
    → relabel id f ms ≡ ms
relabel-absent f id [] h = refl
relabel-absent f id (m ∷ ms) h = ground (arith, relabel-absent f id ms)

-- Locking the rows moves no balance and adds no movement.
lock_in_turn-same :
    (i destination b : ℕ) (s s' : TxState) (i' b' : ℕ)
    → lock_in_turn i destination b s ≡ ok (tt, s')
    → (balance_at s'.db i' b' ≡ balance_at s.db i' b')
      × (s'.db.movements ≡ s.db.movements)
      × (s'.db.branches ≡ s.db.branches)
unfolding balance_at
lock_in_turn-same i destination b s s' i' b' h = elim (Option-cases (s.db.stock i b)) [
  | inl absent ↦ (ground arith, ground arith, ground arith)
  | inr (row, e) ↦ (ground arith, ground arith, ground arith)
]

lock_transfer_rows-same :
    (i source destination : ℕ) (s s' : TxState) (i' b' : ℕ)
    → lock_transfer_rows i source destination s ≡ ok (tt, s')
    → (balance_at s'.db i' b' ≡ balance_at s.db i' b')
      × (s'.db.movements ≡ s.db.movements)
      × (s'.db.branches ≡ s.db.branches)
unfolding lock_transfer_rows
lock_transfer_rows-same i source destination s s' i' b' h =
    let (_, t, first, second) =
      >>=-eq-ok
        (lock_in_turn i destination (if ltb destination source then destination else source))
        (λ _. lock_in_turn i destination (if ltb destination source then source else destination)) s
        s' tt h in
    let (p, q, r) = lock_in_turn-same i destination _ s t i' b' first in
    let (p', q', r') = lock_in_turn-same i destination _ t s' i' b' second in
    (p' ∙ p, q' ∙ q, r' ∙ r)

-- The balances of an item with `q` moved from one branch to another.
abbrev pub moved : TransferInput → ℤ → Db → ℕ → ℕ → ℤ
moved input q db i b =
    if (i == input.item_id) && (b == input.source_branch_id)
    then balance_at db i b -ℤ q
    else if (i == input.item_id) && (b == input.destination_branch_id)
    then balance_at db i b +ℤ q
    else balance_at db i b

-- One of the two movements of a transfer by `user` of an item, in the branch `b`.
pub record IsLeg (m : StockMovement) (d : MovementDirection) (reference : Reference) (i b user : ℕ)
    : Type 0 where
  pub direction_is : m.direction ≡ d
  pub reason_is : m.reason ≡ transfer
  pub reference_is : m.reference ≡ some reference
  pub item_is : m.item_id ≡ i
  pub branch_is : m.branch_id ≡ b
  pub user_is : m.performed_by_id ≡ some user

-- A transfer has been made: its quantity has left one balance and entered the other, and its two
-- movements, which carry one quantity and one reference and name each other's branch, stand before
-- the others.
pub record Transferred (input : TransferInput) (user : ℕ) (db : Db) (t : TransferResult) (db' : Db)
    : Type 0 where
  pub quantity_is : input.quantity ≡ finite t.out.quantity
  pub same_quantity : t.incoming.quantity ≡ t.out.quantity
  pub balances : (i b : ℕ) → balance_at db' i b ≡ moved input t.out.quantity db i b
  pub ledger : db'.movements ≡ t.incoming ∷ t.out ∷ db.movements
  pub branches_same : db'.branches ≡ db.branches
  pub out_leg : IsLeg t.out outgoing t.reference input.item_id input.source_branch_id user
  pub incoming_leg :
      IsLeg t.incoming incoming t.reference input.item_id input.destination_branch_id user
  pub destination_is : t.out.destination_branch_id ≡ some input.destination_branch_id
  pub source_is : t.incoming.source_branch_id ≡ some input.source_branch_id
  pub ids_differ : (t.incoming.id == t.out.id) ≡ false

-- The last steps of the transaction, on the two movements that it has just written.
abbrev tie :
    TransferInput → Reference → String → String → StockMovement → StockMovement → Tx TransferResult
tie input reference source_name destination_name out into =
    update_movement out.id (set_destination input.destination_branch_id)
    >> (update_movement into.id (set_source input.source_branch_id)
        >> pure (record {
          reference = reference;
          out = set_destination input.destination_branch_id out;
          incoming = set_source input.source_branch_id into;
          source_branch_name = some source_name;
          destination_branch_name = some destination_name;
        }))

record Tied (input : TransferInput) (out into : StockMovement) (old : List StockMovement)
    (s : TxState) (t : TransferResult) (s' : TxState) : Type 0 where
  ledger : s'.db.movements ≡ t.incoming ∷ t.out ∷ old
  stock_same : s'.db.stock ≡ s.db.stock
  branches_same : s'.db.branches ≡ s.db.branches
  out_is : t.out ≡ set_destination input.destination_branch_id out
  incoming_is : t.incoming ≡ set_source input.source_branch_id into

tie-Tied :
    (input : TransferInput) (reference : Reference) (source_name destination_name : String)
    (out into : StockMovement) (old : List StockMovement) (s s' : TxState) (t : TransferResult)
    → s.db.movements ≡ into ∷ out ∷ old
    → any (has_id out.id) old ≡ false
    → any (has_id into.id) (out ∷ old) ≡ false
    → tie input reference source_name destination_name out into s ≡ ok (t, s')
    → Tied input out into old s t s'
tie-Tied input reference source_name destination_name out into old s s' t log fresh fresh' h =
    record {
      ledger = ground (
        arith,
        relabel-absent (set_destination input.destination_branch_id) out.id old,
        relabel-absent (set_source input.source_branch_id) into.id old,
      );
      stock_same = ground arith;
      branches_same = ground arith;
      out_is = ground arith;
      incoming_is = ground arith;
    }

-- The two branches of an accepted transfer differ.
abbrev pub Apart : TransferInput → Type 0
Apart input = (input.source_branch_id == input.destination_branch_id) ≡ false

module _ (env : Env) (input : TransferInput) (user : ℕ) (source_name destination_name : String)
    (apart : Apart input) where
  abbrev out_input : StockMovementInput
  out_input = outgoing_leg input user (reference_for env input.id) destination_name

  abbrev into_input : StockMovementInput
  into_input = incoming_leg input user (reference_for env input.id) source_name

  combined-balance :
      (i b : ℕ) (s s1 s2 s3 s4 : TxState) (out into : StockMovement) (t : TransferResult)
      → balance_at s1.db i b ≡ balance_at s.db i b
      → balance_at s2.db i b ≡ less_at out_input.item_id out_input.branch_id out.quantity s1.db i b
      → balance_at s3.db i b
        ≡ more_at into_input.item_id into_input.branch_id into.quantity s2.db i b
      → balance_at s4.db i b ≡ balance_at s3.db i b
      → into.quantity ≡ out.quantity
      → t.out.quantity ≡ out.quantity
      → balance_at s4.db i b ≡ moved input t.out.quantity s.db i b
  combined-balance i b s s1 s2 s3 s4 out into t e1 e2 e3 e4 e5 e6 = ground arith

  -- The facts of the steps make up the transfer.
  assemble :
      (s s1 s2 s3 s4 : TxState) (out into : StockMovement) (t : TransferResult)
      → ((i b : ℕ)
          → (balance_at s1.db i b ≡ balance_at s.db i b)
            × (s1.db.movements ≡ s.db.movements)
            × (s1.db.branches ≡ s.db.branches))
      → Issued out_input out s1 s2
      → Received into_input into s2 s3
      → Tied input out into s.db.movements s3 t s4
      → t.reference ≡ reference_for env input.id
      → Transferred input user s.db t s4.db
  unfolding balance_at
  assemble s s1 s2 s3 s4 out into t locked r v tied named = record {
    quantity_is = ground (arith, r.quantity_is, r.movement_is, tied.out_is);
    same_quantity = ground (
      arith, r.quantity_is, v.quantity_is, r.movement_is, v.movement_is, tied.out_is,
      tied.incoming_is,
    );
    balances = λ i b.
        combined-balance i b s s1 s2 s3 s4 out into t (locked i b).0
          (Issued-balance out_input out s1 s2 i b r) (Received-balance into_input into s2 s3 i b v)
          (ap (λ f. quantity_of (f i b)) tied.stock_same)
          (ground (arith, r.quantity_is, v.quantity_is, r.movement_is, v.movement_is))
          (ground (arith, tied.out_is));
    ledger = tied.ledger;
    branches_same = ground (arith, tied.branches_same, v.db_is, r.db_is, locked 0 0);
    out_leg = record {
      direction_is = ground (arith, r.movement_is, tied.out_is);
      reason_is = ground (arith, r.movement_is, tied.out_is);
      reference_is = ground (arith, r.movement_is, tied.out_is, named);
      item_is = ground (arith, r.movement_is, tied.out_is);
      branch_is = ground (arith, r.movement_is, tied.out_is);
      user_is = ground (arith, r.movement_is, tied.out_is);
    };
    incoming_leg = record {
      direction_is = ground (arith, v.movement_is, tied.incoming_is);
      reason_is = ground (arith, v.movement_is, tied.incoming_is);
      reference_is = ground (arith, v.movement_is, tied.incoming_is, named);
      item_is = ground (arith, v.movement_is, tied.incoming_is);
      branch_is = ground (arith, v.movement_is, tied.incoming_is);
      user_is = ground (arith, v.movement_is, tied.incoming_is);
    };
    destination_is = ground (arith, tied.out_is);
    source_is = ground (arith, tied.incoming_is);
    ids_differ = ground (arith, v.id_free, r.db_is, tied.out_is, tied.incoming_is);
  }

  -- What `transfer_tx` promises, with what it names.
  abbrev pub Promised : TxState → TransferResult → TxState → Type 0
  Promised s t s' =
      Transferred input user s.db t s'.db
      × (t.source_branch_name ≡ some source_name)
      × (t.destination_branch_name ≡ some destination_name)
      × (t.reference ≡ reference_for env input.id)
      × (or_default input.id t.out.id ≡ t.out.id)

  finish :
      (s s1 s2 s3 s' : TxState) (t : TransferResult) (out into : StockMovement)
      → lock_transfer_rows input.item_id input.source_branch_id input.destination_branch_id s
        ≡ ok (tt, s1)
      → Issued out_input out s1 s2
      → Received into_input into s2 s3
      → tie input (reference_for env input.id) source_name destination_name out into s3 ≡ ok (t, s')
      → Promised s t s'
  finish s s1 s2 s3 s' t out into locked r v h =
      let same = λ (i b : ℕ).
        lock_transfer_rows-same input.item_id input.source_branch_id input.destination_branch_id s
          s1 i b locked in
      let tied =
        tie-Tied input (reference_for env input.id) source_name destination_name out into
          s.db.movements s3 s' t (ground (arith, same 0 0, r.db_is, v.db_is))
          (ground (arith, same 0 0, r.id_free)) (ground (arith, same 0 0, r.db_is, v.id_free)) h in
      (
        assemble s s1 s2 s3 s' out into t same r v tied (ground arith),
        ground arith,
        ground arith,
        ground arith,
        ground (arith, tied.out_is, r.id_given),
      )

  pub transfer_tx-Transferred :
      (s s' : TxState) (t : TransferResult)
      → transfer_tx env input user source_name destination_name s ≡ ok (t, s')
      → Promised s t s'
  unfolding transfer_tx
  transfer_tx-Transferred s s' t h =
      let (_, s1, locked, h1) =
        >>=-eq-ok
          (lock_transfer_rows input.item_id input.source_branch_id input.destination_branch_id) _ s
          s' t h in
      let (out, s2, issued, h2) = >>=-eq-ok (apply_outgoing env out_input) _ s1 s' t h1 in
      let (into, s3, received, h3) = >>=-eq-ok (apply_incoming env into_input) _ s2 s' t h2 in
      finish s s1 s2 s3 s' t out into locked (apply_outgoing-Issued env out_input s1 s2 out issued)
        (apply_incoming-Received env into_input s2 s3 into received) h3
