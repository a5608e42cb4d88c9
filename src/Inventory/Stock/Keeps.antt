-- ===== src/Inventory/Stock/Keeps.antt =====
-- Every transaction of the service keeps the ledger sound: a rule for the sequence, and one lemma for
-- each helper.
use smi_backend.Prelude.{
  ℕ, String, ◌≡◌, refl, sym, subst, inl, inr, Bool, none, some, arith, ◌==◌, Bool-cases,
  Option-cases,
}
use smi_backend.Prelude.Int.{ℤ, pos, eqb_ℤ, ltb_ℤ, ◌-ℤ◌}
use smi_backend.Prelude.Result.{Result, ok, err}
use smi_backend.Concurrency.Expected.{StaleUpdate, stale_update, assert_expected}
use smi_backend.Inventory.Stock.Types.{
  StockMovement, StockRow, StockMovementInput, AdjustToCountInput, TransferInput, StockError, Db,
}
use smi_backend.Inventory.Stock.Tx.{TxState, Tx, ◌>>=◌, pure, throw_if, gets}
use smi_backend.Inventory.Stock.Queries.{
  Env, find_item, assert_branch_exists, lock_stock_row, upsert_stock, empty_row,
}
use smi_backend.Inventory.Stock.Moves.{
  apply_incoming, apply_outgoing, create_to_lock, locked_balance_at, stale_to_error, settle,
  adjust_to_count_tx, set_minimum_tx, adjustment, quantity_field, expected_quantity,
}
use smi_backend.Inventory.Stock.Transfer.{
  lock_in_turn, lock_transfer_rows, update_movement, set_destination, set_source, transfer_tx,
  transfer_fresh_tx, outgoing_leg, incoming_leg, reference_for,
}
use smi_backend.Inventory.Stock.Posted.{apply_incoming-Received, apply_outgoing-Issued}
use smi_backend.Inventory.Stock.Ledger.{
  IsSound, relabel, SameBalances, SameBalances-IsSound, Received-IsSound, Issued-IsSound, Relabels,
  relabel-IsSound, set_destination-Relabels, set_source-Relabels,
}

abbrev pub Keeps : {A : Type 0} → Tx A → Type 0
Keeps {A} m = (s s' : TxState) (a : A) → m s ≡ ok (a, s') → IsSound s.db → IsSound s'.db

-- Inversion of a sequence that succeeds.
pub >>=-eq-ok :
    {A B : Type 0} (m : Tx A) (f : A → Tx B) (s s' : TxState) (b : B)
    → (m >>= f) s ≡ ok (b, s')
    → (a : A) × (t : TxState) × (m s ≡ ok (a, t)) × (f a t ≡ ok (b, s'))
>>=-eq-ok {A} {B} m f s s' b h = go (m s) refl
  where
    go :
        (r : Result StockError (A × TxState))
        → m s ≡ r
        → (a : A) × (t : TxState) × (m s ≡ ok (a, t)) × (f a t ≡ ok (b, s'))
    go (ok (a, t)) e = (a, t, e, rw (e, ◌>>=◌) at h)
    go (err e') e = absurd (cc (rw (e, ◌>>=◌) at h))

pub >>=-Keeps :
    {A B : Type 0} (m : Tx A) (f : A → Tx B) → Keeps m → ((a : A) → Keeps (f a)) → Keeps (m >>= f)
>>=-Keeps m f km kf s s' b h v =
    let (a, t, hm, hf) = >>=-eq-ok m f s s' b h in kf a t s' b hf (km s t a hm v)

-- A transaction that leaves the tables alone.
abbrev pub Reads : {A : Type 0} → Tx A → Type 0
Reads {A} m = (s s' : TxState) (a : A) → m s ≡ ok (a, s') → s'.db ≡ s.db

-- What a transaction that answers has made of the tables.
abbrev pub Ends : {A : Type 0} → (Db → A → Db → Type 0) → Tx A → Type 0
Ends {A} Q m = (s s' : TxState) (a : A) → m s ≡ ok (a, s') → Q s.db a s'.db

pub after-Reads :
    {A B : Type 0} (Q : Db → B → Db → Type 0) (m : Tx A) (f : A → Tx B)
    → Reads m
    → ((a : A) → Ends Q (f a))
    → Ends Q (m >>= f)
after-Reads Q m f r e s s' b h =
    let (a, t, hm, hf) = >>=-eq-ok m f s s' b h in
    subst (λ db. Q db b s'.db) (r s t a hm) (e a t s' b hf)

Reads-Keeps : {A : Type 0} (m : Tx A) → Reads m → Keeps m
Reads-Keeps m r s s' a h v = subst IsSound (sym (r s s' a h)) v

pub find_item-Reads : (i : ℕ) → Reads (find_item i)
find_item-Reads i s s' a h = ground arith

pub assert_branch_exists-Reads : (b : ℕ) → Reads (assert_branch_exists b)
assert_branch_exists-Reads b s s' a h = ground arith

pub throw_if-Reads : (b : Bool) (e : StockError) → Reads (throw_if b e)
throw_if-Reads b e s s' a h = ground arith

pub stale_to_error-Reads : (r : Result StaleUpdate (Unit {0})) → Reads (stale_to_error r)
stale_to_error-Reads (ok _) s s' a h = ground arith
stale_to_error-Reads (err (stale_update names)) s s' a h = absurd (cc)

gets-Reads : {A : Type 0} (f : Db → A) → Reads (gets f)
gets-Reads f s s' a h = ground arith

pure-Reads : {A : Type 0} (x : A) → Reads (pure x)
pure-Reads x s s' a h = ground arith

pub lock_stock_row-Reads : (i b : ℕ) → Reads (lock_stock_row i b)
lock_stock_row-Reads i b s s' a h = ground arith

-- A row that is created empty, or written back with its quantity, moves no balance.
upsert_stock-SameBalances :
    (i b : ℕ) (create : StockRow) (update : StockRow → StockRow) (s s' : TxState) (r : StockRow)
    → create.quantity ≡ pos 0
    → ((x : StockRow) → (update x).quantity ≡ x.quantity)
    → upsert_stock i b create update s ≡ ok (r, s')
    → SameBalances s.db s'.db
upsert_stock-SameBalances i b create update s s' r zero_created kept h =
    elim (Option-cases (s.db.stock i b)) [
      | inl absent ↦ (λ i' b'. ground arith, ground arith)
      | inr (x, e) ↦ (λ i' b'. ground (arith, kept x), ground arith)
    ]

upsert_empty-Keeps : (i b : ℕ) → Keeps (upsert_stock i b empty_row (λ r. r))
upsert_empty-Keeps i b s s' r h =
    SameBalances-IsSound s.db s'.db
      (upsert_stock-SameBalances i b empty_row (λ x. x) s s' r refl (λ x. refl) h)

create_to_lock-Keeps : (i b : ℕ) (c : ℤ) → Keeps (create_to_lock i b c)
create_to_lock-Keeps i b c s s' a h =
    SameBalances-IsSound s.db s'.db (elim (Option-cases (s.db.stock i b)) [
      | inl absent ↦ (λ i' b'. ground arith, ground arith)
      | inr (x, e) ↦ (λ i' b'. ground arith, ground arith)
    ])

locked_balance_at-Keeps : (i b : ℕ) (c : ℤ) → Keeps (locked_balance_at i b c)
unfolding locked_balance_at
locked_balance_at-Keeps i b c = >>=-Keeps _ _ (create_to_lock-Keeps i b c) (λ _.
    >>=-Keeps _ _ (Reads-Keeps _ (lock_stock_row-Reads i b)) (λ _. Reads-Keeps _ (gets-Reads _)))

pub set_minimum_tx-Keeps : (i b : ℕ) (minimum : ℤ) → Keeps (set_minimum_tx i b minimum)
unfolding set_minimum_tx
set_minimum_tx-Keeps i b minimum = >>=-Keeps _ _ (Reads-Keeps _ (find_item-Reads i)) (λ _.
    >>=-Keeps _ _ (Reads-Keeps _ (assert_branch_exists-Reads b)) (λ _ s s' r h.
      SameBalances-IsSound s.db s'.db
        (upsert_stock-SameBalances i b _ _ s s' r refl (λ x. refl) h)))

lock_in_turn-Keeps : (i destination b : ℕ) → Keeps (lock_in_turn i destination b)
lock_in_turn-Keeps i destination b s s' a h v = elim (Bool-cases (b == destination)) [
  | inl e ↦
      >>=-Keeps _ _ (upsert_empty-Keeps i b) (λ _. Reads-Keeps _ (lock_stock_row-Reads i b)) s s' a
        (rw (e, lock_in_turn) at h) v
  | inr e ↦ Reads-Keeps _ (lock_stock_row-Reads i b) s s' a (rw (e, lock_in_turn) at h) v
]

lock_transfer_rows-Keeps :
    (i source destination : ℕ) → Keeps (lock_transfer_rows i source destination)
unfolding lock_transfer_rows
lock_transfer_rows-Keeps i source destination =
    >>=-Keeps _ _ (lock_in_turn-Keeps i destination _) (λ _. lock_in_turn-Keeps i destination _)

update_movement-Keeps :
    (id : ℕ) (f : StockMovement → StockMovement) → Relabels f → Keeps (update_movement id f)
update_movement-Keeps id f r s s' a h v =
    subst (λ t. IsSound t.db) (updated s s' h) (relabel-IsSound f id s.db r v)
  where
    updated :
        (s s' : TxState)
        → update_movement id f s ≡ ok (a, s')
        → record s { db = record s.db { movements = relabel id f s.db.movements } } ≡ s'
    updated s s' h = ground arith

module _ (env : Env) where
  pub apply_incoming-Keeps : (input : StockMovementInput) → Keeps (apply_incoming env input)
  apply_incoming-Keeps input s s' m h =
      Received-IsSound input m s s' (apply_incoming-Received env input s s' m h)

  pub apply_outgoing-Keeps : (input : StockMovementInput) → Keeps (apply_outgoing env input)
  apply_outgoing-Keeps input s s' m h =
      Issued-IsSound input m s s' (apply_outgoing-Issued env input s s' m h)

  settle-Keeps :
      (input : AdjustToCountInput) (name : String) (current : ℤ)
      → Keeps (settle env input name current)
  unfolding settle
  settle-Keeps input name current s s' a h v =
      elim (Bool-cases (eqb_ℤ (input.counted_quantity -ℤ current) (pos 0))) [
        | inl none_needed ↦ Reads-Keeps _ (pure-Reads none) s s' a (rw (none_needed, settle) at h) v
        | inr differs ↦ elim (Bool-cases (ltb_ℤ (pos 0) (input.counted_quantity -ℤ current))) [
          | inl more ↦
              >>=-Keeps _ _ (apply_incoming-Keeps (adjustment input name current))
                (λ m. Reads-Keeps _ (pure-Reads (some m))) s s' a (rw (differs, settle, more) at h)
                v
          | inr less ↦
              >>=-Keeps _ _ (apply_outgoing-Keeps (adjustment input name current))
                (λ m. Reads-Keeps _ (pure-Reads (some m))) s s' a (rw (differs, settle, less) at h)
                v
        ]
      ]

  pub adjust_to_count_tx-Keeps : (input : AdjustToCountInput) → Keeps (adjust_to_count_tx env input)
  unfolding adjust_to_count_tx
  adjust_to_count_tx-Keeps input = >>=-Keeps _ _ (Reads-Keeps _ (find_item-Reads _)) (λ name.
      >>=-Keeps _ _ (Reads-Keeps _ (assert_branch_exists-Reads _)) (λ _.
        >>=-Keeps _ _ (locked_balance_at-Keeps _ _ input.counted_quantity) (λ current.
          >>=-Keeps _ _ (Reads-Keeps _ (stale_to_error-Reads (expectation input current)))
            (λ _. settle-Keeps input name current))))
    where
      expectation : AdjustToCountInput → ℤ → Result StaleUpdate (Unit {0})
      expectation i c =
          assert_expected (quantity_field c) (expected_quantity i.expected_quantity)
            (quantity_field i.counted_quantity) (λ _. none)

  transfer_tx-Keeps :
      (input : TransferInput) (user : ℕ) (source_name destination_name : String)
      → Keeps (transfer_tx env input user source_name destination_name)
  unfolding transfer_tx
  transfer_tx-Keeps input user source_name destination_name =
      >>=-Keeps _ _
        (lock_transfer_rows-Keeps input.item_id input.source_branch_id input.destination_branch_id)
        (λ _.
          >>=-Keeps _ _
            (apply_outgoing-Keeps
              (outgoing_leg input user (reference_for env input.id) destination_name))
            (λ out.
              >>=-Keeps _ _
                (apply_incoming-Keeps
                  (incoming_leg input user (reference_for env input.id) source_name))
                (λ into.
                  >>=-Keeps _ _
                    (update_movement-Keeps out.id (set_destination input.destination_branch_id)
                      (set_destination-Relabels input.destination_branch_id))
                    (λ _.
                      >>=-Keeps _ _
                        (update_movement-Keeps into.id (set_source input.source_branch_id)
                          (set_source-Relabels input.source_branch_id))
                        (λ _.
                          Reads-Keeps
                            (pure (record {
                              reference = reference_for env input.id;
                              out = set_destination input.destination_branch_id out;
                              incoming = set_source input.source_branch_id into;
                              source_branch_name = some source_name;
                              destination_branch_name = some destination_name;
                            }))
                            (pure-Reads _))))))

  pub transfer_fresh_tx-Keeps :
      (input : TransferInput) (user : ℕ) → Keeps (transfer_fresh_tx env input user)
  unfolding transfer_fresh_tx
  transfer_fresh_tx-Keeps input user = >>=-Keeps _ _ (Reads-Keeps _ (throw_if-Reads _ _)) (λ _.
      >>=-Keeps _ _ (Reads-Keeps _ (assert_branch_exists-Reads _)) (λ source_name.
        >>=-Keeps _ _ (Reads-Keeps _ (assert_branch_exists-Reads _))
          (λ destination_name. transfer_tx-Keeps input user source_name destination_name)))
