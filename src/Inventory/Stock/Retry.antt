-- ===== src/Inventory/Stock/Retry.antt =====
-- `transfer` as a client sees it: what a new transfer leaves, and what a retry of it answers.
use smi_backend.Prelude.{
  ℕ, String, ◌≡◌, refl, sym, ap, subst, ◌∙◌, inl, inr, Bool, true, false, some, List, ◌∷◌, arith,
  or_default, ◌==◌, Option-cases, find,
}
use smi_backend.Prelude.Result.{ok}
use smi_backend.Concurrency.CreateOrReturn.{ExistingRecord, create_or_return}
use smi_backend.Concurrency.CreateOrReturn.Laws.{at_once, create_or_return-own}
use smi_backend.Inventory.Stock.Types.{
  incoming, outgoing, StockMovement, Db, TransferInput, TransferResult, Reference, other_owner,
  same_branch, StockError,
}
use smi_backend.Inventory.Stock.Tx.{TxState, throw_if}
use smi_backend.Inventory.Stock.Queries.{Env, has_id, assert_branch_exists, name_of_branch}
use smi_backend.Inventory.Stock.Transfer.{transfer_tx, transfer_fresh_tx}
use smi_backend.Inventory.Stock.Service.{
  World, transfer_fresh, transfer_stock, find_transfer, replay_transfer, is_counterpart,
  reference_eq, existing_if_transfer, existing_transfer, transfer_parts,
}
use smi_backend.Inventory.Stock.Keeps.{>>=-eq-ok, assert_branch_exists-Reads, throw_if-Reads}
use smi_backend.Inventory.Stock.Transfers.{Transferred, IsLeg, Apart, transfer_tx-Transferred}
use smi_backend.Inventory.Stock.Effects.{start, run-eq-ok}

-- What an accepted transfer has made of the tables, with the names and the id that it answers.
pub record Accepted (input : TransferInput) (user : ℕ) (db : Db) (t : TransferResult) (db' : Db)
    : Type 0 where
  pub apart : Apart input
  pub made : Transferred input user db t db'
  pub source_named : t.source_branch_name ≡ name_of_branch (db.branches input.source_branch_id)
  pub destination_named :
      t.destination_branch_name ≡ name_of_branch (db.branches input.destination_branch_id)
  pub id_given : or_default input.id t.out.id ≡ t.out.id

branch_named :
    (b : ℕ) (s s' : TxState) (name : String)
    → assert_branch_exists b s ≡ ok (name, s')
    → some name ≡ name_of_branch (s.db.branches b)
branch_named b s s' name h = elim (Option-cases (s.db.branches b)) [
  | inl absent ↦ absurd (ground arith)
  | inr (branch, e) ↦ ground arith
]

apart_of : (b : Bool) (e : StockError) (s s' : TxState) → throw_if b e s ≡ ok (tt, s') → b ≡ false
apart_of b e s s' h = ground arith

module _ (env : Env) (input : TransferInput) (user : ℕ) where
  accept :
      (s s1 s2 s3 s' : TxState) (source_name destination_name : String) (t : TransferResult)
      → throw_if (input.source_branch_id == input.destination_branch_id) same_branch s ≡ ok (tt, s1)
      → assert_branch_exists input.source_branch_id s1 ≡ ok (source_name, s2)
      → assert_branch_exists input.destination_branch_id s2 ≡ ok (destination_name, s3)
      → transfer_tx env input user source_name destination_name s3 ≡ ok (t, s')
      → Accepted input user s.db t s'.db
  accept s s1 s2 s3 s' source_name destination_name t checked source destination h =
      let apart =
        apart_of (input.source_branch_id == input.destination_branch_id) same_branch s s1 checked in
      let e1 : s1.db ≡ s.db = throw_if-Reads _ _ s s1 tt checked in
      let e2 : s2.db ≡ s.db = assert_branch_exists-Reads _ s1 s2 source_name source ∙ e1 in
      let e3 : s3.db ≡ s.db =
        assert_branch_exists-Reads _ s2 s3 destination_name destination ∙ e2 in
      let (made, named, named', referenced, given) =
        transfer_tx-Transferred env input user source_name destination_name apart s3 s' t h in
      record {
        apart = apart;
        made = subst (λ db. Transferred input user db t s'.db) e3 made;
        source_named =
            named
            ∙ branch_named input.source_branch_id s1 s2 source_name source
            ∙ ap (λ db. name_of_branch (db.branches input.source_branch_id)) e1;
        destination_named =
            named'
            ∙ branch_named input.destination_branch_id s2 s3 destination_name destination
            ∙ ap (λ db. name_of_branch (db.branches input.destination_branch_id)) e2;
        id_given = given;
      }

transfer_fresh_tx-Accepted :
    (env : Env) (input : TransferInput) (user : ℕ) (s s' : TxState) (t : TransferResult)
    → transfer_fresh_tx env input user s ≡ ok (t, s')
    → Accepted input user s.db t s'.db
unfolding transfer_fresh_tx
transfer_fresh_tx-Accepted env input user s s' t h =
    let (u, s1, checked, h1) =
      >>=-eq-ok (throw_if (input.source_branch_id == input.destination_branch_id) same_branch) _ s
        s' t h in
    let (source_name, s2, source, h2) =
      >>=-eq-ok (assert_branch_exists input.source_branch_id) _ s1 s' t h1 in
    let (destination_name, s3, destination, h3) =
      >>=-eq-ok (assert_branch_exists input.destination_branch_id) _ s2 s' t h2 in
    accept env input user s s1 s2 s3 s' source_name destination_name t checked source destination h3

-- A new transfer that answers has taken its quantity from the source's balance and added it to the
-- destination's, has changed no other balance, and has put its two movements, with one quantity and
-- one reference and each with the other's branch, before the others.
pub transfer_fresh-Accepted :
    (env : Env) (input : TransferInput) (user : ℕ) (w w' : World) (t : TransferResult)
    → transfer_fresh env input user w ≡ (ok t, w')
    → Accepted input user w.db t w'.db
unfolding transfer_fresh
transfer_fresh-Accepted env input user w w' t h =
    let (s, e, done) = run-eq-ok (transfer_fresh_tx env input user) w w' t h in
    subst (λ u. Accepted input user w.db t u.db) done
      (transfer_fresh_tx-Accepted env input user (start w) s t e)

reference_eq_refl : (r : Reference) → reference_eq r (some r) ≡ true
reference_eq_refl (Reference.given a) = ground arith
reference_eq_refl (Reference.transfer_of a) = ground arith
reference_eq_refl (Reference.transfer_at a) = ground arith

counterpart :
    (input : TransferInput) (user : ℕ) (out into : StockMovement) (r : Reference)
    → IsLeg out outgoing r input.item_id input.source_branch_id user
    → IsLeg into incoming r input.item_id input.destination_branch_id user
    → into.source_branch_id ≡ some input.source_branch_id
    → is_counterpart out r input.destination_branch_id into ≡ true
counterpart input user out into r o v source = ground (
  arith,
  reference_eq_refl r,
  o.item_is,
  o.branch_is,
  o.user_is,
  v.direction_is,
  v.reason_is,
  v.reference_is,
  v.item_is,
  v.branch_is,
  v.user_is,
)

-- The answer that the stored movements give to a retry.
replayed :
    (input : TransferInput) (user : ℕ) (db : Db) (t : TransferResult) (w' : World)
    → Accepted input user db t w'.db
    → replay_transfer t.out t.reference input.destination_branch_id w' ≡ ok t
unfolding replay_transfer
replayed input user db t w' a =
    let made = a.made in
    let met =
      counterpart input user t.out t.incoming t.reference made.out_leg made.incoming_leg
        made.source_is in
    rw (made.ledger, replay_transfer)
      (rw met (λ i. ok (record {
        reference = t.reference;
        out = t.out;
        incoming = t.incoming;
        source_branch_name = source_name i;
        destination_branch_name = destination_name i;
      })))
  where
    source_name : name_of_branch (w'.db.branches t.out.branch_id) ≡ t.source_branch_name
    source_name = ground (arith, a.source_named, a.made.branches_same, a.made.out_leg.branch_is)

    destination_name :
        name_of_branch (w'.db.branches input.destination_branch_id) ≡ t.destination_branch_name
    destination_name = ground (arith, a.destination_named, a.made.branches_same)

abbrev stored : TransferInput → TransferResult → ExistingRecord World StockError TransferResult
stored input t = record {
  owner_id = t.out.performed_by_id;
  result = replay_transfer t.out t.reference input.destination_branch_id;
}

parts_of_leg :
    (input : TransferInput) (user : ℕ) (out : StockMovement) (r : Reference)
    → IsLeg out outgoing r input.item_id input.source_branch_id user
    → out.destination_branch_id ≡ some input.destination_branch_id
    → transfer_parts out.reason out.direction out.reference out.destination_branch_id
      ≡ some (r, input.destination_branch_id)
parts_of_leg input user out r leg destination =
    ground (arith, leg.reason_is, leg.direction_is, leg.reference_is, destination)

second_found :
    (k : ℕ) (into out : StockMovement) (old : List StockMovement)
    → (into.id == out.id) ≡ false
    → out.id ≡ k
    → find (has_id k) (into ∷ out ∷ old) ≡ some out
second_found k into out old differ is = ground arith

-- `findTransfer` finds it by the id of its outgoing movement.
found_stored :
    (input : TransferInput) (user k : ℕ) (db : Db) (t : TransferResult) (w' : World)
    → t.out.id ≡ k
    → Accepted input user db t w'.db
    → find_transfer k w' ≡ ok (some (stored input t))
unfolding find_transfer
found_stored input user k db t w' given a =
    ap (λ l. existing_if_transfer (find (has_id k) l)) a.made.ledger
    ∙ ap existing_if_transfer (second_found k t.incoming t.out db.movements a.made.ids_differ given)
    ∙ ap (existing_transfer t.out)
        (parts_of_leg input user t.out t.reference a.made.out_leg a.made.destination_is)

-- A client that sends its transfer again, with its id, to the tables that its first request left
-- gets the same answer and moves nothing.
pub transfer_stock-retry :
    (env : Env) (input : TransferInput) (user k : ℕ) (meanwhile : World → World) (w w' : World)
    (t : TransferResult)
    → input.id ≡ some k
    → transfer_fresh env input user w ≡ (ok t, w')
    → transfer_stock env input user meanwhile w' ≡ (ok t, w')
unfolding transfer_stock
transfer_stock-retry env input user k meanwhile w w' t given h =
    let a = transfer_fresh-Accepted env input user w w' t h in
    ap
      (λ o.
        create_or_return find_transfer (transfer_fresh env input user) o user other_owner meanwhile
          w')
      given
    ∙ create_or_return-own find_transfer (transfer_fresh env input user) k meanwhile user
        other_owner w' w' (stored input t)
        (at_once
          (found_stored input user k w.db t w'
            (sym a.id_given ∙ ap (λ o. or_default o t.out.id) given) a)
          refl)
        a.made.out_leg.user_is
    ∙ ap (λ r. (r, w')) (replayed input user w.db t w' a)
