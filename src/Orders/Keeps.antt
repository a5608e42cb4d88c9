-- ===== src/Orders/Keeps.antt =====
-- Every handler of orders keeps the invariant of the stock ledger and of the records of maintenance.
use smi_backend.Prelude.{ℕ, ◌≡◌, refl, inl, inr, Option, none, some, List, [], ◌∷◌, Bool-cases}
use smi_backend.Prelude.Result.{Result, ok, err}
use smi_backend.Prelude.Handler.{
  Keeps, Keeps-bind, Keeps-gets, Keeps-or_throw, Keeps-throw_if, Keeps-throw_where, Keeps-pure,
  Keeps-modify, Keeps-reads, Keeps-atomic, Keeps-catch, Keeps-throw,
}
use smi_backend.Concurrency.Expected.{Fields}
use smi_backend.Shifts.Types.{EquipmentStatus}
use smi_backend.Inventory.Stock.Types.{
  StockMovement, StockMovementInput, ItemLowStockEvent, StockError,
}
use smi_backend.Inventory.Stock.Tx.{TxState}
use smi_backend.Inventory.Stock.Moves.{apply_outgoing}
use smi_backend.Inventory.Stock.Keeps.{apply_outgoing-Keeps}
use smi_backend.Orders.Types.{
  EstadoOt, Orden, Tarea, Db, CreateOrdenDto, CreateMantencionHistoricaDto, UpdateOrdenDto, Insumo,
  ToggleTareaDto, Editor,
}
use smi_backend.Orders.Queries.{Env, same_estado}
use smi_backend.Orders.Create.{insert_orden, create_linked, create_fresh, create_historica}
use smi_backend.Orders.Update.{write_all, apply_equipment_status, update_tx, update_orden}
use smi_backend.Orders.Rollback.{read_tarea-Keeps}
use smi_backend.Orders.Tarea.{
  move_orden, move_if_pauta, nuevo_estado, issue_within, claim_photo, claimed_photo, discard_photo,
  issue_all, tarea_tx, stock_env, commit_tarea, update_tarea,
}
use smi_backend.Orders.Effects.{sign_photo-Keeps}
use smi_backend.Orders.Consistent.{
  IsConsistent, with_registro-IsConsistent, sync_hallazgo_estado-IsConsistent,
  emit_transicion_estado-IsConsistent,
}

-- A write to another table.
same_tables :
    (s : Db)
    → IsConsistent s
    → {t : Db} → t.stock ≡ s.stock
    → t.records ≡ s.records
    → IsConsistent t
same_tables s h {t} a b = record { sound = rw a h.sound; distinct = rw b h.distinct }

apply_equipment_status-Keeps :
    (status : Option EquipmentStatus) (id : Option ℕ)
    → Keeps IsConsistent (apply_equipment_status status id)
apply_equipment_status-Keeps (some status) (some id) =
    Keeps-bind (Keeps-throw_where _ _) λ _. Keeps-modify (λ s h. same_tables s h refl refl)
apply_equipment_status-Keeps none id = Keeps-pure
apply_equipment_status-Keeps (some status) none = Keeps-pure

write_all-Keeps :
    (id : ℕ) (dto : UpdateOrdenDto) (equipment_id : Option ℕ) (anterior : EstadoOt)
    → Keeps IsConsistent (write_all id dto equipment_id anterior)
write_all-Keeps id dto equipment_id anterior =
    Keeps-bind
      (Keeps-bind Keeps-gets λ found.
        Keeps-bind (Keeps-or_throw _ _)
          λ o. Keeps-bind (Keeps-modify (λ s h. same_tables s h refl refl)) λ _. Keeps-pure)
      λ orden. Keeps-bind (Keeps-modify (sync_hallazgo_estado-IsConsistent orden anterior)) λ _.
        Keeps-bind (apply_equipment_status-Keeps dto.equipment_status equipment_id) λ _. Keeps-pure

update_tx-Keeps :
    (id : ℕ) (dto : UpdateOrdenDto) (equipment_id : Option ℕ) (anterior : EstadoOt)
    (expected : Option Fields)
    → Keeps IsConsistent (update_tx id dto equipment_id anterior expected)
unfolding update_tx
update_tx-Keeps id dto equipment_id anterior none =
    Keeps-bind (write_all-Keeps id dto equipment_id anterior) λ o. Keeps-pure
update_tx-Keeps id dto equipment_id anterior (some expected) =
    Keeps-bind
      (Keeps-bind Keeps-gets
        λ found. Keeps-bind (Keeps-or_throw _ _) λ v. Keeps-bind Keeps-reads λ _. Keeps-pure)
      λ v. Keeps-bind (write_all-Keeps id dto equipment_id v.estado) λ o. Keeps-pure

pub update_orden-Keeps :
    (id : ℕ) (dto : UpdateOrdenDto) (expected : Option Fields) (meanwhile : Db → Db)
    → ((s : Db) → IsConsistent s → IsConsistent (meanwhile s))
    → Keeps IsConsistent (update_orden id dto expected meanwhile)
unfolding update_orden
update_orden-Keeps id dto expected meanwhile k =
    Keeps-bind (Keeps-bind Keeps-gets λ found. Keeps-or_throw _ _) λ anterior.
      Keeps-bind (Keeps-throw_if _ _) λ _. Keeps-bind Keeps-gets λ equipment_id.
        Keeps-bind (Keeps-modify k) λ _.
          Keeps-bind (Keeps-atomic (update_tx-Keeps id dto equipment_id anterior.estado expected))
            λ w.
              Keeps-bind (Keeps-modify (emit_transicion_estado-IsConsistent w.1 w.0))
                λ _. Keeps-pure

module _ (env : Env) where
  insert_orden-Keeps : (o : Orden) (ts : List Tarea) → Keeps IsConsistent (insert_orden o ts)
  insert_orden-Keeps o ts = Keeps-bind Keeps-gets λ taken.
      Keeps-bind (Keeps-throw_if _ _)
        λ _. Keeps-bind (Keeps-modify (λ s h. same_tables s h refl refl)) λ _. Keeps-pure

  pub create_fresh-Keeps :
      (dto : CreateOrdenDto) (user : ℕ) → Keeps IsConsistent (create_fresh env dto user)
  unfolding create_fresh
  create_fresh-Keeps dto user = at dto.hallazgo_id
    where
      at : (id : Option ℕ) → Keeps IsConsistent (create_linked env dto user id)
      at none = record { held = λ s h. (insert_orden-Keeps _ _).held s h }
      at (some id) = Keeps-atomic (
          Keeps-bind Keeps-gets λ found. Keeps-bind (Keeps-or_throw _ _) λ x.
            Keeps-bind (Keeps-throw_if _ _) λ _.
              Keeps-bind
                (Keeps-bind (Keeps-throw_if _ _)
                  λ _. Keeps-modify (λ s h. same_tables s h refl refl))
                λ _. record { held = λ s h. (insert_orden-Keeps _ _).held s h })

  pub create_historica-Keeps :
      (dto : CreateMantencionHistoricaDto) (user : ℕ)
      → Keeps IsConsistent (create_historica env dto user)
  unfolding create_historica
  create_historica-Keeps dto user = Keeps-bind (Keeps-throw_if _ _) λ _.
      Keeps-bind Keeps-gets λ found.
        Keeps-bind (Keeps-or_throw _ _)
          λ e. record { held = λ s h. (insert_orden-Keeps _ _).held s h }

  issue_within-Keeps :
      (input : StockMovementInput) (events : List ItemLowStockEvent)
      → Keeps IsConsistent (issue_within env input events)
  unfolding issue_within
  issue_within-Keeps input events = record { held = λ s h. at s h (issued s) refl }
    where
      issued : Db → Result StockError (StockMovement × TxState)
      issued s =
          apply_outgoing (stock_env env s) input
            (record { db = s.stock; events = events; locks = [] })

      at :
          (s : Db)
          → IsConsistent s
          → (r : Result StockError (StockMovement × TxState)) → issued s ≡ r
          → IsConsistent (issue_within env input events s).1
      at s h (ok (m, t)) e =
          rw (issue_within, e)
            (record {
              sound = apply_outgoing-Keeps (stock_env env s) input _ t m e h.sound;
              distinct = h.distinct;
            })
      at s h (err x) e = rw (issue_within, e) h

  move_if_pauta-Keeps :
      (id : ℕ) (o : Orden) (cycle : Option ℕ) → Keeps IsConsistent (move_if_pauta id o cycle)
  move_if_pauta-Keeps id o none = Keeps-pure
  move_if_pauta-Keeps id o (some cycle) =
      Keeps-bind Keeps-gets λ ts. moved (nuevo_estado ts o.estado)
    where
      moved : (e : Option EstadoOt) → Keeps IsConsistent (move_orden id o e)
      moved none = Keeps-pure
      moved (some e) = elim (Bool-cases (same_estado e o.estado)) [
        | inl same ↦ rw same Keeps-pure
        | inr other ↦ rw other (
            Keeps-bind Keeps-gets λ found.
              Keeps-bind (Keeps-or_throw _ _)
                λ o'. Keeps-bind (Keeps-modify (λ s h. same_tables s h refl refl)) λ _. Keeps-pure)
      ]

  discard_photo-IsConsistent :
      (photo : Option ℕ) (s : Db) → IsConsistent s → IsConsistent (discard_photo env photo s)
  discard_photo-IsConsistent none s h = h
  discard_photo-IsConsistent (some key) s h = same_tables s h refl refl

  module _ (orden_id tarea_id : ℕ) (dto : ToggleTareaDto) (editor : Editor) where
    claim_photo-Keeps :
        (tmp : Option ℕ) → Keeps IsConsistent (claim_photo env orden_id tarea_id dto editor tmp)
    claim_photo-Keeps none = Keeps-pure
    claim_photo-Keeps (some tmp) = record {
      held = λ s h. at s h (env.claim_tmp tmp editor.id s.bucket);
    }
      where
        at : (s : Db) → IsConsistent s → (key : Option ℕ) → IsConsistent (claimed_photo key s).1
        at s h none = h
        at s h (some key) = same_tables s h refl refl

    issue_all-Keeps :
        (equipment_id : Option ℕ) (branch_id : ℕ) (is : List Insumo)
        (events : List ItemLowStockEvent)
        → Keeps IsConsistent
            (issue_all env orden_id tarea_id dto editor equipment_id branch_id is events)
    issue_all-Keeps equipment_id branch_id [] events = Keeps-pure
    issue_all-Keeps equipment_id branch_id (i ∷ is) events =
        Keeps-bind (issue_within-Keeps _ events)
          λ queued. issue_all-Keeps equipment_id branch_id is queued

    tarea_tx-Keeps :
        (orden : Orden) (tarea : Tarea) (equipment_id photo : Option ℕ)
        → Keeps IsConsistent
            (tarea_tx env orden_id tarea_id dto editor orden tarea equipment_id photo)
    unfolding tarea_tx
    tarea_tx-Keeps orden tarea equipment_id photo =
        Keeps-bind
          (Keeps-bind Keeps-gets λ found.
            Keeps-bind (Keeps-or_throw _ _)
              λ t. Keeps-bind (Keeps-modify (λ s h. same_tables s h refl refl)) λ _. Keeps-pure)
          λ updated. Keeps-bind (issue_all-Keeps _ _ _ _) λ events.
            Keeps-bind
              (Keeps-bind (Keeps-throw_where _ _)
                λ _. Keeps-modify (with_registro-IsConsistent orden tarea dto.hecha editor))
              λ _.
                Keeps-bind (move_if_pauta-Keeps orden_id orden orden.pauta_cycle)
                  λ moved. Keeps-pure

    commit_tarea-Keeps :
        (inside : Db → Db)
        → ((s : Db) → IsConsistent s → IsConsistent (inside s))
        → Keeps IsConsistent (commit_tarea env orden_id tarea_id dto editor inside)
    unfolding commit_tarea
    commit_tarea-Keeps inside k =
        Keeps-bind (read_tarea-Keeps env orden_id tarea_id dto editor IsConsistent) λ read.
          Keeps-bind (claim_photo-Keeps dto.foto_key) λ photo. Keeps-bind (Keeps-modify k) λ _.
            Keeps-bind
              (Keeps-catch (Keeps-atomic (tarea_tx-Keeps read.1 read.0 read.2 photo))
                λ e. Keeps-bind (Keeps-modify (discard_photo-IsConsistent photo)) λ _. Keeps-throw)
              λ w. Keeps-bind (Keeps-modify (λ s h. same_tables s h refl refl)) λ _.
                Keeps-bind
                  (Keeps-modify (emit_transicion_estado-IsConsistent read.1.estado w.orden))
                  λ _. Keeps-pure

    pub update_tarea-Keeps :
        (inside : Db → Db)
        → ((s : Db) → IsConsistent s → IsConsistent (inside s))
        → Keeps IsConsistent (update_tarea env orden_id tarea_id dto editor inside)
    unfolding update_tarea
    update_tarea-Keeps inside k = Keeps-bind (commit_tarea-Keeps inside k) λ t.
        Keeps-bind (sign_photo-Keeps env orden_id tarea_id dto editor IsConsistent t.foto_key)
          λ _. Keeps-pure
