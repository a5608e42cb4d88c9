-- ===== src/Orders/Tarea.antt =====
-- `updateTarea` of src/mantenimiento/ordenes.service.ts. `inside` is what other
-- requests commit between the queries of the request and its transaction.
use smi_backend.Prelude.{
  String, ℕ, Bool, not, ◌&&◌, ◌||◌, Option, none, some, List, [], ◌∷◌, ◌++◌, map, ◌==◌, ltb,
  if◌then◌else◌, any, filter, find, is_some, or_default, or_else, length,
}
use smi_backend.Prelude.Result.{Result, ok, err}
use smi_backend.Prelude.Handler.{
  ◌>>=◌, ◌>>◌, pure, throw, gets, modify, throw_if, or_throw, atomic, catch,
}
use smi_backend.Inventory.Stock.Types.{
  StockMovement, StockMovementInput, ItemLowStockEvent, StockError,
}
use smi_backend.Inventory.Stock.Tx.{TxState}
use smi_backend.Inventory.Stock.Types as Stock
use smi_backend.Inventory.Stock.Queries as StockQueries
use smi_backend.Inventory.Stock.Moves.{apply_outgoing}
use smi_backend.Orders.Types.{
  EstadoOt, pendiente, asignada, en_proceso, completada, Notas, Orden, Tarea, FleetEquipment, Db,
  Insumo, ToggleTareaDto, Editor, OrdenError, tarea_not_found, bodega_required, tmp_key_expired,
  photo_not_signed, row_missing, stock_error,
}
use smi_backend.Orders.Queries.{
  Env, same_estado, set_orden, find_orden_or_throw, resolve_equipment_id, emit_transicion_estado,
}
use smi_backend.Orders.Registro.{sync_registro_ciclo}

abbrev pub find_tarea : ℕ → Db → Option Tarea
find_tarea id s = find (λ t. t.id == id) s.tareas

-- `nuevoEstado`
unfoldable pub nuevo_estado : List Tarea → EstadoOt → Option EstadoOt
nuevo_estado tareas estado =
    let hechas = length (filter (λ (t : Tarea). t.hecha) tareas) in
    if ltb 0 (length tareas) && (hechas == length tareas)
    then some completada
    else (if ltb 0 hechas && (same_estado estado pendiente || same_estado estado asignada)
        then some en_proceso
        else none)

abbrev pub tareas_de : ℕ → Db → List Tarea
tareas_de orden_id s = filter (λ t. t.orden_id == orden_id) s.tareas

-- `ordenTrabajo.update` of the state.
abbrev pub set_estado : ℕ → EstadoOt → Db → Result OrdenError Orden × Db
set_estado id estado = do
  found ← gets (λ s. s.ordenes id)
  o ← or_throw found row_missing
  modify (set_orden id (record o { estado = estado }))
  pure (record o { estado = estado })

abbrev pub move_orden : ℕ → Orden → Option EstadoOt → Db → Result OrdenError Orden × Db
move_orden id orden none = pure orden
move_orden id orden (some estado) =
    if same_estado estado orden.estado then pure orden else set_estado id estado

-- The automatic transition, which only the orders of a maintenance plan make.
abbrev pub move_if_pauta : ℕ → Orden → Option ℕ → Db → Result OrdenError Orden × Db
move_if_pauta id orden none = pure orden
move_if_pauta id orden (some cycle) = do
  tareas ← gets (tareas_de id)
  move_orden id orden (nuevo_estado tareas orden.estado)

abbrev pub after_issue :
    Db
    → Result StockError (StockMovement × TxState)
    → Result OrdenError (List ItemLowStockEvent) × Db
after_issue s (ok (m, t)) = (ok t.events, record s { stock = t.db })
after_issue s (err e) = (err (stock_error e), s)

-- The stock ledger's environment, where the equipments are those of the fleet.
abbrev pub stock_env : Env → Db → StockQueries.Env
stock_env env s = record env.stock {
  has_equipment = λ id. any (λ (e : FleetEquipment). e.id == id) s.fleet;
}

-- `stock.issue` within the transaction: the notices are queued, and sent after the commit.
unfoldable pub issue_within :
    Env
    → StockMovementInput
    → List ItemLowStockEvent
    → Db
    → Result OrdenError (List ItemLowStockEvent) × Db
issue_within env input events s =
    after_issue s (
      apply_outgoing (stock_env env s) input (record { db = s.stock; events = events; locks = [] }))

-- `storage.discard`: a deletion that fails leaves the object, and never throws.
abbrev pub discard_photo : Env → Option ℕ → Db → Db
discard_photo env none s = s
discard_photo env (some key) s = record s {
  bucket = if env.deletes key then filter (λ k. not (k == key)) s.bucket else s.bucket;
}

-- `storage.sign` of the stored photo, which the answer of the request shows.
abbrev pub sign_photo : Env → Option ℕ → Db → Result OrdenError (Unit {0}) × Db
sign_photo env none = pure tt
sign_photo env (some key) = throw_if (not (env.signs key)) photo_not_signed

-- `storage.claimTmp`
abbrev pub claimed_photo : Option ℕ → Db → Result OrdenError (Option ℕ) × Db
claimed_photo none s = (err tmp_key_expired, s)
claimed_photo (some key) s = (ok (some key), record s { bucket = key ∷ s.bucket })

abbrev pub notas_or : Option String → Option Notas → Option Notas
notas_or none stored = stored
notas_or (some text) stored = some (Notas.given text)

-- What the transaction answers: the task, the order and the queued notices.
pub record Marked : Type 0 where
  pub tarea : Tarea
  pub orden : Orden
  pub events : List ItemLowStockEvent

module _ (env : Env) (orden_id : ℕ) (tarea_id : ℕ) (dto : ToggleTareaDto) (editor : Editor) where
  abbrev pub claim_photo : Option ℕ → Db → Result OrdenError (Option ℕ) × Db
  claim_photo none = pure none
  claim_photo (some tmp) = λ s. claimed_photo (env.claim_tmp tmp editor.id s.bucket) s

  abbrev pub marked_row : Option ℕ → Tarea → Tarea
  marked_row photo t = record t {
    hecha = dto.hecha;
    notas = notas_or dto.notas t.notas;
    foto_key = or_else photo t.foto_key;
    hecha_por_nombre = if dto.hecha then some editor.name else none;
    hecha_at = if dto.hecha then some env.now else none;
  }

  abbrev pub mark_row : Option ℕ → Tarea → Tarea
  mark_row photo t = if t.id == tarea_id then marked_row photo t else t

  -- `tareaOT.update`
  abbrev pub mark_tarea : Option ℕ → Db → Result OrdenError Tarea × Db
  mark_tarea photo = do
    found ← gets (find_tarea tarea_id)
    t ← or_throw found row_missing
    modify (λ s. record s { tareas = map (mark_row photo) s.tareas })
    pure (marked_row photo t)

  abbrev pub issue_input : Option ℕ → ℕ → Insumo → StockMovementInput
  issue_input equipment_id branch_id insumo = record {
    id = none;
    item_id = insumo.insumo_id;
    branch_id = branch_id;
    quantity = insumo.cantidad;
    reason = Stock.intervention;
    performed_by_id = some editor.id;
    equipment_id = equipment_id;
    reference = some (Stock.Reference.given orden_id);
    document_number = none;
    notes = none;
  }

  -- The loop over the supplies.
  abbrev pub issue_all :
      Option ℕ
      → ℕ
      → List Insumo
      → List ItemLowStockEvent
      → Db
      → Result OrdenError (List ItemLowStockEvent) × Db
  issue_all equipment_id branch_id [] events = pure events
  issue_all equipment_id branch_id (i ∷ is) events = do
    queued ← issue_within env (issue_input equipment_id branch_id i) events
    issue_all equipment_id branch_id is queued

  -- The transaction.
  unfoldable pub tarea_tx : Orden → Tarea → Option ℕ → Option ℕ → Db → Result OrdenError Marked × Db
  tarea_tx orden tarea equipment_id photo = do
    updated ← mark_tarea photo
    events ← issue_all equipment_id (or_default dto.branch_id 0) (or_default dto.insumos []) []
    sync_registro_ciclo orden tarea dto.hecha editor
    moved ← move_if_pauta orden_id orden orden.pauta_cycle
    pure (record { tarea = updated; orden = moved; events = events })

  abbrev pub uses_supplies : Bool
  uses_supplies = ltb 0 (length (or_default dto.insumos []))

  -- What the request reads and checks first: the task, the order and the equipment of the movements.
  abbrev pub read_tarea : Db → Result OrdenError (Tarea × Orden × Option ℕ) × Db
  read_tarea = do
    found ← gets (find_tarea tarea_id)
    tarea ← or_throw found tarea_not_found
    throw_if (not (tarea.orden_id == orden_id)) tarea_not_found
    orden ← find_orden_or_throw orden_id
    throw_if (uses_supplies && not (is_some dto.branch_id)) bodega_required
    equipment_id ←
        gets (λ s. if uses_supplies then resolve_equipment_id orden.equipo_id s else none)
    pure (tarea, orden, equipment_id)

  -- `updateTarea` up to its answer.
  unfoldable pub commit_tarea : (Db → Db) → Db → Result OrdenError Tarea × Db
  commit_tarea inside = do
    read ← read_tarea
    photo ← claim_photo dto.foto_key
    modify inside
    done ←
        catch (atomic (tarea_tx read.1 read.0 read.2 photo))
          λ e. do modify (discard_photo env photo); throw e
    modify (λ s. record s { low_stock = s.low_stock ++ done.events })
    modify (emit_transicion_estado read.1.estado done.orden)
    pure done.tarea

  -- `updateTarea`: by the time its answer is made, everything has been committed and sent.
  unfoldable pub update_tarea : (Db → Db) → Db → Result OrdenError Tarea × Db
  update_tarea inside = do tarea ← commit_tarea inside; sign_photo env tarea.foto_key; pure tarea
