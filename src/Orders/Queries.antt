-- ===== src/Orders/Queries.antt =====
-- The helpers that the operations of `OrdenesService` share (src/mantenimiento/ordenes.service.ts).
use smi_backend.Prelude.{
  ℕ, Bool, true, false, Option, none, some, List, ◌∷◌, ◌==◌, if◌then◌else◌, find, or_else,
}
use smi_backend.Prelude.Int.{ℤ}
use smi_backend.Prelude.Result.{Result}
use smi_backend.Prelude.Handler.{◌>>=◌, gets, or_throw}
use smi_backend.Inventory.Stock.Queries as StockQueries
use smi_backend.Orders.Types.{
  EstadoOt, pendiente, asignada, completada, cancelada, EstadoHallazgo, abierto, cerrado, Orden,
  Tarea, Hallazgo, FleetEquipment, OrdenEvent, orden_assigned, orden_completed, Db, OrdenError,
  orden_not_found,
}

-- What is not in the tables: the clock, the ids that the database makes, the environment of the stock
-- ledger, and the storage: its `claimTmp` copies an upload of a user to a key of its own unless it has
-- expired, `deletes` says of which keys a deletion succeeds, and `signs` of which keys a URL is signed.
pub record Env : Type 0 where
  pub now : ℤ
  pub today : ℕ
  pub new_orden_id : Db → ℕ
  pub new_tarea_id : List Tarea → ℕ
  pub stock : StockQueries.Env
  pub claim_tmp : ℕ → ℕ → List ℕ → Option ℕ
  pub deletes : ℕ → Bool
  pub signs : ℕ → Bool

-- `===` on states.
abbrev pub same_estado : EstadoOt → EstadoOt → Bool
same_estado pendiente pendiente = true
same_estado asignada asignada = true
same_estado EstadoOt.en_proceso EstadoOt.en_proceso = true
same_estado completada completada = true
same_estado cancelada cancelada = true
same_estado _ _ = false

abbrev pub is_en_proceso : EstadoHallazgo → Bool
is_en_proceso EstadoHallazgo.en_proceso = true
is_en_proceso _ = false

abbrev pub is_abierto : EstadoHallazgo → Bool
is_abierto abierto = true
is_abierto _ = false

-- A table with one row written.
abbrev pub set_row : {A : Type 0} → ℕ → Option A → (ℕ → Option A) → ℕ → Option A
set_row id row table k = if k == id then row else table k

abbrev pub set_orden : ℕ → Orden → Db → Db
set_orden id o s = record s { ordenes = set_row id (some o) s.ordenes }

-- `findOrdenOrThrow`
abbrev pub find_orden_or_throw : ℕ → Db → Result OrdenError Orden × Db
find_orden_or_throw id = do orden ← gets (λ s. s.ordenes id); or_throw orden orden_not_found

abbrev pub id_of : Option FleetEquipment → Option ℕ
id_of none = none
id_of (some e) = some e.id

-- `resolveEquipmentId`: by the id, and else by the internal code.
abbrev pub resolve_equipment_id : ℕ → Db → Option ℕ
resolve_equipment_id equipo_id s =
    or_else (id_of (find (λ e. e.id == equipo_id) s.fleet))
      (id_of (find (λ e. e.internal_code == equipo_id) s.fleet))

-- A finding that `updateMany` with the state EN_PROCESO in its `where` writes.
abbrev pub settled_hallazgo : EstadoHallazgo → Option Hallazgo → Option Hallazgo
settled_hallazgo to none = none
settled_hallazgo to (some h) =
    if is_en_proceso h.estado then some (record h { estado = to }) else some h

abbrev pub settle_hallazgo : ℕ → EstadoHallazgo → Db → Db
settle_hallazgo id to s = record s {
  hallazgos = set_row id (settled_hallazgo to (s.hallazgos id)) s.hallazgos;
}

-- `estadoHallazgo`: the state of the finding that follows one of its order.
abbrev pub estado_hallazgo : EstadoOt → Option EstadoHallazgo
estado_hallazgo completada = some cerrado
estado_hallazgo cancelada = some abierto
estado_hallazgo _ = none

abbrev pub sync_linked : Option ℕ → Option EstadoHallazgo → Db → Db
sync_linked (some id) (some to) s = settle_hallazgo id to s
sync_linked _ _ s = s

-- `syncHallazgoEstado`
unfoldable pub sync_hallazgo_estado : Orden → EstadoOt → Db → Db
sync_hallazgo_estado orden anterior s =
    if same_estado orden.estado anterior
    then s
    else sync_linked orden.hallazgo_id (estado_hallazgo orden.estado) s

abbrev pub event_of : Orden → EstadoOt → Option OrdenEvent
event_of orden asignada =
    some (orden_assigned orden.id orden.equipo_id orden.asignado_a_id orden.titulo)
event_of orden completada = some (orden_completed orden.id orden.equipo_id orden.titulo)
event_of orden _ = none

abbrev pub emit_event : Option OrdenEvent → Db → Db
emit_event none s = s
emit_event (some e) s = record s { emitted = e ∷ s.emitted }

-- `emitTransicionEstado`
unfoldable pub emit_transicion_estado : EstadoOt → Orden → Db → Db
emit_transicion_estado anterior orden s =
    if same_estado orden.estado anterior then s else emit_event (event_of orden orden.estado) s
