-- ===== src/Orders/Types.antt =====
-- The tables, bodies, events and errors of `OrdenesService` (src/mantenimiento/ordenes.service.ts and the
-- models OrdenTrabajo, TareaOT, Hallazgo, Equipment, MaintenancePlanItem and MaintenanceRecord of
-- prisma/schema.prisma). Ids, codes, storage keys and the free text that names an equipment are only
-- compared, so they are numbers. A text that is trimmed or compared is the list of its code points.
-- Of an error only its code is kept, not its message.
use smi_backend.Prelude.{ℕ, Bool, Option, List, String}
use smi_backend.Prelude.Int.{ℤ}
use smi_backend.Equipment.Counter.{ControlUnit}
use smi_backend.Shifts.Types.{EquipmentStatus}
use smi_backend.Inventory.Stock.Types.{ItemLowStockEvent, StockError, Amount}
use smi_backend.Inventory.Stock.Types as Stock

pub data EstadoOt : Type 0 where
  pendiente asignada en_proceso completada cancelada : EstadoOt

pub data TipoOt : Type 0 where
  correctiva preventiva : TipoOt

pub data OrigenOt : Type 0 where
  manual preventivo hallazgo : OrigenOt

pub data PrioridadOt : Type 0 where
  baja media alta critica : PrioridadOt

pub data TipoHallazgo : Type 0 where
  equipo zona : TipoHallazgo

pub data EstadoHallazgo : Type 0 where
  abierto en_proceso cerrado : EstadoHallazgo

-- The text of `origenDetalle`: one that a caller passes, or that of an earlier maintenance.
pub data OrigenDetalle : Type 0 where
  given : String → OrigenDetalle
  mantencion_anterior : Option (List ℕ) → OrigenDetalle

-- The text of `notas`: one that a caller passes, or a reading that the service writes out.
pub data Notas : Type 0 where
  given : String → Notas
  kilometraje horometro : ℕ → Notas

-- `OrdenTrabajo`; its tasks are in a table of their own.
pub record Orden : Type 0 where
  pub id : ℕ
  pub created_by_id : Option ℕ
  pub equipo_id : ℕ
  pub asignado_a_id : Option ℕ
  pub hallazgo_id : Option ℕ
  pub titulo : List ℕ
  pub estado : EstadoOt
  pub prioridad : PrioridadOt
  pub tipo : TipoOt
  pub origen : OrigenOt
  pub origen_detalle : Option OrigenDetalle
  pub pauta_milestone : Option ℕ
  pub pauta_cycle : Option ℕ

-- `TareaOT`
pub record Tarea : Type 0 where
  pub id : ℕ
  pub orden_id : ℕ
  pub texto : List ℕ
  pub hecha : Bool
  pub posicion : ℕ
  pub plan_item_id : Option ℕ
  pub notas : Option Notas
  pub foto_key : Option ℕ
  pub hecha_por_nombre : Option (List ℕ)
  pub hecha_at : Option ℤ

pub record Hallazgo : Type 0 where
  pub tipo : TipoHallazgo
  pub estado : EstadoHallazgo

-- An equipment of the fleet.
pub record FleetEquipment : Type 0 where
  pub id : ℕ
  pub internal_code : ℕ
  pub control_unit : ControlUnit
  pub status : EquipmentStatus
  pub current_hourmeter : Option ℕ
  pub current_mileage : Option ℕ

pub record MaintenancePlanItem : Type 0 where
  pub description : List ℕ
  pub kind : String

pub record MaintenanceRecord : Type 0 where
  pub equipment_id : ℕ
  pub plan_item_id : ℕ
  pub cycle : ℕ
  pub milestone : ℕ
  pub description : List ℕ
  pub kind : String
  pub counter_at : Option ℕ
  pub done_by_id : ℕ
  pub done_by_name : List ℕ

-- `OrdenAssignedEvent` and `OrdenCompletedEvent`
pub data OrdenEvent : Type 0 where
  orden_assigned : ℕ → ℕ → Option ℕ → List ℕ → OrdenEvent
  orden_completed : ℕ → ℕ → List ℕ → OrdenEvent

-- The tables, the objects of the storage, and the events that were emitted. Orders, findings and plan
-- items are looked up by their primary keys, so they are functions.
pub record Db : Type 0 where
  pub ordenes : ℕ → Option Orden
  pub tareas : List Tarea
  pub hallazgos : ℕ → Option Hallazgo
  pub fleet : List FleetEquipment
  pub plan_items : ℕ → Option MaintenancePlanItem
  pub records : List MaintenanceRecord
  pub stock : Stock.Db
  pub bucket : List ℕ
  pub low_stock : List ItemLowStockEvent
  pub emitted : List OrdenEvent

pub record CreateOrdenDto : Type 0 where
  pub id : Option ℕ
  pub equipo_id : ℕ
  pub hallazgo_id : Option ℕ
  pub titulo : List ℕ
  pub prioridad : Option PrioridadOt
  pub tipo : Option TipoOt
  pub origen : Option OrigenOt
  pub origen_detalle : Option String
  pub asignado_a_id : Option ℕ
  pub tareas : Option (List (List ℕ))

-- The date is a number of days since 1970.
pub record CreateMantencionHistoricaDto : Type 0 where
  pub equipo_id : ℕ
  pub fecha : ℕ
  pub titulo : List ℕ
  pub tipo : Option TipoOt
  pub observaciones : Option (List ℕ)
  pub realizada_por : Option (List ℕ)
  pub lectura : Option ℕ

pub record UpdateOrdenDto : Type 0 where
  pub estado : Option EstadoOt
  pub asignado_a_id : Option ℕ
  pub prioridad : Option PrioridadOt
  pub titulo : Option (List ℕ)
  pub equipment_status : Option EquipmentStatus

pub record Insumo : Type 0 where
  pub insumo_id : ℕ
  pub cantidad : Amount

pub record ToggleTareaDto : Type 0 where
  pub hecha : Bool
  pub notas : Option String
  pub foto_key : Option ℕ
  pub insumos : Option (List Insumo)
  pub branch_id : Option ℕ

pub record Editor : Type 0 where
  pub id : ℕ
  pub name : List ℕ

-- The codes of the errors. `row_missing`, `duplicate_id` and `plan_item_missing` are the
-- database's, `photo_not_signed` the storage's.
pub data OrdenError : Type 0 where
  orden_not_found tarea_not_found hallazgo_not_found equipo_not_found : OrdenError
  hallazgo_de_zona hallazgo_tomado fecha_futura : OrdenError
  equipment_status_not_allowed bodega_required tmp_key_expired photo_not_signed id_conflict :
      OrdenError
  row_missing duplicate_id plan_item_missing : OrdenError
  stale_update : List ℕ → OrdenError
  stock_error : StockError → OrdenError
