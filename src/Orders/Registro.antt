-- ===== src/Orders/Registro.antt =====
-- The records of maintenance: `syncRegistroCiclo` of src/mantenimiento/ordenes.service.ts, and the
-- queries that it sends.
use smi_backend.Prelude.{
  String, ℕ, Bool, true, false, not, ◌&&◌, Option, none, some, List, ◌∷◌, ◌==◌, if◌then◌else◌, any,
  filter, find, is_some,
}
use smi_backend.Prelude.Result.{Result}
use smi_backend.Prelude.Handler.{◌>>◌, modify, throw_where}
use smi_backend.Equipment.Counter.{km, hours}
use smi_backend.Orders.Types.{
  Orden, Tarea, FleetEquipment, MaintenancePlanItem, MaintenanceRecord, Db, Editor, OrdenError,
  plan_item_missing,
}

-- `maintenanceRecord`: the row of a plan item in a cycle at a milestone.
abbrev pub is_record_of : ℕ → ℕ → ℕ → MaintenanceRecord → Bool
is_record_of plan_item cycle milestone r =
    (r.plan_item_id == plan_item) && ((r.cycle == cycle) && (r.milestone == milestone))

-- `counterAt`
abbrev pub counter_at : Option FleetEquipment → Option ℕ
counter_at none = none
counter_at (some e) = elim e.control_unit [ km ↦ e.current_mileage | hours ↦ e.current_hourmeter ]

abbrev pub description_or : List ℕ → Option MaintenancePlanItem → List ℕ
description_or texto none = texto
description_or texto (some i) = i.description

abbrev pub kind_of : Option MaintenancePlanItem → String
kind_of none = "OTRO"
kind_of (some i) = i.kind

-- The `create` of the upsert.
abbrev pub new_record : Orden → ℕ → ℕ → ℕ → List ℕ → Editor → Db → MaintenanceRecord
new_record orden plan_item cycle milestone texto editor s = record {
  equipment_id = orden.equipo_id;
  plan_item_id = plan_item;
  cycle = cycle;
  milestone = milestone;
  description = description_or texto (s.plan_items plan_item);
  kind = kind_of (s.plan_items plan_item);
  counter_at = counter_at (find (λ e. e.id == orden.equipo_id) s.fleet);
  done_by_id = editor.id;
  done_by_name = editor.name;
}

-- What `maintenanceRecord.upsert` with an empty update leaves, if its insertion is not refused.
abbrev pub add_record : MaintenanceRecord → List MaintenanceRecord → List MaintenanceRecord
add_record r rs = if any (is_record_of r.plan_item_id r.cycle r.milestone) rs then rs else r ∷ rs

-- `maintenanceRecord.deleteMany`
abbrev pub drop_record : ℕ → ℕ → ℕ → List MaintenanceRecord → List MaintenanceRecord
drop_record plan_item cycle milestone rs =
    filter (λ r. not (is_record_of plan_item cycle milestone r)) rs

abbrev pub write_record : Bool → Orden → ℕ → ℕ → ℕ → List ℕ → Editor → Db → List MaintenanceRecord
write_record true orden plan_item cycle milestone texto editor s =
    add_record (new_record orden plan_item cycle milestone texto editor s) s.records
write_record false orden plan_item cycle milestone texto editor s =
    drop_record plan_item cycle milestone s.records

abbrev pub records_after :
    Option ℕ → Option ℕ → Option ℕ → Orden → List ℕ → Bool → Editor → Db → List MaintenanceRecord
records_after (some cycle) (some milestone) (some plan_item) orden texto done editor s =
    write_record done orden plan_item cycle milestone texto editor s
records_after _ _ _ orden texto done editor s = s.records

-- What `syncRegistroCiclo` leaves in the table of records, if the database does not refuse it.
unfoldable pub with_registro : Orden → Tarea → Bool → Editor → Db → Db
with_registro orden tarea done editor s = record s {
  records =
      records_after orden.pauta_cycle orden.pauta_milestone tarea.plan_item_id orden tarea.texto
        done editor s;
}

-- The foreign key of `planItemId`: an upsert that has to insert is refused if the item has been deleted
-- from the plan, to which the task keeps a reference that no key guards.
abbrev pub names_no_item : Option ℕ → Option ℕ → Option ℕ → Bool → Db → Bool
names_no_item (some cycle) (some milestone) (some plan_item) true s =
    not (any (is_record_of plan_item cycle milestone) s.records)
    && not (is_some (s.plan_items plan_item))
names_no_item _ _ _ _ s = false

-- `syncRegistroCiclo`
abbrev pub sync_registro_ciclo :
    Orden → Tarea → Bool → Editor → Db → Result OrdenError (Unit {0}) × Db
sync_registro_ciclo orden tarea done editor =
    throw_where (names_no_item orden.pauta_cycle orden.pauta_milestone tarea.plan_item_id done)
      plan_item_missing
    >> modify (with_registro orden tarea done editor)
