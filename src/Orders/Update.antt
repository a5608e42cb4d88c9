-- ===== src/Orders/Update.antt =====
-- `update` of src/mantenimiento/ordenes.service.ts. The lock of the row keeps other requests away from it
-- until the transaction ends; `meanwhile` is what other requests commit before it starts.
use smi_backend.Prelude.{
  ℕ, Bool, true, false, not, ◌&&◌, Option, none, some, List, [], ◌∷◌, map, ◌==◌, if◌then◌else◌, any,
  is_some, or_default, or_else,
}
use smi_backend.Prelude.Int.{pos}
use smi_backend.Prelude.Result.{Result, ok, err}
use smi_backend.Prelude.Handler.{
  ◌>>=◌, ◌>>◌, pure, gets, modify, reads, throw_if, throw_where, or_throw, atomic,
}
use smi_backend.Concurrency.Expected.{
  Value, undef, null, str, num, Fields, StaleUpdate, assert_expected, defined_fields,
}
use smi_backend.Concurrency.Expected as Expected
use smi_backend.Shifts.Types.{EquipmentStatus}
use smi_backend.Orders.Types.{
  EstadoOt, pendiente, asignada, en_proceso, completada, cancelada, PrioridadOt, baja, media, alta,
  critica, Orden, FleetEquipment, Db, UpdateOrdenDto, OrdenError, orden_not_found,
  equipment_status_not_allowed, row_missing, stale_update,
}
use smi_backend.Orders.Queries.{
  set_orden, find_orden_or_throw, resolve_equipment_id, sync_hallazgo_estado,
  emit_transicion_estado,
}

-- The texts of the states and priorities.
abbrev pub estado_text : EstadoOt → List ℕ
estado_text pendiente = 80 ∷ 69 ∷ 78 ∷ 68 ∷ 73 ∷ 69 ∷ 78 ∷ 84 ∷ 69 ∷ []
estado_text asignada = 65 ∷ 83 ∷ 73 ∷ 71 ∷ 78 ∷ 65 ∷ 68 ∷ 65 ∷ []
estado_text en_proceso = 69 ∷ 78 ∷ 95 ∷ 80 ∷ 82 ∷ 79 ∷ 67 ∷ 69 ∷ 83 ∷ 79 ∷ []
estado_text completada = 67 ∷ 79 ∷ 77 ∷ 80 ∷ 76 ∷ 69 ∷ 84 ∷ 65 ∷ 68 ∷ 65 ∷ []
estado_text cancelada = 67 ∷ 65 ∷ 78 ∷ 67 ∷ 69 ∷ 76 ∷ 65 ∷ 68 ∷ 65 ∷ []

abbrev pub prioridad_text : PrioridadOt → List ℕ
prioridad_text baja = 66 ∷ 65 ∷ 74 ∷ 65 ∷ []
prioridad_text media = 77 ∷ 69 ∷ 68 ∷ 73 ∷ 65 ∷ []
prioridad_text alta = 65 ∷ 76 ∷ 84 ∷ 65 ∷ []
prioridad_text critica = 67 ∷ 82 ∷ 73 ∷ 84 ∷ 73 ∷ 67 ∷ 65 ∷ []

abbrev pub of_id : Option ℕ → Value
of_id none = null
of_id (some id) = num (pos id)

-- What `read` selects of the row, by the numbers of the keys.
abbrev pub fields_of : Orden → Fields
fields_of o =
    (0, str (estado_text o.estado))
    ∷ (1, of_id o.asignado_a_id)
    ∷ (2, str (prioridad_text o.prioridad))
    ∷ (3, str o.titulo)
    ∷ []

abbrev pub value_or_undef : {A : Type 0} → (A → Value) → Option A → Value
value_or_undef f none = undef
value_or_undef f (some a) = f a

-- `desired`: the fields that the body has.
abbrev pub desired_of : UpdateOrdenDto → Fields
desired_of dto = defined_fields (
    (0, value_or_undef (λ e. str (estado_text e)) dto.estado)
    ∷ (1, value_or_undef (λ a. num (pos a)) dto.asignado_a_id)
    ∷ (2, value_or_undef (λ p. str (prioridad_text p)) dto.prioridad)
    ∷ (3, value_or_undef str dto.titulo)
    ∷ [])

abbrev pub as_error : Result StaleUpdate (Unit {0}) → Result OrdenError (Unit {0})
as_error (ok u) = ok u
as_error (err (Expected.stale_update names)) = err (stale_update names)

-- `assertExpectedLocked` of the row of an order.
abbrev pub locked_orden : ℕ → UpdateOrdenDto → Fields → Db → Result OrdenError Orden × Db
locked_orden id dto expected = do
  found ← gets (λ s. s.ordenes id)
  vigente ← or_throw found orden_not_found
  reads (λ _.
      as_error (assert_expected (fields_of vigente) (some expected) (desired_of dto) (λ _. none)))
  pure vigente

abbrev pub updated_row : UpdateOrdenDto → Orden → Orden
updated_row dto o = record o {
  estado = or_default dto.estado o.estado;
  asignado_a_id = or_else dto.asignado_a_id o.asignado_a_id;
  prioridad = or_default dto.prioridad o.prioridad;
  titulo = or_default dto.titulo o.titulo;
}

-- `write`
abbrev pub write_orden : ℕ → UpdateOrdenDto → Db → Result OrdenError Orden × Db
write_orden id dto = do
  found ← gets (λ s. s.ordenes id)
  o ← or_throw found row_missing
  modify (set_orden id (updated_row dto o))
  pure (updated_row dto o)

abbrev pub set_status : ℕ → EquipmentStatus → FleetEquipment → FleetEquipment
set_status id status e = if e.id == id then record e { status = status } else e

-- `applyEquipmentStatus`
abbrev pub apply_equipment_status :
    Option EquipmentStatus → Option ℕ → Db → Result OrdenError (Unit {0}) × Db
apply_equipment_status (some status) (some id) = do
  throw_where (λ s. not (any (λ e. e.id == id) s.fleet)) row_missing
  modify (λ s. record s { fleet = map (set_status id status) s.fleet })
apply_equipment_status _ _ = pure tt

abbrev pub is_completada : Option EstadoOt → Bool
is_completada (some completada) = true
is_completada _ = false

abbrev pub target_equipment : Option EquipmentStatus → ℕ → Db → Option ℕ
target_equipment none equipo_id s = none
target_equipment (some status) equipo_id s = resolve_equipment_id equipo_id s

module _ (id : ℕ) (dto : UpdateOrdenDto) where
  -- The writes of the transaction, given the state that counts as the previous one.
  abbrev pub write_all : Option ℕ → EstadoOt → Db → Result OrdenError Orden × Db
  write_all equipment_id anterior = do
    orden ← write_orden id dto
    modify (sync_hallazgo_estado orden anterior)
    apply_equipment_status dto.equipment_status equipment_id
    pure orden

  -- The transaction: the order that it leaves, and the state before.
  unfoldable pub update_tx :
      Option ℕ → EstadoOt → Option Fields → Db → Result OrdenError (Orden × EstadoOt) × Db
  update_tx equipment_id anterior none = do
    orden ← write_all equipment_id anterior
    pure (orden, anterior)
  update_tx equipment_id anterior (some expected) = do
    vigente ← locked_orden id dto expected
    orden ← write_all equipment_id vigente.estado
    pure (orden, vigente.estado)

  -- `update`
  unfoldable pub update_orden : Option Fields → (Db → Db) → Db → Result OrdenError Orden × Db
  update_orden expected meanwhile = do
    anterior ← find_orden_or_throw id
    throw_if (is_some dto.equipment_status && not (is_completada dto.estado))
        equipment_status_not_allowed
    equipment_id ← gets (target_equipment dto.equipment_status anterior.equipo_id)
    modify meanwhile
    done ← atomic (update_tx equipment_id anterior.estado expected)
    modify (emit_transicion_estado done.1 done.0)
    pure done.0
