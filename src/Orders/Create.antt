-- ===== src/Orders/Create.antt =====
-- `create`, `createFresh` and `createHistorica` of src/mantenimiento/ordenes.service.ts.
use smi_backend.Prelude.{
  ℕ, Bool, true, false, not, Option, none, some, List, [], ◌∷◌, ◌++◌, ◌+◌, ◌*◌, ltb, find, is_some,
  or_default, or_else, ◌==◌, String,
}
use smi_backend.Prelude.Int.{ℤ, pos}
use smi_backend.Prelude.Result.{Result, ok, err}
use smi_backend.Prelude.Handler.{◌>>=◌, ◌>>◌, pure, gets, modify, throw_if, or_throw, atomic}
use smi_backend.Concurrency.Expected.{trim}
use smi_backend.Concurrency.CreateOrReturn.{ExistingRecord, create_or_return}
use smi_backend.Equipment.Counter.{ControlUnit, km, hours}
use smi_backend.Shifts.Edit.Checks.{words_or_null}
use smi_backend.Orders.Types.{
  pendiente, completada, correctiva, preventiva, manual, media, TipoHallazgo, equipo, zona,
  EstadoHallazgo, OrigenDetalle, mantencion_anterior, Notas, kilometraje, horometro, Orden, Tarea,
  Hallazgo, FleetEquipment, Db, CreateOrdenDto, CreateMantencionHistoricaDto, OrdenError,
  orden_not_found, hallazgo_not_found, equipo_not_found, hallazgo_de_zona, hallazgo_tomado,
  fecha_futura, id_conflict, duplicate_id,
}
use smi_backend.Orders.Queries.{Env, is_abierto, set_row, set_orden}

abbrev pub is_zona : TipoHallazgo → Bool
is_zona zona = true
is_zona equipo = false

-- `ordenTrabajo.create` of the row, with the tasks nested in it.
abbrev pub insert_orden : Orden → List Tarea → Db → Result OrdenError Orden × Db
insert_orden orden tareas = do
  taken ← gets (λ s. is_some (s.ordenes orden.id))
  throw_if taken duplicate_id
  modify (λ s. set_orden orden.id orden (record s { tareas = s.tareas ++ tareas }))
  pure orden

abbrev pub detalle : Option String → Option OrigenDetalle
detalle none = none
detalle (some text) = some (OrigenDetalle.given text)

-- The conditional claim: only a finding that is still ABIERTO is written.
abbrev pub claim_hallazgo : ℕ → Hallazgo → Db → Result OrdenError (Unit {0}) × Db
claim_hallazgo id h = do
  throw_if (not (is_abierto h.estado)) hallazgo_tomado
  modify (λ s. record s {
    hallazgos = set_row id (some (record h { estado = EstadoHallazgo.en_proceso })) s.hallazgos;
  })

abbrev pub existing_orden :
    Option Orden → Result OrdenError (Option (ExistingRecord Db OrdenError Orden))
existing_orden none = ok none
existing_orden (some o) = ok (
    some (record {
      owner_id = o.created_by_id;
      result = λ s. elim (s.ordenes o.id) [ none ↦ err orden_not_found | some now ↦ ok now ];
    }))

-- The `findExisting` of `create`.
abbrev pub find_existing : ℕ → Db → Result OrdenError (Option (ExistingRecord Db OrdenError Orden))
find_existing id s = existing_orden (s.ordenes id)

-- The note with the reading, in the unit of the equipment.
abbrev pub reading_note : Option ℕ → ControlUnit → Option Notas
reading_note none unit = none
reading_note (some value) km = some (kilometraje value)
reading_note (some value) hours = some (horometro value)

-- `text ? … : …`, where the empty text counts as none.
abbrev pub nonempty : Option (List ℕ) → Option (List ℕ)
nonempty none = none
nonempty (some text) = words_or_null text

abbrev pub words : Option (List ℕ) → Option (List ℕ)
words none = none
words (some text) = words_or_null (trim text)

-- Noon of a day, in milliseconds since 1970.
abbrev pub noon_of : ℕ → ℤ
noon_of day = pos (day * 86400000 + 43200000)

module _ (env : Env) where
  -- The tasks of a new order, in the order of the body.
  abbrev pub new_tareas : ℕ → ℕ → List (List ℕ) → List Tarea → List Tarea
  new_tareas orden_id posicion [] known = []
  new_tareas orden_id posicion (texto ∷ textos) known =
      let tarea : Tarea = record {
        id = env.new_tarea_id known;
        orden_id = orden_id;
        texto = texto;
        hecha = false;
        posicion = posicion;
        plan_item_id = none;
        notas = none;
        foto_key = none;
        hecha_por_nombre = none;
        hecha_at = none;
      } in
      tarea ∷ new_tareas orden_id (posicion + 1) textos (tarea ∷ known)

  -- The `data` of `createFresh`, with the defaults of the table.
  abbrev pub new_orden : CreateOrdenDto → ℕ → Db → Orden
  new_orden dto user s = record {
    id = or_default dto.id (env.new_orden_id s);
    created_by_id = some user;
    equipo_id = dto.equipo_id;
    asignado_a_id = dto.asignado_a_id;
    hallazgo_id = dto.hallazgo_id;
    titulo = dto.titulo;
    estado = pendiente;
    prioridad = or_default dto.prioridad media;
    tipo = or_default dto.tipo correctiva;
    origen = or_default dto.origen manual;
    origen_detalle = detalle dto.origen_detalle;
    pauta_milestone = none;
    pauta_cycle = none;
  }

  abbrev pub insert_new : CreateOrdenDto → ℕ → Db → Result OrdenError Orden × Db
  insert_new dto user s =
      let orden = new_orden dto user s in
      insert_orden orden (new_tareas orden.id 0 (or_default dto.tareas []) s.tareas) s

  -- The transaction of an order that is born of a finding.
  abbrev pub take_hallazgo : CreateOrdenDto → ℕ → ℕ → Db → Result OrdenError Orden × Db
  take_hallazgo dto user id = do
    found ← gets (λ s. s.hallazgos id)
    h ← or_throw found hallazgo_not_found
    throw_if (is_zona h.tipo) hallazgo_de_zona
    claim_hallazgo id h
    insert_new dto user

  abbrev pub create_linked : CreateOrdenDto → ℕ → Option ℕ → Db → Result OrdenError Orden × Db
  create_linked dto user none = insert_new dto user
  create_linked dto user (some id) = atomic (take_hallazgo dto user id)

  -- `createFresh`
  unfoldable pub create_fresh : CreateOrdenDto → ℕ → Db → Result OrdenError Orden × Db
  create_fresh dto user = create_linked dto user dto.hallazgo_id

  -- `create`: `meanwhile` is what other requests commit after the lookup of the id.
  unfoldable pub create_orden : CreateOrdenDto → ℕ → (Db → Db) → Db → Result OrdenError Orden × Db
  create_orden dto user meanwhile =
      create_or_return find_existing (create_fresh dto user) dto.id user id_conflict meanwhile

  abbrev pub past_orden : CreateMantencionHistoricaDto → ℕ → FleetEquipment → Db → Orden
  past_orden dto user e s = record {
    id = env.new_orden_id s;
    created_by_id = some user;
    equipo_id = e.internal_code;
    asignado_a_id = none;
    hallazgo_id = none;
    titulo = dto.titulo;
    estado = completada;
    prioridad = media;
    tipo = or_default dto.tipo preventiva;
    origen = manual;
    origen_detalle = some (mantencion_anterior (nonempty dto.observaciones));
    pauta_milestone = none;
    pauta_cycle = none;
  }

  abbrev pub past_tarea : CreateMantencionHistoricaDto → FleetEquipment → ℕ → List Tarea → Tarea
  past_tarea dto e orden_id known = record {
    id = env.new_tarea_id known;
    orden_id = orden_id;
    texto = dto.titulo;
    hecha = true;
    posicion = 0;
    plan_item_id = none;
    notas = reading_note dto.lectura e.control_unit;
    foto_key = none;
    hecha_por_nombre = words dto.realizada_por;
    hecha_at = some (noon_of dto.fecha);
  }

  abbrev pub insert_past :
      CreateMantencionHistoricaDto → ℕ → FleetEquipment → Db → Result OrdenError Orden × Db
  insert_past dto user e s =
      let orden = past_orden dto user e s in
      insert_orden orden (past_tarea dto e orden.id s.tareas ∷ []) s

  -- `createHistorica`
  unfoldable pub create_historica :
      CreateMantencionHistoricaDto → ℕ → Db → Result OrdenError Orden × Db
  create_historica dto user = do
    throw_if (ltb env.today dto.fecha) fecha_futura
    found ← gets (λ s.
        or_else (find (λ e. e.id == dto.equipo_id) s.fleet)
          (find (λ e. e.internal_code == dto.equipo_id) s.fleet))
    e ← or_throw found equipo_not_found
    insert_past dto user e
