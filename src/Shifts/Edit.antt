-- ===== src/Shifts/Edit.antt =====
-- `update` of src/shifts/shifts.service.ts with the helpers that it calls. The lock of
-- the row keeps other requests away from it until the transaction ends;
-- `inside` is what other requests commit before the lock.
pub mod Checks
pub mod Keeps
use smi_backend.Prelude.{
  ℕ, String, Bool, false, not, ◌&&◌, ◌||◌, Option, none, some, List, [], ◌∷◌, ◌==◌, ltb,
  if◌then◌else◌, or_default, or_else, is_some, opt_eq,
}
use smi_backend.Prelude.Int.{pos}
use smi_backend.Prelude.Result.{Result, ok, err}
use smi_backend.Prelude.Handler.{◌>>=◌, ◌>>◌, pure, gets, modify, reads, throw_if, or_throw, atomic}
use smi_backend.Concurrency.Expected.{
  Value, null, str, num, boolean, Fields, StaleUpdate, assert_expected, trim,
}
use smi_backend.ChangeLog.{FieldChange, diff_fields}
use smi_backend.Equipment.Counter.{Equipment}
use smi_backend.Shifts.Types.{
  Operator, Card, FuelRecord, RecordEditedEvent, Db, Session, UpdateShiftCardDto, ShiftError,
  nothing_to_correct, card_not_found, not_owner, card_not_closed, hourmeter_below_initial,
  stale_update,
}
use smi_backend.Shifts.Queries.{
  Env, ad_blue_error, assert_active, find_card, update_card, reconcile, is_owner_or_admin,
}
use smi_backend.Shifts.Close.{set_fuel}
use smi_backend.Shifts.Edit.Checks.{
  DatosTarjeta, datos_de_tarjeta, fields_of, card_fields, mezclar_tarjeta, name_or, id_of,
  locked_card, check_merged, check_update,
}

module _ (env : Env) (session : Session) (id : ℕ) (dto : UpdateShiftCardDto) where
  -- The row that is written.
  abbrev pub edited_row : DatosTarjeta → String → Bool → Card → Card
  edited_row d name below c = record c {
    operator_id = d.operator_id;
    operador = name;
    valor_inicial = d.valor_inicial;
    valor_final = d.valor_final;
    fuel_liters = d.fuel_liters;
    ad_blue = d.ad_blue;
    ad_blue_liters = d.ad_blue_liters;
    observaciones = d.observaciones;
    below_previous_reading = below || c.below_previous_reading;
  }

  -- The counter moves forward if the final reading has changed; the answer is whether to mark the row.
  abbrev pub advance_row : Card → ℕ → Option Equipment → Db → Result ShiftError Bool × Db
  advance_row actual final none = pure false
  advance_row actual final (some equipo) = do
    below ← reconcile actual.equipo_id equipo final
    pure (below && not actual.below_previous_reading)

  abbrev pub advance_if_changed : Card → Option ℕ → Db → Result ShiftError Bool × Db
  advance_if_changed actual none = pure false
  advance_if_changed actual (some final) =
      if opt_eq (some final) actual.valor_final
      then pure false
      else do equipo ← gets (λ s. s.counters actual.equipo_id); advance_row actual final equipo

  -- `syncFuelRecord`
  abbrev pub synced : Card → ℕ → Option FuelRecord → Option FuelRecord
  synced card liters (some f) = if ltb 0 liters then some (record f { litros = liters }) else none
  synced card liters none =
      if ltb 0 liters
      then some (record {
        equipo_id = card.equipo_id;
        litros = liters;
        foto_key = card.pump_photo_key;
        fecha = or_default card.fecha_salida (or_default card.closed_at env.now);
      })
      else none

  unfoldable pub sync_fuel_record : Card → ℕ → Db → Db
  sync_fuel_record card liters s = record s {
    fuel = set_fuel card.id (synced card liters (s.fuel card.id)) s.fuel;
  }

  abbrev pub sync_if_changed : Card → ℕ → ℕ → Db → Db
  sync_if_changed card before after s = if before == after then s else sync_fuel_record card after s

  -- The writes of `applyEdit`, where something has changed.
  unfoldable pub write_edit :
      Card → DatosTarjeta → Option Operator → List FieldChange → Db → Result ShiftError Card × Db
  write_edit actual d operador changes = do
    below ← advance_if_changed actual d.valor_final
    modify (update_card id (edited_row d (name_or operador actual.operador) below))
    modify (sync_if_changed actual (or_default actual.fuel_liters 0) (or_default d.fuel_liters 0))
    modify (λ s. record s {
      changes = record { entity_id = id; user_id = session.user_id; changes = changes } ∷ s.changes;
    })
    found ← gets (λ s. find_card id s.cards)
    or_throw found card_not_found

  abbrev pub edited_event : List FieldChange → RecordEditedEvent
  edited_event changes = record { entity_id = id; edited_by = session.user_id; changes = changes }

  abbrev pub write_changes :
      Card
      → DatosTarjeta
      → Option Operator
      → List FieldChange
      → Db
      → Result ShiftError (Card × Option RecordEditedEvent) × Db
  write_changes actual d operador [] = pure (actual, none)
  write_changes actual d operador (c ∷ cs) = do
    card ← write_edit actual d operador (c ∷ cs)
    pure (card, some (edited_event (c ∷ cs)))

  -- `applyEdit`
  unfoldable pub apply_edit :
      Option Operator
      → Option Fields
      → Db
      → Result ShiftError (Card × Option RecordEditedEvent) × Db
  apply_edit before expected = do
    locked ← reads (locked_card session id dto before expected)
    let actual = locked.0
    let antes = datos_de_tarjeta actual
    let despues = mezclar_tarjeta antes dto (id_of locked.1)
    reads (λ _. check_merged despues)
    write_changes actual despues locked.1
        (diff_fields (fields_of antes) (fields_of despues) card_fields)

  abbrev pub emit : Option RecordEditedEvent → Db → Db
  emit none s = s
  emit (some e) s = record s { emitted = e ∷ s.emitted }

  -- `update`
  unfoldable pub update_shift_card : Option Fields → (Db → Db) → Db → Result ShiftError Card × Db
  update_shift_card expected inside = do
    operator ← reads (check_update session id dto)
    modify inside
    edit ← atomic (apply_edit operator expected)
    modify (emit edit.1)
    pure edit.0
