-- ===== src/Shifts/Readings.antt =====
-- The readings of a card, the initial one and the final one.
pub mod Close
pub mod Edit
pub mod Requests
use smi_backend.Prelude.{
  ℕ, ◌≡◌, refl, Bool, true, false, not, ◌&&◌, ◌||◌, Option, none, some, List, [], ◌∷◌, arith, ltb,
  opt_eq, ◌==◌, any, every, map, find, if◌then◌else◌, Bool-cases, inl, inr, String, ap, subst, ◌∙◌,
}
use smi_backend.Prelude.Result
use smi_backend.Prelude.Result.{Result, ok, err, >>=-eq-ok, throw_if-eq-ok, or_throw-eq-ok}
use smi_backend.Prelude.Handler.{
  Keeps, Ensures, Leaves, atomic, ◌>>=◌, Keeps-bind, Keeps-pure, Keeps-gets, Keeps-modify,
  Keeps-reads, Keeps-atomic, Keeps-or_throw, Keeps-transaction, Ensures-bind, Ensures-Keeps,
  Ensures-modify, Ensures-reads, Ensures-throw_where, Leaves-bind, Leaves-caught, OnOk, continued,
}
use smi_backend.Concurrency.Expected.{Fields}
use smi_backend.ChangeLog.{FieldChange, diff_fields}
use smi_backend.Equipment.Counter.{
  Equipment, Table, CounterError, reconcile_equipment_counter, warn,
}
use smi_backend.Shifts.Calendar.{ShiftType}
use smi_backend.Shifts.Types.{
  Shift, Operator, Card, FuelRecord, Db, Session, OpenShiftCardDto, CloseShiftCardDto,
  UpdateShiftCardDto, ShiftError, hourmeter_below_initial, card_not_found, not_owner,
}
use smi_backend.Shifts.Queries.{
  Env, collides, has_id, is_open, find_card, insert_card, update_row, upserted, upsert_shift,
  has_key, reconcile, reconciled,
}
use smi_backend.Shifts.Open.Checks.{Opening}
use smi_backend.Shifts.Open.{new_card, created, open_writes}
use smi_backend.Shifts.Close.Checks.{
  Closing, replay, may_close, may_close_card, check_close, answer_open, answer_closed,
}
use smi_backend.Shifts.Close.{
  Settled, closed_row, close_tx, advance_to_final, record_fuel, insert_fuel, set_below, close_open,
  close_checked, close_card, discard,
}
use smi_backend.Shifts.Close.Steps.{settle_close-Keeps, on_close_error-Keeps}
use smi_backend.Shifts.Edit.Checks.{
  DatosTarjeta, datos_de_tarjeta, mezclar_tarjeta, id_of, fields_of, card_fields, is_below_initial,
  check_merged, locked_card, name_or,
}
use smi_backend.Shifts.Edit.{
  edited_row, advance_row, advance_if_changed, sync_fuel_record, sync_if_changed, write_edit,
  write_changes, apply_edit,
}
use smi_backend.Shifts.Invariant.{
  every-map, every_mapped, every-any_not, found_only, IsValid, IsValid-tables, upsert_shift-Keeps,
}

abbrev pub is_ordered : Card → Bool
is_ordered c = not (is_below_initial c.valor_final c.valor_inicial)

-- No card has a final reading below its initial one.
abbrev pub HasOrdered : Db → Type 0
HasOrdered s = every is_ordered s.cards ≡ true

counted :
    (s : Db) (r : Result CounterError Bool × Table) → HasOrdered s → HasOrdered (reconciled r s).1
counted s (ok below, table) h = h
counted s (err e, table) h = h

pub reconcile-Ordered :
    (id : ℕ) (equipo : Equipment) (value : ℕ) → Keeps HasOrdered (reconcile id equipo value)
unfolding reconcile
reconcile-Ordered id equipo value = record {
  held = λ s h. counted s (reconcile_equipment_counter id equipo value warn s.counters) h;
}

pub shifts-Ordered :
    (env : Env) (user date : ℕ) (type : ShiftType)
    → Keeps HasOrdered (upsert_shift env user date type)
unfolding upsert_shift
shifts-Ordered env user date type = record {
  held = λ s h. stays s (find (has_key user date type) s.shifts) h;
}
  where
    stays :
        (s : Db) (o : Option Shift) → HasOrdered s → HasOrdered (upserted env user date type o s).1
    stays s none h = h
    stays s (some shift) h = h

pub open_writes-Ordered :
    (env : Env) (session : Session) (dto : OpenShiftCardDto) (opening : Opening) (shift : ℕ)
    (equipo : Equipment)
    → Keeps HasOrdered (atomic (open_writes env session dto opening shift equipo))
unfolding open_writes
open_writes-Ordered env session dto opening shift equipo = Keeps-atomic (
    Keeps-bind (reconcile-Ordered dto.equipo_id equipo dto.valor_inicial)
      (λ below. record { held = λ s h. inserted s below h }))
  where
    inserted :
        (s : Db) (below : Bool)
        → HasOrdered s
        → HasOrdered
            (created env session dto
              (new_card env session dto opening shift below)
              (insert_card (new_card env session dto opening shift below) s)
              s).1
    inserted s below h =
        elim (Bool-cases (any (collides (new_card env session dto opening shift below)) s.cards)) [
          | inl race ↦ rw race h
          | inr free ↦ rw free h
        ]
