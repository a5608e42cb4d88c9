-- ===== src/Shifts/Tests.antt =====
-- The theorems on shifts at concrete inputs: two supervisors, a loader and a pickup.
use smi_backend.Prelude.{
  ℕ, ◌≡◌, ◌↔◌, ◌≤◌, ◌+◌, ◌*◌, refl, true, false, none, some, [], ◌∷◌, ◌==◌, if◌then◌else◌, length,
  every, arith,
}
use smi_backend.Prelude.Int.{pos, ◌-ℤ◌}
use smi_backend.Prelude.Result.{Result, ok, err}
use smi_backend.Prelude.Handler.{◌>>=◌, atomic, catch, throw_if, throw_where, or_throw}
use smi_backend.Auth.Roles.{one, supervisor, role_text, session_has_role, split}
use smi_backend.Concurrency.Expected.{trim, trim_start, trim_end, is_space}
use smi_backend.Dates.CaptureTime.{
  resolve_captured_at, compute_client_clock_skew_ms, resolve_captured_at_with_fallback,
}
use smi_backend.Equipment.Counter.{hours, Equipment, Advanced, reconcile_equipment_counter}
use smi_backend.Shifts.Calendar.{
  diurno, nocturno, BusinessClock, is_past_shift, is_past_shift-night, is_outside_window,
}
use smi_backend.Shifts.Types.{
  operational, light, heavy, Card, Db, Session, OpenShiftCardDto, CloseShiftCardDto,
  UpdateShiftCardDto, ShiftError, not_owner,
}
use smi_backend.Shifts.Queries.{Env, find_card, upsert_shift, reconcile}
use smi_backend.Shifts.Open.{open_card, open_tx, open_writes}
use smi_backend.Shifts.Open.Checks.{Opening, prepare, check_free}
use smi_backend.Shifts.Open.Retry.{open_card-retry}
use smi_backend.Shifts.Close.{close_card, close_open, close_tx, closed_row}
use smi_backend.Shifts.Close.Checks.{check_close}
use smi_backend.Shifts.Close.Retry.{close_card-retry}
use smi_backend.Shifts.Invariant.{are_distinct, IsValid}
use smi_backend.Shifts.Interleavings.{
  Requests, open_request, close_request, update_request, done, and_then, serve_all,
  serve_all-IsValid,
}
use smi_backend.Shifts.Counters.{serve_all-Advanced}
use smi_backend.Shifts.Edit.{update_shift_card, apply_edit, write_edit}
use smi_backend.Shifts.Edit.Checks.{
  check_update, find_owned_card, active_operator, locked_card, kept_operator, mezclar_tarjeta,
  check_merged,
}
use smi_backend.ChangeLog.{diff_fields}
use smi_backend.Shifts.Queries.{ad_blue_error}
use smi_backend.Concurrency.Expected.{assert_expected, normalize_comparable}
use smi_backend.Shifts.Interleavings.{serve}
use smi_backend.Shifts.Close.{resolve_close_race}
use smi_backend.Shifts.Readings.{is_ordered}
use smi_backend.Shifts.Readings.Requests.{InOrder, closes_alone, serve_all-InOrder}
use smi_backend.Shifts.Mine.{is_mine, check_close-not_owner_iff}

-- Day 100 at ten in the morning.
abbrev morning : BusinessClock
morning = record { day_of = λ at. 100; hour_of = λ at. 10 }

abbrev env : Env
env = record {
  clock = morning;
  parse = λ text. some (pos 8640000000);
  now = pos 8640000000;
  client_time = none;
  new_shift_id = λ shifts. length shifts;
  claim_tmp = λ key user bucket. some (key + 500);
}

abbrev counter : ℕ → Equipment
counter reading = record {
  control_unit = hours;
  current_hourmeter = some reading;
  current_mileage = none;
}

-- Equipment 1 is a loader, and equipment 2 a pickup.
abbrev empty : Db
empty = record {
  counters = λ i. if i == 1 then some (counter 100) else if i == 2 then some (counter 50) else none;
  machines =
      λ i. record { status = operational; equipment_class = if i == 2 then light else heavy };
  operators = λ i. some (record { id = i; name = "Ana"; is_active = true });
  checklists = λ i day. none;
  shifts = [];
  cards = [];
  fuel = λ i. none;
  changes = [];
  bucket = [];
  emitted = [];
}

abbrev session : ℕ → Session
session user = record {
  user_id = user;
  name = none;
  email = 64 ∷ [];
  role = one (role_text supervisor);
}

abbrev opening_dto : ℕ → OpenShiftCardDto
opening_dto id = record {
  id = id;
  equipo_id = 1;
  operator_id = some 4;
  valor_inicial = 120;
  shift_date = 100;
  shift_type = diurno;
  captured_at = 49 ∷ [];
}

abbrev closing_dto : CloseShiftCardDto
closing_dto = record {
  close_client_id = 77;
  valor_final = 130;
  fuel_liters = 40;
  tmp_photo_key = 3;
  observaciones = none;
  ad_blue = none;
  ad_blue_liters = none;
  shift_date = none;
  shift_type = none;
  captured_at = 49 ∷ [];
  photo_captured_at = none;
}

is_past_shift-night_example :
    (is_past_shift morning 99 nocturno (pos 0) ≡ true) ↔ ((99 + 1) * 24 + 8 ≤ 100 * 24 + 10)
is_past_shift-night_example = is_past_shift-night morning 99 (pos 0) (omega arith)

empty-IsValid : IsValid empty
unfolding are_distinct
empty-IsValid = record { distinct = refl; cards_ok = refl; fuel_owned = λ id h. refl }

-- Two supervisors open the loader at the same time, and the first one closes it.
abbrev requests : Requests
requests =
    and_then
      (open_request env (session 8) (opening_dto 5) done
        (and_then (open_request env (session 9) (opening_dto 6) done done) done))
      (and_then (close_request env (session 9) 6 closing_dto done) done)

serve_all-IsValid_example : IsValid (serve_all requests empty)
serve_all-IsValid_example = serve_all-IsValid requests empty empty-IsValid

serve_all-Advanced_example : Advanced (counter 100) ((serve_all requests empty).counters 1)
serve_all-Advanced_example = serve_all-Advanced requests empty 1 (counter 100) refl

-- The card and the tables after the opening of the loader, and after its close.
abbrev blank : Card
blank = record {
  id = 0;
  equipo_id = 0;
  operador = "";
  turno = diurno;
  valor_inicial = 0;
  valor_final = none;
  fecha = pos 0;
  fecha_salida = none;
  shift_id = none;
  supervisor_id = none;
  operator_id = none;
  fuel_liters = none;
  pump_photo_key = none;
  observaciones = none;
  ad_blue = false;
  ad_blue_liters = none;
  close_client_id = none;
  below_previous_reading = false;
  created_at = pos 0;
  closed_at = none;
  closed_by_id = none;
  closed_by_name = none;
  closed_shift_id = none;
  client_clock_skew_ms = none;
}

abbrev answer : Result ShiftError Card → Card
answer (ok c) = c
answer (err e) = blank

abbrev opened : Result ShiftError Card × Db
opened = open_card env (session 8) (opening_dto 5) (λ t. t) (λ t. t) empty

abbrev closed : Result ShiftError Card × Db
closed = close_card env (session 8) 5 closing_dto (λ t. t) opened.1

abbrev opening_again : Opening
opening_again = record {
  captured_at = pos 8640000000;
  past_shift = false;
  client_clock_skew_ms = none;
  operator = some (record { id = 4; name = "Ana"; is_active = true });
}

open_card-retry_example :
    open_card env (session 8) (opening_dto 5) (λ t. t) (λ t. t) opened.1
    ≡ (ok (answer opened.0), (upsert_shift env 8 100 diurno opened.1).1)
unfolding open_card prepare upsert_shift open_tx check_free open_writes reconcile
    reconcile_equipment_counter find_card is_past_shift is_outside_window resolve_captured_at
    compute_client_clock_skew_ms session_has_role split trim trim_start trim_end is_space ◌-ℤ◌ ◌>>=◌
    atomic catch
open_card-retry_example =
    open_card-retry env env (session 8) (opening_dto 5) (λ t. t) (λ t. t) (λ t. t) empty opened.1
      (answer opened.0) opening_again refl refl

close_card-retry_example :
    close_card env (session 8) 5 closing_dto (λ t. t) closed.1 ≡ (ok (answer closed.0), closed.1)
unfolding open_card prepare upsert_shift open_tx check_free open_writes reconcile
    reconcile_equipment_counter find_card is_past_shift is_outside_window resolve_captured_at
    compute_client_clock_skew_ms session_has_role split trim trim_start trim_end is_space ◌-ℤ◌ ◌>>=◌
    atomic catch close_card check_close close_open close_tx closed_row throw_where throw_if or_throw
    resolve_captured_at_with_fallback
close_card-retry_example =
    close_card-retry env env (session 8) 5 closing_dto (λ t. t) (λ t. t) opened.1 closed.1
      (answer closed.0) refl refl refl

check_close-not_owner_iff_example :
    (check_close (session 9) 5 closing_dto opened.1 ≡ err not_owner)
    ↔ (is_mine (session 9) (pos 0) opened.1 (answer opened.0) ≡ false)
unfolding open_card prepare upsert_shift open_tx check_free open_writes reconcile
    reconcile_equipment_counter find_card is_past_shift is_outside_window resolve_captured_at
    compute_client_clock_skew_ms session_has_role split trim trim_start trim_end is_space ◌-ℤ◌ ◌>>=◌
    atomic catch close_card check_close close_open close_tx closed_row throw_where throw_if or_throw
    resolve_captured_at_with_fallback
check_close-not_owner_iff_example =
    check_close-not_owner_iff (session 9) (pos 0) 5 closing_dto opened.1 (answer opened.0) refl refl

serve_all-InOrder_example : InOrder (serve_all requests empty)
unfolding closes_alone
serve_all-InOrder_example = serve_all-InOrder requests empty refl empty-IsValid refl

-- The initial reading is corrected between the check of a close and its transaction: the close leaves
-- a final reading below the initial one.
abbrev raise_dto : UpdateShiftCardDto
raise_dto = record {
  operator_id = none;
  valor_inicial = some 140;
  valor_final = none;
  fuel_liters = none;
  ad_blue = none;
  ad_blue_liters = none;
  observaciones = none;
}

abbrev overtaken : Requests
overtaken =
    and_then
      (close_request env (session 8) 5 closing_dto
        (and_then (update_request env (session 8) 5 raise_dto none done) done))
      done

overtaken_close : every is_ordered (serve_all overtaken opened.1).cards ≡ false
unfolding open_card prepare upsert_shift open_tx check_free open_writes reconcile
    reconcile_equipment_counter find_card is_past_shift is_outside_window resolve_captured_at
    compute_client_clock_skew_ms session_has_role split trim trim_start trim_end is_space ◌-ℤ◌ ◌>>=◌
    atomic catch close_card check_close close_open close_tx closed_row throw_where throw_if or_throw
    resolve_captured_at_with_fallback update_shift_card check_update find_owned_card active_operator
    apply_edit locked_card kept_operator mezclar_tarjeta check_merged write_edit diff_fields serve
    resolve_close_race assert_expected ad_blue_error normalize_comparable
overtaken_close = refl
