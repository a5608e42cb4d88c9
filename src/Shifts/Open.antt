-- ===== src/Shifts/Open.antt =====
-- `openCard` and `resolveOpenRace` of src/shifts/shifts.service.ts. `before` is what other requests
-- commit between the shift of the card and its transaction, `inside` what they commit between the
-- queries of the transaction and its writes.
pub mod Checks
pub mod Keeps
pub mod Retry
use smi_backend.Prelude.{
  ℕ, String, Bool, true, false, not, ◌&&◌, ◌||◌, Option, none, some, or_else, any, if◌then◌else◌,
}
use smi_backend.Prelude.Int.{ℤ}
use smi_backend.Prelude.Result.{Result, ok, err}
use smi_backend.Prelude.Handler.{
  ◌>>=◌, ◌>>◌, pure, throw, gets, modify, reads, throw_if, or_throw, atomic, catch,
}
use smi_backend.Auth.Roles.{mantenedor, prevencionista, session_has_role}
use smi_backend.Dates.CaptureTime.{
  ResolvedCaptureTime, DateError, resolve_captured_at, compute_client_clock_skew_ms,
}
use smi_backend.Equipment.Counter.{Equipment}
use smi_backend.Shifts.Calendar.{is_past_shift, is_outside_window, business_day_instant}
use smi_backend.Shifts.Types.{
  Operator, Card, Db, Session, OpenShiftCardDto, ShiftError, invalid_capture_time,
  invalid_shift_date, operator_required, only_light_vehicles, equipment_not_found,
  equipment_not_operational, equipment_busy, id_conflict, id_race,
}
use smi_backend.Shifts.Open.Checks.{Opening, prepare, check_free}
use smi_backend.Shifts.Queries.{
  Env, is_operational, is_light, assert_active, assert_checklist_not_pending, find_card, is_open_on,
  is_same_request, insert_card, upsert_shift, reconcile,
}

module _ (env : Env) (session : Session) (dto : OpenShiftCardDto) where
  -- The row that is created.
  abbrev pub operator_name : Option Operator → String
  operator_name none = ""
  operator_name (some o) = o.name

  abbrev pub operator_id : Option Operator → Option ℕ
  operator_id none = none
  operator_id (some o) = some o.id

  abbrev pub new_card : Opening → ℕ → Bool → Card
  new_card opening shift below = record {
    id = dto.id;
    equipo_id = dto.equipo_id;
    operador = operator_name opening.operator;
    turno = dto.shift_type;
    valor_inicial = dto.valor_inicial;
    valor_final = none;
    fecha =
        if opening.past_shift
        then business_day_instant dto.shift_date dto.shift_type
        else opening.captured_at;
    fecha_salida = none;
    shift_id = some shift;
    supervisor_id = some session.user_id;
    operator_id = operator_id opening.operator;
    fuel_liters = none;
    pump_photo_key = none;
    observaciones = none;
    ad_blue = false;
    ad_blue_liters = none;
    close_client_id = none;
    below_previous_reading = below;
    created_at = env.now;
    closed_at = none;
    closed_by_id = none;
    closed_by_name = none;
    closed_shift_id = none;
    client_clock_skew_ms = opening.client_clock_skew_ms;
  }

  -- `registroHorometro.create`, whose failure is the marker of a race.
  abbrev pub created : Card → Option Db → Db → Result ShiftError Card × Db
  created c none s = (err id_race, s)
  created c (some s') s = (ok c, s')

  -- The writes of the transaction.
  unfoldable pub open_writes : Opening → ℕ → Equipment → Db → Result ShiftError Card × Db
  open_writes opening shift equipo = do
    below ← reconcile dto.equipo_id equipo dto.valor_inicial
    λ s. created (new_card opening shift below) (insert_card (new_card opening shift below) s) s

  -- A card with the id of the request that is already there.
  abbrev pub answer_existing : Card → Result ShiftError Card
  answer_existing c =
      if is_same_request session.user_id dto.equipo_id c then ok c else err id_conflict

  abbrev pub open_found : Opening → ℕ → (Db → Db) → Option Card → Db → Result ShiftError Card × Db
  open_found opening shift inside (some c) = reads (λ s. answer_existing c)
  open_found opening shift inside none = do
    equipo ← reads (check_free dto opening.past_shift)
    modify inside
    atomic (open_writes opening shift equipo)

  -- The transaction.
  unfoldable pub open_tx : Opening → ℕ → (Db → Db) → Db → Result ShiftError Card × Db
  open_tx opening shift inside s = open_found opening shift inside (find_card dto.id s.cards) s

  -- `resolveOpenRace`
  abbrev pub winner : Option Card → Result ShiftError Card
  winner none = err equipment_busy
  winner (some c) =
      if is_same_request session.user_id dto.equipo_id c then ok c else err equipment_busy

  unfoldable pub resolve_open_race : Db → Result ShiftError Card × Db
  resolve_open_race s = (winner (find_card dto.id s.cards), s)

  abbrev pub on_open_error : ShiftError → Db → Result ShiftError Card × Db
  on_open_error id_race = resolve_open_race
  on_open_error e = throw e

  -- `openCard`
  unfoldable pub open_card : (Db → Db) → (Db → Db) → Db → Result ShiftError Card × Db
  open_card before inside = do
    opening ← reads (prepare env session dto)
    shift ← upsert_shift env session.user_id dto.shift_date dto.shift_type
    modify before
    catch (open_tx opening shift inside) on_open_error
