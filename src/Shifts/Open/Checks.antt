-- ===== src/Shifts/Open/Checks.antt =====
-- What `openCard` of src/shifts/shifts.service.ts checks before it writes: the request and the
-- equipment before the transaction, and the equipment again inside it.
use smi_backend.Prelude.{ℕ, Bool, true, false, not, ◌&&◌, ◌||◌, Option, none, some, or_else, any}
use smi_backend.Prelude.Int.{ℤ}
use smi_backend.Prelude.Result.{Result, ok, err, ◌>>=◌, ◌>>◌, throw_if, or_throw}
use smi_backend.Auth.Roles.{mantenedor, prevencionista, session_has_role}
use smi_backend.Dates.CaptureTime.{
  ResolvedCaptureTime, DateError, resolve_captured_at, compute_client_clock_skew_ms,
}
use smi_backend.Equipment.Counter.{Equipment}
use smi_backend.Shifts.Calendar.{is_past_shift, is_outside_window}
use smi_backend.Shifts.Types.{
  Operator, Db, Session, OpenShiftCardDto, ShiftError, invalid_capture_time, invalid_shift_date,
  operator_required, only_light_vehicles, equipment_not_found, equipment_not_operational,
  equipment_busy,
}
use smi_backend.Shifts.Queries.{
  Env, is_operational, is_light, assert_active, assert_checklist_not_pending, is_open_on,
}

-- What the request has settled before it writes anything.
pub record Opening : Type 0 where
  pub captured_at : ℤ
  pub past_shift : Bool
  pub client_clock_skew_ms : Option ℤ
  pub operator : Option Operator

abbrev pub capture_time :
    Result DateError ResolvedCaptureTime → Result ShiftError ResolvedCaptureTime
capture_time (ok r) = ok r
capture_time (err e) = err invalid_capture_time

abbrev pub chosen_operator : Option ℕ → Db → Result ShiftError (Option Operator)
chosen_operator none s = ok none
chosen_operator (some id) s = elim (assert_active (s.operators id)) [
  | ok o ↦ ok (some o)
  | err e ↦ err e
]

abbrev pub is_missing : Option Operator → Bool
is_missing none = true
is_missing (some o) = false

module _ (env : Env) (session : Session) (dto : OpenShiftCardDto) where
  -- The session may only use light vehicles.
  abbrev pub only_drives : Bool
  only_drives =
      session_has_role session.role mantenedor || session_has_role session.role prevencionista

  -- The first part of `openCard`, up to the shift: it only reads.
  unfoldable pub prepare : Db → Result ShiftError Opening
  prepare s = do
    captured ← capture_time (resolve_captured_at env.parse (some dto.captured_at) env.now)
    throw_if (is_outside_window env.clock dto.shift_date env.now) invalid_shift_date
    let past = is_past_shift env.clock dto.shift_date dto.shift_type env.now
    let skew =
        or_else (compute_client_clock_skew_ms env.parse env.client_time env.now)
          captured.discarded_skew_ms
    operator ← chosen_operator dto.operator_id s
    _ ← or_throw (s.counters dto.equipo_id) equipment_not_found
    let machine = s.machines dto.equipo_id
    throw_if (only_drives && not (is_light machine.equipment_class)) only_light_vehicles
    throw_if (is_missing operator && not (is_light machine.equipment_class)) operator_required
    throw_if (not past && not (is_operational machine.status)) equipment_not_operational
    assert_checklist_not_pending (s.checklists dto.equipo_id dto.shift_date)
    ok (record {
      captured_at = captured.at;
      past_shift = past;
      client_clock_skew_ms = skew;
      operator = operator;
    })

-- The queries of the transaction where no card has the id: the equipment, if it may be used.
unfoldable pub check_free : OpenShiftCardDto → Bool → Db → Result ShiftError Equipment
check_free dto past s = do
  equipo ← or_throw (s.counters dto.equipo_id) equipment_not_found
  throw_if (not past && not (is_operational (s.machines dto.equipo_id).status))
      equipment_not_operational
  assert_checklist_not_pending (s.checklists dto.equipo_id dto.shift_date)
  throw_if (any (is_open_on dto.equipo_id) s.cards) equipment_busy
  ok equipo
