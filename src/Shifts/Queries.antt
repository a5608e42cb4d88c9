-- ===== src/Shifts/Queries.antt =====
-- The conditions and queries that the operations of `ShiftsService` share
-- (src/shifts/shifts.service.ts), with src/shifts/adblue.ts,
-- src/mantenimiento/daily-checklists/checklist-gate.ts, `assertActive` of
-- src/operators/operators.service.ts, and the unique indexes of the table of cards.
use smi_backend.Prelude.{
  ℕ, Bool, true, false, not, ◌&&◌, ◌||◌, Option, none, some, List, ◌∷◌, map, ◌==◌, ltb,
  if◌then◌else◌, is_some, opt_eq, find, any,
}
use smi_backend.Prelude.Int.{ℤ}
use smi_backend.Prelude.Result.{Result, ok, err}
use smi_backend.Equipment.Counter.{
  Equipment, Table, CounterError, warn, reconcile_equipment_counter,
}
use smi_backend.Auth.Roles.{admin, session_has_role}
use smi_backend.Shifts.Calendar.{ShiftType, diurno, nocturno, BusinessClock}
use smi_backend.Shifts.Types.{
  EquipmentStatus, operational, in_workshop, out_of_service, EquipmentClass, light, heavy,
  ChecklistStatus, submitted, accepted, rejected, Operator, Shift, Card, Db, Session, ShiftError,
  operator_not_found, operator_inactive, checklist_not_accepted, reading_below,
  ad_blue_without_liters, liters_without_ad_blue,
}

-- What is not in the tables: the clock and its time zone, the parsing of dates, the header with the
-- device's time, the ids that the database makes, and the storage's `claimTmp`, which copies an
-- upload of a user to a key of its own unless it has expired.
pub record Env : Type 0 where
  pub clock : BusinessClock
  pub parse : List ℕ → Option ℤ
  pub now : ℤ
  pub client_time : Option (List ℕ)
  pub new_shift_id : List Shift → ℕ
  pub claim_tmp : ℕ → ℕ → List ℕ → Option ℕ

abbrev pub is_operational : EquipmentStatus → Bool
is_operational operational = true
is_operational in_workshop = false
is_operational out_of_service = false

abbrev pub is_light : EquipmentClass → Bool
is_light light = true
is_light heavy = false

-- `ADBLUE_MAX_LITERS`, in hundredths.
abbrev pub adblue_max_liters : ℕ
adblue_max_liters = 100000

-- `adBlueError`
unfoldable pub ad_blue_error : Bool → Option ℕ → Option ShiftError
ad_blue_error true none = some ad_blue_without_liters
ad_blue_error true (some liters) =
    if (liters == 0) || ltb adblue_max_liters liters then some ad_blue_without_liters else none
ad_blue_error false none = none
ad_blue_error false (some liters) = some liters_without_ad_blue

-- `assertActive`
abbrev pub assert_active : Option Operator → Result ShiftError Operator
assert_active none = err operator_not_found
assert_active (some o) = if o.is_active then ok o else err operator_inactive

-- `assertChecklistNotPending`
abbrev pub assert_checklist_not_pending : Option ChecklistStatus → Result ShiftError (Unit {0})
assert_checklist_not_pending none = ok tt
assert_checklist_not_pending (some accepted) = ok tt
assert_checklist_not_pending (some submitted) = err checklist_not_accepted
assert_checklist_not_pending (some rejected) = err checklist_not_accepted

-- `valorFinal: null`
abbrev pub is_open : Card → Bool
is_open c = not (is_some c.valor_final)

abbrev pub has_id : ℕ → Card → Bool
has_id id c = c.id == id

-- `findUnique({ where: { id } })`
unfoldable pub find_card : ℕ → List Card → Option Card
find_card id cards = find (has_id id) cards

-- `{ equipoId, valorFinal: null }`
abbrev pub is_open_on : ℕ → Card → Bool
is_open_on equipo_id c = (c.equipo_id == equipo_id) && is_open c

-- The owner and the equipment of a card are those of a request.
abbrev pub is_same_request : ℕ → ℕ → Card → Bool
is_same_request user equipo c = opt_eq c.supervisor_id (some user) && (c.equipo_id == equipo)

-- Two keys of a unique index: missing ones differ.
abbrev pub same_key : Option ℕ → Option ℕ → Bool
same_key none b = false
same_key (some a) b = opt_eq (some a) b

-- Two rows that the unique indexes do not allow together: one id, one equipment in use, or one id of
-- the close.
abbrev pub collides : Card → Card → Bool
collides c d =
    (c.id == d.id)
    || (((c.equipo_id == d.equipo_id) && (is_open c && is_open d))
        || same_key c.close_client_id d.close_client_id)

-- `registroHorometro.create`
abbrev pub insert_card : Card → Db → Option Db
insert_card c s = if any (collides c) s.cards then none else some (record s { cards = c ∷ s.cards })

-- `registroHorometro.update` of one row.
abbrev pub update_row : ℕ → (Card → Card) → Card → Card
update_row id f c = if c.id == id then f c else c

abbrev pub update_card : ℕ → (Card → Card) → Db → Db
update_card id f s = record s { cards = map (update_row id f) s.cards }

abbrev pub is_type : ShiftType → ShiftType → Bool
is_type diurno diurno = true
is_type diurno nocturno = false
is_type nocturno diurno = false
is_type nocturno nocturno = true

-- The natural key of a shift.
abbrev pub has_key : ℕ → ℕ → ShiftType → Shift → Bool
has_key supervisor date type s =
    (s.supervisor_id == supervisor) && ((s.date == date) && is_type s.type type)

-- `upsertShift`, whose upsert the database takes in one step: the id of the shift.
abbrev pub upserted : Env → ℕ → ℕ → ShiftType → Option Shift → Db → Result ShiftError ℕ × Db
upserted env supervisor date type (some shift) s = (ok shift.id, s)
upserted env supervisor date type none s = (
  ok (env.new_shift_id s.shifts),
  record s {
    shifts =
        record {
          id = env.new_shift_id s.shifts;
          supervisor_id = supervisor;
          date = date;
          type = type;
        }
        ∷ s.shifts;
  },
)

unfoldable pub upsert_shift : Env → ℕ → ℕ → ShiftType → Db → Result ShiftError ℕ × Db
upsert_shift env supervisor date type s =
    upserted env supervisor date type (find (has_key supervisor date type) s.shifts) s

-- The call of `reconcileEquipmentCounter` in mode `warn`, with its exception passed on.
abbrev pub reconciled : Result CounterError Bool × Table → Db → Result ShiftError Bool × Db
reconciled (ok below, table) s = (ok below, record s { counters = table })
reconciled (err e, table) s = (err reading_below, s)

unfoldable pub reconcile : ℕ → Equipment → ℕ → Db → Result ShiftError Bool × Db
reconcile id equipo value s =
    reconciled (reconcile_equipment_counter id equipo value warn s.counters) s

-- The session is the owner of a card or an administrator.
abbrev pub is_owner_or_admin : Session → Card → Bool
is_owner_or_admin session c =
    opt_eq c.supervisor_id (some session.user_id) || session_has_role session.role admin
