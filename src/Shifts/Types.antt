-- ===== src/Shifts/Types.antt =====
-- The tables, bodies, sessions and errors of `ShiftsService` (src/shifts/shifts.service.ts and the
-- models RegistroHorometro, Shift, Equipment, Operator, DailyChecklist and RegistroCombustible of
-- prisma/schema.prisma). Ids, storage keys and client ids are only compared, so they are numbers.
-- Readings and litres are numbers of hundredths, on which arithmetic is exact. A text that is trimmed is
-- the list of its code points. Of an error only its code is kept, not its message.
use smi_backend.Prelude.{ℕ, Bool, Option, List, String}
use smi_backend.Prelude.Int.{ℤ}
use smi_backend.Equipment.Counter.{Table}
use smi_backend.Auth.Roles.{SessionRole}
use smi_backend.ChangeLog.{FieldChange, ChangeEntry}
use smi_backend.Shifts.Calendar.{ShiftType}

pub data EquipmentStatus : Type 0 where
  operational in_workshop out_of_service : EquipmentStatus

pub data EquipmentClass : Type 0 where
  light heavy : EquipmentClass

pub data ChecklistStatus : Type 0 where
  submitted accepted rejected : ChecklistStatus

pub record Operator : Type 0 where
  pub id : ℕ
  pub name : String
  pub is_active : Bool

-- The columns of an equipment beside its counters.
pub record Machine : Type 0 where
  pub status : EquipmentStatus
  pub equipment_class : EquipmentClass

pub record Shift : Type 0 where
  pub id : ℕ
  pub supervisor_id : ℕ
  pub date : ℕ
  pub type : ShiftType

-- `RegistroHorometro`
pub record Card : Type 0 where
  pub id : ℕ
  pub equipo_id : ℕ
  pub operador : String
  pub turno : ShiftType
  pub valor_inicial : ℕ
  pub valor_final : Option ℕ
  pub fecha : ℤ
  pub fecha_salida : Option ℤ
  pub shift_id : Option ℕ
  pub supervisor_id : Option ℕ
  pub operator_id : Option ℕ
  pub fuel_liters : Option ℕ
  pub pump_photo_key : Option ℕ
  pub observaciones : Option (List ℕ)
  pub ad_blue : Bool
  pub ad_blue_liters : Option ℕ
  pub close_client_id : Option ℕ
  pub below_previous_reading : Bool
  pub created_at : ℤ
  pub closed_at : Option ℤ
  pub closed_by_id : Option ℕ
  pub closed_by_name : Option (List ℕ)
  pub closed_shift_id : Option ℕ
  pub client_clock_skew_ms : Option ℤ

-- The row of `RegistroCombustible` that is linked to a card.
pub record FuelRecord : Type 0 where
  pub equipo_id : ℕ
  pub litros : ℕ
  pub foto_key : Option ℕ
  pub fecha : ℤ

-- `RecordEditedEvent`, without the texts that name the card.
pub record RecordEditedEvent : Type 0 where
  pub entity_id : ℕ
  pub edited_by : ℕ
  pub changes : List FieldChange

-- The tables, the objects of the storage and the events that were emitted. An equipment exists if it has a row of counters. A
-- fuel record is looked up by the card that it is linked to, which is unique.
pub record Db : Type 0 where
  pub counters : Table
  pub machines : ℕ → Machine
  pub operators : ℕ → Option Operator
  pub checklists : ℕ → ℕ → Option ChecklistStatus
  pub shifts : List Shift
  pub cards : List Card
  pub fuel : ℕ → Option FuelRecord
  pub changes : List ChangeEntry
  pub bucket : List ℕ
  pub emitted : List RecordEditedEvent

-- `UserSession`
pub record Session : Type 0 where
  pub user_id : ℕ
  pub name : Option (List ℕ)
  pub email : List ℕ
  pub role : SessionRole

pub record OpenShiftCardDto : Type 0 where
  pub id : ℕ
  pub equipo_id : ℕ
  pub operator_id : Option ℕ
  pub valor_inicial : ℕ
  pub shift_date : ℕ
  pub shift_type : ShiftType
  pub captured_at : List ℕ

pub record CloseShiftCardDto : Type 0 where
  pub close_client_id : ℕ
  pub valor_final : ℕ
  pub fuel_liters : ℕ
  pub tmp_photo_key : ℕ
  pub observaciones : Option (List ℕ)
  pub ad_blue : Option Bool
  pub ad_blue_liters : Option ℕ
  pub shift_date : Option ℕ
  pub shift_type : Option ShiftType
  pub captured_at : List ℕ
  pub photo_captured_at : Option (List ℕ)

-- A missing field is `undefined`; `some none` is `null`.
pub record UpdateShiftCardDto : Type 0 where
  pub operator_id : Option ℕ
  pub valor_inicial : Option ℕ
  pub valor_final : Option ℕ
  pub fuel_liters : Option ℕ
  pub ad_blue : Option Bool
  pub ad_blue_liters : Option (Option ℕ)
  pub observaciones : Option (Option (List ℕ))

-- The codes of the errors. The two races never leave the service. `null_card` is the failure of
-- reading a field of `null`.
pub data ShiftError : Type 0 where
  invalid_capture_time invalid_shift_date missing_shift nothing_to_correct : ShiftError
  operator_not_found operator_inactive operator_required only_light_vehicles : ShiftError
  equipment_not_found equipment_not_operational checklist_not_accepted equipment_busy : ShiftError
  card_not_found not_owner id_conflict already_closed card_not_closed : ShiftError
  hourmeter_below_initial reading_below tmp_key_expired : ShiftError
  ad_blue_without_liters liters_without_ad_blue : ShiftError
  stale_update : List ℕ → ShiftError
  id_race close_race unique_violation null_card : ShiftError
