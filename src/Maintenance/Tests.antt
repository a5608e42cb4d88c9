-- ===== src/Maintenance/Tests.antt =====
-- The theorems on maintenance plans and checklists at concrete plans.
use smi_backend.Prelude.{
  Bool, ℕ, ◌≤◌, ◌<◌, ◌%◌, ◌*◌, ◌-◌, ◌≡◌, ◌↔◌, refl, true, false, none, some, List, [], ◌∷◌, arith,
  ◌==◌, if◌then◌else◌,
}
use smi_backend.Prelude.Int.{pos}
use smi_backend.Maintenance.Status.{Plan, hundredths, sort, compute_maintenance_status}
use smi_backend.Maintenance.Status.Laws.{
  nowhere, due_in, FirstPast, compute_maintenance_status-nowhere, compute_maintenance_status-first,
}
use smi_backend.Maintenance.Cycle.{CycleParams, cycle_columns, current_cycle}
use smi_backend.Maintenance.Cycle.Laws.{InOrder, cycle_columns-InOrder, current_cycle-bounds}
use smi_backend.Maintenance.Forecast.{UsageRate, forecast_maintenance}
use smi_backend.Maintenance.Forecast.Laws.{Estimated, forecast_maintenance-Estimated}
use smi_backend.Maintenance.Checklist.{RuleItem, RuleEntry, checked, checklist_problems}
use smi_backend.Maintenance.Checklist.Sending.{CanSend, checklist_problems-CanSend}

abbrev plan : Plan
plan = record { milestones = 250 ∷ 2000 ∷ 500 ∷ []; initial_milestone = none; items = [] }

abbrev all_up : ℕ → Bool
all_up n = true

-- A counter of 1,999.97 with a cycle of 2,000.
compute_maintenance_status-nowhere_example :
    (compute_maintenance_status all_up (some plan) (some (pos 199997))).next ≡ some nowhere
compute_maintenance_status-nowhere_example =
    compute_maintenance_status-nowhere all_up plan 1999 199997 refl refl (omega arith)

-- A counter of 2,250.5.
compute_maintenance_status-first_example :
    (m : ℕ) × ((compute_maintenance_status all_up (some plan) (some (pos 225050))).next
      ≡ some (due_in all_up plan 1999 225050 m))
    × FirstPast (225050 % hundredths 2000) m (sort plan.milestones)
compute_maintenance_status-first_example =
    compute_maintenance_status-first all_up plan 1999 225050 refl refl refl (omega arith)

abbrev params : CycleParams
params = record {
  milestones = 250 ∷ 500 ∷ [];
  initial_milestone = some 50;
  items = record { id = 1; milestones = 250 ∷ 500 ∷ [] } ∷ [];
  records = record { plan_item_id = some 1; milestone = 250 } ∷ [];
  cycle = 1;
  counter = some (pos 30000);
  baseline_counter = none;
}

cycle_columns-InOrder_example : InOrder (cycle_columns params)
cycle_columns-InOrder_example = cycle_columns-InOrder params

current_cycle-bounds_example :
    (hundredths 2000 * (current_cycle (some (pos 400000)) 2000 - 1) < 400000)
    × (400000 ≤ hundredths 2000 * current_cycle (some (pos 400000)) 2000)
    × (1 ≤ current_cycle (some (pos 400000)) 2000)
current_cycle-bounds_example = current_cycle-bounds 400000 2000 (omega arith) (omega arith)

abbrev catalog : List RuleItem
catalog =
    record { id = 1; name = "brakes"; requires_photo = true; requires_temperature = true }
    ∷ record { id = 2; name = "lights"; requires_photo = false; requires_temperature = false }
    ∷ []

abbrev entry : ℕ → RuleEntry
entry id = record {
  item_id = id;
  status = checked;
  description = none;
  temperature = some (pos 40);
  photo_count = 0;
  supply_count = 0;
}

checklist_problems-CanSend_example :
    (checklist_problems catalog (entry 2 ∷ entry 1 ∷ []) ≡ [])
    ↔ CanSend catalog (entry 2 ∷ entry 1 ∷ [])
checklist_problems-CanSend_example = checklist_problems-CanSend catalog (entry 2 ∷ entry 1 ∷ [])

abbrev rate : UsageRate
rate = record { used = 10; days = 2; span_days = 14 }

-- No use on Sundays.
abbrev profile : ℕ → ℕ
profile day = if day == 0 then 0 else 8

forecast_maintenance-Estimated_example :
    (s : ℕ) × ((forecast_maintenance 100 (some rate) (some profile) 3).suggested_date ≡ some s)
    × Estimated profile 3 s 20 (forecast_maintenance 100 (some rate) (some profile) 3)
forecast_maintenance-Estimated_example =
    forecast_maintenance-Estimated 100 3 20 rate profile (omega arith) (omega arith) (omega arith)
