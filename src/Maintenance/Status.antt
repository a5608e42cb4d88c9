-- ===== src/Maintenance/Status.antt =====
-- src/mantenimiento/maintenance-plans/maintenance-plan-status.ts: where an equipment is in its plan.
-- A milestone is a whole number of hours or km; counters and what is derived from them are numbers
-- of hundredths. `NaN` and `undefined` are none. The source computes with doubles and rounds to tenths:
-- for a number that is not halfway between two tenths, the error of the doubles is too small to change
-- the tenth. Which way a number halfway between goes depends on its double, so it is a parameter.
pub mod Laws
use smi_backend.Prelude.{
  not, ℕ, zero, suc, ◌+◌, ◌-◌, ◌*◌, ◌/◌, ◌%◌, ◌≤◌, ◌<◌, ◌≡◌, refl, String, Bool, true, false, ◌&&◌,
  inl, inr, Option, none, some, List, [], ◌∷◌, arith, ◌==◌, leb, ltb, if◌then◌else◌, find, filter,
  includes, Bool-cases, Option-cases,
}
use smi_backend.Prelude.Int.{ℤ, pos, negsuc}

-- `PlanItemForStatus`, with the fields that the rules read.
pub record PlanItem : Type 0 where
  pub id : ℕ
  pub milestones : List ℕ

pub record Plan : Type 0 where
  pub milestones : List ℕ
  pub initial_milestone : Option ℕ
  pub items : List PlanItem

pub record NextMaintenance : Type 0 where
  pub milestone : Option ℕ
  pub first_time_only : Bool
  pub remaining : Option ℕ
  pub due_at : Option ℕ
  pub items : List PlanItem

pub record MaintenanceStatus : Type 0 where
  pub counter : Option ℤ
  pub cycle_length : Option ℕ
  pub position_in_cycle : Option ℕ
  pub next : Option NextMaintenance

abbrev pub hundredths : ℕ → ℕ
hundredths hours = 100 * hours

-- `decima`: a tenth is ten hundredths, and `ties` says which of the numbers halfway between two tenths
-- are rounded up.
abbrev pub decima : (ℕ → Bool) → ℕ → ℕ
decima ties n = if n % 10 == 5 && not (ties n) then n / 10 * 10 else (n + 5) / 10 * 10

-- `[...milestones].sort((a, b) => a - b)`
abbrev pub insert_sorted : ℕ → List ℕ → List ℕ
insert_sorted m [] = m ∷ []
insert_sorted m (n ∷ ns) = let rest = insert_sorted m ns in if leb m n then m ∷ n ∷ ns else n ∷ rest

abbrev pub sort : List ℕ → List ℕ
sort [] = []
sort (m ∷ ms) = insert_sorted m (sort ms)

-- `milestones[milestones.length - 1]`
abbrev pub last : List ℕ → Option ℕ
last [] = none
last (m ∷ []) = some m
last (m ∷ n ∷ ns) = last (n ∷ ns)

-- `itemsDe`
abbrev pub items_of : List PlanItem → Option ℕ → List PlanItem
items_of items none = []
items_of items (some m) = filter (λ (i : PlanItem). includes i.milestones m) items

-- `counter % cycleLength`, which is NaN for 0.
abbrev pub position : (ℕ → Bool) → ℕ → ℕ → Option ℕ
position ties counter zero = none
position ties counter (suc l) = some (decima ties (counter % hundredths (suc l)))

abbrev pub empty_status : Option ℤ → Option ℕ → MaintenanceStatus
empty_status counter cycle_length = record {
  counter = counter;
  cycle_length = cycle_length;
  position_in_cycle = none;
  next = none;
}

abbrev pub first_service :
    (ℕ → Bool) → ℕ → ℕ → List PlanItem → MaintenanceStatus → MaintenanceStatus
first_service ties inicial counter items vacio = record vacio {
  position_in_cycle = some (decima ties counter);
  next = some (record {
    milestone = some inicial;
    first_time_only = true;
    remaining = some (decima ties (hundredths inicial - counter));
    due_at = some (hundredths inicial);
    items = items_of items (some inicial);
  });
}

-- Exactly at the end of a cycle.
abbrev pub cycle_end : (ℕ → Bool) → ℕ → ℕ → List PlanItem → MaintenanceStatus → MaintenanceStatus
cycle_end ties cycle_length counter items vacio = record vacio {
  position_in_cycle = some 0;
  next = some (record {
    milestone = some cycle_length;
    first_time_only = false;
    remaining = some 0;
    due_at = some (decima ties counter);
    items = items_of items (some cycle_length);
  });
}

-- `milestones.find((m) => m > posicion)`
abbrev pub milestone_after : List ℕ → Option ℕ → Option ℕ
milestone_after milestones none = none
milestone_after milestones (some p) = find (λ m. ltb p (hundredths m)) milestones

abbrev pub remaining_to : (ℕ → Bool) → Option ℕ → Option ℕ → Option ℕ
remaining_to ties (some m) (some p) = some (decima ties (hundredths m - p))
remaining_to ties _ _ = none

abbrev pub due_after : (ℕ → Bool) → ℕ → Option ℕ → Option ℕ
due_after ties counter none = none
due_after ties counter (some remaining) = some (decima ties (counter + remaining))

abbrev pub in_cycle :
    (ℕ → Bool) → Option ℕ → Option ℕ → ℕ → List PlanItem → MaintenanceStatus → MaintenanceStatus
in_cycle ties hito posicion counter items vacio = record vacio {
  position_in_cycle = posicion;
  next = some (record {
    milestone = hito;
    first_time_only = false;
    remaining = remaining_to ties hito posicion;
    due_at = due_after ties counter (remaining_to ties hito posicion);
    items = items_of items hito;
  });
}

-- `posicion === 0 && counter > 0`
abbrev pub at_cycle_end : Option ℕ → ℕ → Bool
at_cycle_end none counter = false
at_cycle_end (some p) counter = (p == 0) && ltb 0 counter

abbrev pub repeating :
    (ℕ → Bool) → List ℕ → Option ℕ → ℕ → List PlanItem → MaintenanceStatus → MaintenanceStatus
repeating ties milestones none counter items vacio = vacio
repeating ties milestones (some l) counter items vacio =
    if at_cycle_end (position ties counter l) counter
    then cycle_end ties l counter items vacio
    else in_cycle ties (milestone_after milestones (position ties counter l))
        (position ties counter l) counter items vacio

abbrev pub first_or_repeating :
    (ℕ → Bool)
    → List ℕ
    → Option ℕ
    → Option ℕ
    → ℕ
    → List PlanItem
    → MaintenanceStatus
    → MaintenanceStatus
first_or_repeating ties milestones none l counter items vacio =
    repeating ties milestones l counter items vacio
first_or_repeating ties milestones (some inicial) l counter items vacio =
    if ltb counter (hundredths inicial)
    then first_service ties inicial counter items vacio
    else repeating ties milestones l counter items vacio

-- `computeMaintenanceStatus`
unfoldable pub compute_maintenance_status : (ℕ → Bool) → Option Plan → Option ℤ → MaintenanceStatus
compute_maintenance_status ties none counter = empty_status counter none
compute_maintenance_status ties (some plan) (some (pos c)) =
    first_or_repeating ties (sort plan.milestones) plan.initial_milestone
      (last (sort plan.milestones)) c plan.items
      (empty_status (some (pos c)) (last (sort plan.milestones)))
compute_maintenance_status ties (some plan) counter =
    empty_status counter (last (sort plan.milestones))
