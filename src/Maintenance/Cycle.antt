-- ===== src/Maintenance/Cycle.antt =====
-- src/mantenimiento/maintenance-plans/maintenance-cycle.ts: what is done of a plan in each cycle. As
-- for the plan's status, milestones are whole numbers of hours or km and counters are numbers of
-- hundredths.
pub mod Laws
use smi_backend.Prelude.{
  ℕ, zero, suc, ◌%◌, ◌+◌, ◌-◌, ◌*◌, ◌/◌, ◌≤◌, ◌<◌, ◌≡◌, ◌⊎◌, refl, inl, inr, Bool, true, false, not,
  ◌&&◌, ◌||◌, Option, none, some, List, [], ◌∷◌, ◌++◌, arith, map, ◌==◌, leb, ltb, if◌then◌else◌,
  every, any, filter, includes, length, or_default, opt_eq, Bool-cases, All,
}
use smi_backend.Prelude.Int.{ℤ, pos, negsuc, leb_ℤ, ltb_ℤ}
use smi_backend.Maintenance.Status.{hundredths, sort, last}

-- `CycleItem` and `CycleRecord`
pub record CycleItem : Type 0 where
  pub id : ℕ
  pub milestones : List ℕ

pub record CycleRecord : Type 0 where
  pub plan_item_id : Option ℕ
  pub milestone : ℕ

-- `CycleColumn` before its two flags are known.
pub record Column : Type 0 where
  pub milestone : ℕ
  pub first_time_only : Bool
  pub due_at : ℕ
  pub reached : Bool
  pub total : ℕ
  pub done : ℕ
  pub complete : Bool
  pub pre_system : Bool

pub record CycleColumn : Type 0 where
  pub column : Column
  pub unlocked : Bool
  pub can_undo : Bool

-- The parameters of `cycleColumns`; a cycle counts from 1.
pub record CycleParams : Type 0 where
  pub milestones : List ℕ
  pub initial_milestone : Option ℕ
  pub items : List CycleItem
  pub records : List CycleRecord
  pub cycle : ℕ
  pub counter : Option ℤ
  pub baseline_counter : Option ℤ

-- `cerrado`
abbrev pub cerrado : Column → Bool
cerrado c = (c.total == 0) || c.complete

-- `Math.ceil(counter / cycleLength)` for a positive length.
abbrev pub cycles_up : ℕ → ℕ → ℕ
cycles_up counter length = (counter + (length - 1)) / length

-- `currentCycle`
abbrev pub current_cycle : Option ℤ → ℕ → ℕ
current_cycle none cycle_length = 1
current_cycle (some (negsuc n)) cycle_length = 1
current_cycle (some (pos c)) cycle_length =
    if (c == 0) || (cycle_length == 0) then 1 else cycles_up c (hundredths cycle_length)

-- A test of a counter that may be missing.
abbrev pub known_and : (ℤ → Bool) → Option ℤ → Bool
known_and test none = false
known_and test (some n) = test n

-- `hechas.has`: the record of an item at a milestone.
abbrev pub is_done : List CycleRecord → ℕ → CycleItem → Bool
is_done records milestone item =
    any (λ r. opt_eq r.plan_item_id (some item.id) && (r.milestone == milestone)) records

abbrev pub cycle_length : CycleParams → ℕ
cycle_length p = or_default (last (sort p.milestones)) 0

abbrev pub due_point : CycleParams → ℕ → Bool → ℕ
due_point p milestone first_time_only =
    if first_time_only then milestone else (p.cycle - 1) * cycle_length p + milestone

abbrev pub applying : CycleParams → ℕ → List CycleItem
applying p milestone = filter (λ (i : CycleItem). includes i.milestones milestone) p.items

abbrev pub done_of : CycleParams → ℕ → Bool → ℕ
done_of p milestone pre_system =
    if pre_system
    then length (applying p milestone)
    else length (filter (is_done p.records milestone) (applying p milestone))

abbrev pub is_pre_system : CycleParams → ℕ → Bool
is_pre_system p due_at = known_and (ltb_ℤ (pos (hundredths due_at))) p.baseline_counter

-- `columna`
abbrev pub columna : CycleParams → ℕ → Bool → Column
columna p milestone first_time_only =
    let due_at = due_point p milestone first_time_only in
    let pre_system = is_pre_system p due_at in
    let total = length (applying p milestone) in
    let done = done_of p milestone pre_system in
    record {
      milestone = milestone;
      first_time_only = first_time_only;
      due_at = due_at;
      reached = known_and (leb_ℤ (pos (hundredths due_at))) p.counter;
      total = total;
      done = done;
      complete = pre_system || (ltb 0 total && (done == total));
      pre_system = pre_system;
    }

abbrev pub first_column : CycleParams → Option ℕ → List Column
first_column p none = []
first_column p (some milestone) = if p.cycle == 1 then columna p milestone true ∷ [] else []

-- `columnas`
abbrev pub columnas : CycleParams → List Column
columnas p = first_column p p.initial_milestone ++ map (λ m. columna p m false) (sort p.milestones)

-- The last `map`: a column after the columns `before` and before those of `cs`.
abbrev pub flagged : List Column → Column → List Column → CycleColumn
flagged before c cs = record {
  column = c;
  unlocked = every cerrado before;
  can_undo = not c.pre_system && every (λ (d : Column). d.done == 0) cs;
}

abbrev pub flag_columns : List Column → List Column → List CycleColumn
flag_columns before [] = []
flag_columns before (c ∷ cs) = flagged before c cs ∷ flag_columns (before ++ c ∷ []) cs

-- `cycleColumns`
unfoldable pub cycle_columns : CycleParams → List CycleColumn
cycle_columns p = flag_columns [] (columnas p)
