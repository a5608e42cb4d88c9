-- ===== src/Equipment/Counter.antt =====
-- src/equipment/equipment-counter.ts: the only place that writes the use counter of an equipment. A
-- reading is a number of the smallest unit that the meters show. The table is looked up by the id,
-- so it is a function; the `equipo` that a caller passes was read before and may be stale.
use smi_backend.Prelude.{
  ℕ, ◌≤◌, ◌≡◌, refl, inl, inr, Bool, true, false, Option, none, some, List, [], ◌∷◌, arith, max,
  ◌==◌, ltb, if◌then◌else◌, Bool-cases,
}
use smi_backend.Prelude.Result.{Result, ok, err}

pub data ControlUnit : Type 0 where
  km hours : ControlUnit

pub data ReconcileMode : Type 0 where
  reject warn : ReconcileMode

-- `EquipoContador`
pub record Equipment : Type 0 where
  pub control_unit : ControlUnit
  pub current_hourmeter : Option ℕ
  pub current_mileage : Option ℕ

-- `vigente`: the counter that the unit governs.
abbrev pub counter_of : ControlUnit → Equipment → Option ℕ
counter_of hours e = e.current_hourmeter
counter_of km e = e.current_mileage

abbrev pub set_counter : ControlUnit → ℕ → Equipment → Equipment
set_counter hours v e = record e { current_hourmeter = some v }
set_counter km v e = record e { current_mileage = some v }

-- `vigente != null && nuevoValor < vigente`
abbrev pub goes_back : ℕ → Option ℕ → Bool
goes_back v none = false
goes_back v (some current) = ltb v current

-- The `where` of the update: a missing counter, or a smaller one.
abbrev pub may_advance : ℕ → Option ℕ → Bool
may_advance v none = true
may_advance v (some current) = ltb current v

abbrev pub Table : Type 0
Table = ℕ → Option Equipment

abbrev pub advanced_row : ControlUnit → ℕ → Option Equipment → Option Equipment
advanced_row unit v none = none
advanced_row unit v (some e) =
    if may_advance v (counter_of unit e) then some (set_counter unit v e) else some e

-- `updateMany`: it writes the row of the id where the guard holds, and no row otherwise.
abbrev pub advance_counter : ControlUnit → ℕ → ℕ → Table → Table
advance_counter unit id v table i = if i == id then advanced_row unit v (table i) else table i

-- The exception: the reading and the counter that it is below.
pub data CounterError : Type 0 where
  reading_below : ControlUnit → ℕ → Option ℕ → CounterError

-- A reading below the counter that the caller has read.
abbrev pub below : ControlUnit → Option ℕ → ℕ → ReconcileMode → Result CounterError Bool
below unit current v warn = ok true
below unit current v reject = err (reading_below unit v current)

-- `reconcileEquipmentCounter`: the answer is `belowPrevious`.
unfoldable pub reconcile_equipment_counter :
    ℕ → Equipment → ℕ → ReconcileMode → Table → Result CounterError Bool × Table
reconcile_equipment_counter id e v mode table =
    if goes_back v (counter_of e.control_unit e)
    then (below e.control_unit (counter_of e.control_unit e) v mode, table)
    else (ok false, advance_counter e.control_unit id v table)

-- A counter is at least another: a missing one is below every reading.
abbrev pub IsAtLeast : Option ℕ → Option ℕ → Type 0
IsAtLeast now none = Unit
IsAtLeast none (some before) = ⊥
IsAtLeast (some now) (some before) = before ≤ now

IsAtLeast-refl : (o : Option ℕ) → IsAtLeast o o
IsAtLeast-refl none = tt
IsAtLeast-refl (some a) = omega arith

IsAtLeast-trans : (a b c : Option ℕ) → IsAtLeast a b → IsAtLeast b c → IsAtLeast a c
IsAtLeast-trans a b none h k = tt
IsAtLeast-trans a none (some c) h k = absurd k
IsAtLeast-trans none (some b) (some c) h k = absurd h
IsAtLeast-trans (some a) (some b) (some c) h k = omega arith

-- A row whose counters have not gone back.
pub record Advanced (before : Equipment) (now : Option Equipment) : Type 0 where
  pub row : Equipment
  pub row_is : now ≡ some row
  pub hourmeter : IsAtLeast row.current_hourmeter before.current_hourmeter
  pub mileage : IsAtLeast row.current_mileage before.current_mileage

pub Advanced-refl : (e : Equipment) → Advanced e (some e)
Advanced-refl e = record {
  row = e;
  row_is = refl;
  hourmeter = IsAtLeast-refl e.current_hourmeter;
  mileage = IsAtLeast-refl e.current_mileage;
}

pub Advanced-trans :
    (e : Equipment) {o o' : Option Equipment} (a : Advanced e o) → Advanced a.row o' → Advanced e o'
Advanced-trans e a b = record {
  row = b.row;
  row_is = b.row_is;
  hourmeter =
      IsAtLeast-trans b.row.current_hourmeter a.row.current_hourmeter e.current_hourmeter
        b.hourmeter a.hourmeter;
  mileage =
      IsAtLeast-trans b.row.current_mileage a.row.current_mileage e.current_mileage b.mileage
        a.mileage;
}

set_least : (v : ℕ) (o : Option ℕ) → may_advance v o ≡ true → IsAtLeast (some v) o
set_least v none h = tt
set_least v (some a) h = ground arith

advanced_row-Advanced :
    (unit : ControlUnit) (v : ℕ) (e : Equipment) → Advanced e (advanced_row unit v (some e))
advanced_row-Advanced unit v e = elim (Bool-cases (may_advance v (counter_of unit e))) [
  | inr stays ↦ rw stays (Advanced-refl e)
  | inl moves ↦ rw moves (moved unit moves)
]
  where
    moved :
        (u : ControlUnit)
        → may_advance v (counter_of u e) ≡ true
        → Advanced e (some (set_counter u v e))
    moved hours h = record {
      row = set_counter hours v e;
      row_is = refl;
      hourmeter = set_least v e.current_hourmeter h;
      mileage = IsAtLeast-refl e.current_mileage;
    }
    moved km h = record {
      row = set_counter km v e;
      row_is = refl;
      hourmeter = IsAtLeast-refl e.current_hourmeter;
      mileage = set_least v e.current_mileage h;
    }

-- A call: the id, the row that the caller has read, the reading and the mode.
pub record Reconciliation : Type 0 where
  pub id : ℕ
  pub equipo : Equipment
  pub value : ℕ
  pub mode : ReconcileMode

abbrev pub reconcile_all : List Reconciliation → Table → Table
reconcile_all [] table = table
reconcile_all (c ∷ cs) table =
    reconcile_all cs (reconcile_equipment_counter c.id c.equipo c.value c.mode table).1

pub reconcile-Advanced :
    (c : Reconciliation) (table : Table) (i : ℕ) (e : Equipment)
    → table i ≡ some e
    → Advanced e ((reconcile_equipment_counter c.id c.equipo c.value c.mode table).1 i)
unfolding reconcile_equipment_counter
reconcile-Advanced c table i e h =
    elim (Bool-cases (goes_back c.value (counter_of c.equipo.control_unit c.equipo))) [
      | inl back ↦ rw (reconcile_equipment_counter, back, h) (Advanced-refl e)
      | inr forth ↦ elim (Bool-cases (i == c.id)) [
        | inr other ↦ rw (reconcile_equipment_counter, forth, other, h) (Advanced-refl e)
        | inl same ↦
            rw (reconcile_equipment_counter, forth, same, h)
              (advanced_row-Advanced c.equipo.control_unit c.value e)
      ]
    ]

-- Whatever readings are reconciled, in either mode and however stale the rows are that the callers
-- have read, no counter of an equipment goes back and the equipment stays in the table.
pub reconcile_all-Advanced :
    (calls : List Reconciliation) (table : Table) (i : ℕ) (e : Equipment)
    → table i ≡ some e
    → Advanced e (reconcile_all calls table i)
reconcile_all-Advanced [] table i e h = rw h (Advanced-refl e)
reconcile_all-Advanced (c ∷ cs) table i e h =
    let a = reconcile-Advanced c table i e h in
    Advanced-trans e a (
      reconcile_all-Advanced cs (reconcile_equipment_counter c.id c.equipo c.value c.mode table).1 i
        a.row a.row_is)

-- The higher of a reading and a counter.
abbrev pub highest : ℕ → Option ℕ → ℕ
highest v none = v
highest v (some a) = max v a

-- The row that an accepted reading leaves.
abbrev pub raised : ControlUnit → ℕ → Equipment → Equipment
raised unit v e = set_counter unit (highest v (counter_of unit e)) e

advanced_row-raised :
    (unit : ControlUnit) (v : ℕ) (o : Option ℕ) (e : Equipment)
    → counter_of unit e ≡ o
    → advanced_row unit v (some e) ≡ some (raised unit v e)
advanced_row-raised hours v none e h = ground arith
advanced_row-raised km v none e h = ground arith
advanced_row-raised hours v (some a) e h = ground arith
advanced_row-raised km v (some a) e h = ground arith

-- A reading that is answered with no mark leaves the higher of it and of the stored counter in the
-- row of the equipment, even if the row that the caller has read is stale, and changes nothing else.
pub reconcile_equipment_counter-raised :
    (id v : ℕ) (equipo row : Equipment) (mode : ReconcileMode) (table table' : Table)
    → table id ≡ some row
    → reconcile_equipment_counter id equipo v mode table ≡ (ok false, table')
    → (i : ℕ) → table' i ≡ (if i == id then some (raised equipo.control_unit v row) else table i)
unfolding reconcile_equipment_counter
reconcile_equipment_counter-raised id v equipo row mode table table' h r i =
    elim (Bool-cases (i == id)) [
      | inl same ↦ ground (
        arith,
        advanced_row-raised equipo.control_unit v (counter_of equipo.control_unit row) row refl,
      )
      | inr other ↦ ground arith
    ]
