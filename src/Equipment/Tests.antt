-- ===== src/Equipment/Tests.antt =====
-- The theorems on the use counter at concrete readings.
use smi_backend.Prelude.{◌≡◌, refl, Bool, false, none, some, List, [], ◌∷◌, ◌==◌, if◌then◌else◌}
use smi_backend.Prelude.Result.{Result, ok}
use smi_backend.Equipment.Counter.{
  CounterError, hours, reject, warn, Equipment, Table, Reconciliation, Advanced, reconcile_all,
  raised, reconcile_equipment_counter, reconcile_all-Advanced, reconcile_equipment_counter-raised,
}

abbrev loader : Equipment
loader = record { control_unit = hours; current_hourmeter = some 100; current_mileage = none }

abbrev table : Table
table i = if i == 1 then some loader else none

-- Two readings of one stale row, the higher one first, and one that goes back.
abbrev readings : List Reconciliation
readings =
    record { id = 1; equipo = loader; value = 150; mode = reject }
    ∷ record { id = 1; equipo = loader; value = 120; mode = reject }
    ∷ record { id = 1; equipo = loader; value = 90; mode = warn }
    ∷ []

reconcile_all-Advanced_example : Advanced loader (reconcile_all readings table 1)
reconcile_all-Advanced_example = reconcile_all-Advanced readings table 1 loader refl

abbrev answer : Result CounterError Bool × Table
answer = reconcile_equipment_counter 1 loader 150 reject table

accepted : reconcile_equipment_counter 1 loader 150 reject table ≡ (ok false, answer.1)
unfolding reconcile_equipment_counter
accepted = refl

reconcile_equipment_counter-raised_example :
    answer.1 1 ≡ (if 1 == 1 then some (raised hours 150 loader) else table 1)
reconcile_equipment_counter-raised_example =
    reconcile_equipment_counter-raised 1 150 loader loader reject table answer.1 refl accepted 1
