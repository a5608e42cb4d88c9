-- ===== src/Orders/Consistent.antt =====
-- The invariant of the stock ledger and of the records of maintenance, and the writes of the orders.
use smi_backend.Prelude.{
  ℕ, ◌≡◌, refl, inl, inr, Bool, true, false, not, ◌&&◌, Option, none, some, List, [], ◌∷◌, arith,
  any, Bool-cases,
}
use smi_backend.Inventory.Stock.Ledger.{IsSound}
use smi_backend.Orders.Types.{
  EstadoOt, EstadoHallazgo, Orden, Tarea, MaintenanceRecord, Db, Editor, OrdenEvent,
}
use smi_backend.Orders.Queries.{
  sync_linked, estado_hallazgo, sync_hallazgo_estado, emit_event, event_of, emit_transicion_estado,
  same_estado,
}
use smi_backend.Orders.Registro.{
  is_record_of, add_record, drop_record, records_after, with_registro,
}

-- No two records have one plan item, one cycle and one milestone.
abbrev pub have_distinct_keys : List MaintenanceRecord → Bool
have_distinct_keys [] = true
have_distinct_keys (r ∷ rs) =
    not (any (is_record_of r.plan_item_id r.cycle r.milestone) rs) && have_distinct_keys rs

-- The stock ledger is sound, and the records of maintenance have distinct keys.
pub record IsConsistent (s : Db) : Type 0 where
  pub sound : IsSound s.stock
  pub distinct : have_distinct_keys s.records ≡ true

any-drop :
    (p : MaintenanceRecord → Bool) (plan_item cycle milestone : ℕ) (rs : List MaintenanceRecord)
    → any p rs ≡ false
    → any p (drop_record plan_item cycle milestone rs) ≡ false
any-drop p plan_item cycle milestone [] h = refl
any-drop p plan_item cycle milestone (r ∷ rs) h =
    elim (Bool-cases (is_record_of plan_item cycle milestone r)) [
      | inl dropped ↦ rw dropped (any-drop p plan_item cycle milestone rs (ground (arith, h)))
      | inr kept ↦ ground (arith, kept, any-drop p plan_item cycle milestone rs)
    ]

drop_record-distinct :
    (plan_item cycle milestone : ℕ) (rs : List MaintenanceRecord)
    → have_distinct_keys rs ≡ true
    → have_distinct_keys (drop_record plan_item cycle milestone rs) ≡ true
drop_record-distinct plan_item cycle milestone [] h = refl
drop_record-distinct plan_item cycle milestone (r ∷ rs) h =
    let later = drop_record-distinct plan_item cycle milestone rs (ground (arith, h)) in
    elim (Bool-cases (is_record_of plan_item cycle milestone r)) [
      | inl dropped ↦ rw dropped later
      | inr kept ↦
          let new =
            any-drop (is_record_of r.plan_item_id r.cycle r.milestone) plan_item cycle milestone rs
              (ground (arith, h)) in
          rw (kept, new) later
    ]

add_record-distinct :
    (r : MaintenanceRecord) (rs : List MaintenanceRecord)
    → have_distinct_keys rs ≡ true
    → have_distinct_keys (add_record r rs) ≡ true
add_record-distinct r rs h =
    elim (Bool-cases (any (is_record_of r.plan_item_id r.cycle r.milestone) rs)) [
      | inl there ↦ rw there h
      | inr new ↦ rw (new, new) h
    ]

pub with_registro-IsConsistent :
    (orden : Orden) (tarea : Tarea) (done : Bool) (editor : Editor) (s : Db)
    → IsConsistent s
    → IsConsistent (with_registro orden tarea done editor s)
unfolding with_registro
with_registro-IsConsistent orden tarea done editor s h = record {
  sound = h.sound;
  distinct = at orden.pauta_cycle orden.pauta_milestone tarea.plan_item_id done;
}
  where
    at :
        (cycle milestone plan_item : Option ℕ) (b : Bool)
        → have_distinct_keys (records_after cycle milestone plan_item orden tarea.texto b editor s)
          ≡ true
    at (some c) (some m) (some p) true = add_record-distinct _ s.records h.distinct
    at (some c) (some m) (some p) false = drop_record-distinct p c m s.records h.distinct
    at none m p b = h.distinct
    at (some c) none p b = h.distinct
    at (some c) (some m) none b = h.distinct

pub sync_hallazgo_estado-IsConsistent :
    (orden : Orden) (anterior : EstadoOt) (s : Db)
    → IsConsistent s
    → IsConsistent (sync_hallazgo_estado orden anterior s)
unfolding sync_hallazgo_estado
sync_hallazgo_estado-IsConsistent orden anterior s h =
    elim (Bool-cases (same_estado orden.estado anterior)) [
      | inl same ↦ rw (sync_hallazgo_estado, same) h
      | inr crossed ↦
          rw (sync_hallazgo_estado, crossed) (at orden.hallazgo_id (estado_hallazgo orden.estado))
    ]
  where
    at : (id : Option ℕ) (to : Option EstadoHallazgo) → IsConsistent (sync_linked id to s)
    at (some id) (some to) = record { sound = h.sound; distinct = h.distinct }
    at none to = h
    at (some id) none = h

pub emit_transicion_estado-IsConsistent :
    (anterior : EstadoOt) (orden : Orden) (s : Db)
    → IsConsistent s
    → IsConsistent (emit_transicion_estado anterior orden s)
unfolding emit_transicion_estado
emit_transicion_estado-IsConsistent anterior orden s h =
    elim (Bool-cases (same_estado orden.estado anterior)) [
      | inl same ↦ rw (emit_transicion_estado, same) h
      | inr crossed ↦ rw (emit_transicion_estado, crossed) (at (event_of orden orden.estado))
    ]
  where
    at : (e : Option OrdenEvent) → IsConsistent (emit_event e s)
    at none = h
    at (some e) = record { sound = h.sound; distinct = h.distinct }
