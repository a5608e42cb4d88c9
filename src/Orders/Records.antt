-- ===== src/Orders/Records.antt =====
-- Marking a task of a maintenance plan and unmarking it again.
use smi_backend.Prelude.{
  ℕ, ◌≡◌, refl, ap, ◌∙◌, inl, inr, Bool, true, false, Option, some, List, [], ◌∷◌, map, ◌==◌, arith,
  any, find, if◌then◌else◌, Bool-cases, ==_iff,
}
use smi_backend.Prelude.Result.{ok}
use smi_backend.Prelude.Handler.{OnOk-eq}
use smi_backend.Orders.Types.{Orden, Tarea, MaintenanceRecord, Db, ToggleTareaDto, Editor}
use smi_backend.Orders.Queries.{Env}
use smi_backend.Orders.Tarea.{find_tarea, mark_row, marked_row, update_tarea}
use smi_backend.Orders.Registro.{
  is_record_of, new_record, add_record, drop_record, records_after, write_record, with_registro,
}
use smi_backend.Orders.Effects.{Effect, update_tarea-Effect}

drop_record-absent :
    (p c m : ℕ) (rs : List MaintenanceRecord)
    → any (is_record_of p c m) rs ≡ false
    → drop_record p c m rs ≡ rs
drop_record-absent p c m [] h = refl
drop_record-absent p c m (r ∷ rs) h = ground (arith, h, drop_record-absent p c m rs)

is_record_of_key :
    (p c m : ℕ) (r : MaintenanceRecord)
    → r.plan_item_id ≡ p
    → r.cycle ≡ c
    → r.milestone ≡ m
    → is_record_of p c m r ≡ true
is_record_of_key p c m r hp hc hm = ground arith

-- Adding a record with a key that is not there, and dropping it.
add_record-drop :
    (p c m : ℕ) (r : MaintenanceRecord) (rs : List MaintenanceRecord)
    → (r.plan_item_id ≡ p) × (r.cycle ≡ c) × (r.milestone ≡ m)
    → any (is_record_of p c m) rs ≡ false
    → (any (is_record_of p c m) (add_record r rs) ≡ true)
      × (drop_record p c m (add_record r rs) ≡ rs)
add_record-drop p c m r rs (hp, hc, hm) new =
    let key = is_record_of_key p c m r hp hc hm in
    let absent : any (is_record_of r.plan_item_id r.cycle r.milestone) rs ≡ false =
      rw (hp, hc, hm) new in
    (rw absent (ground (arith, key)), rw (absent, key) (drop_record-absent p c m rs new))

find-mark_row :
    (env : Env) (orden_id id : ℕ) (dto : ToggleTareaDto) (editor : Editor) (photo : Option ℕ)
    (ts : List Tarea) (t : Tarea)
    → find (λ x. x.id == id) ts ≡ some t
    → find (λ x. x.id == id) (map (mark_row env orden_id id dto editor photo) ts)
      ≡ some (marked_row env orden_id id dto editor photo t)
find-mark_row env orden_id id dto editor photo [] t h = absurd (cc)
find-mark_row env orden_id id dto editor photo (x ∷ xs) t h = elim (Bool-cases (x.id == id)) [
  | inl here ↦
      rw (here, here)
        (ap (λ y. some (marked_row env orden_id id dto editor photo y))
          (some-inj x t (rw here at h)))
  | inr there ↦
      rw (there, there) (find-mark_row env orden_id id dto editor photo xs t (rw there at h))
]
  where
    some-inj : (a b : Tarea) → some a ≡ some b → a ≡ b
    some-inj a b e = cc

-- The order and the task of a marking have these keys, which those of the record are.
pub record IsKeyed (orden_id tarea_id : ℕ) (s : Db) (p c m : ℕ) : Type 0 where
  pub orden : Orden
  pub tarea : Tarea
  pub orden_is : s.ordenes orden_id ≡ some orden
  pub tarea_is : find_tarea tarea_id s ≡ some tarea
  pub cycle_is : orden.pauta_cycle ≡ some c
  pub milestone_is : orden.pauta_milestone ≡ some m
  pub plan_item_is : tarea.plan_item_id ≡ some p

same_some : {A : Type 0} (o : Option A) (a b : A) → o ≡ some a → o ≡ some b → a ≡ b
same_some o a b h k = cc

module _ (env : Env) (orden_id tarea_id : ℕ) (dto : ToggleTareaDto) (editor : Editor) where
  Effect-records :
      (s u : Db) (p c m : ℕ)
      → IsKeyed orden_id tarea_id s p c m
      → Effect env orden_id tarea_id dto editor s u
      → (r : MaintenanceRecord) × ((r.plan_item_id ≡ p) × (r.cycle ≡ c) × (r.milestone ≡ m))
        × (u.records ≡ (if dto.hecha then add_record r s.records else drop_record p c m s.records))
  unfolding with_registro
  Effect-records s u p c m k e = (
    made,
    (refl, refl, refl),
    e.moved.records_are ∙ keyed tareas cycle milestone plan_item ∙ by_mark tareas dto.hecha,
  )
    where
      same_orden : e.orden ≡ k.orden
      same_orden = same_some (s.ordenes orden_id) e.orden k.orden e.read.orden_is k.orden_is

      cycle : e.orden.pauta_cycle ≡ some c
      cycle = ap (λ o. o.pauta_cycle) same_orden ∙ k.cycle_is

      milestone : e.orden.pauta_milestone ≡ some m
      milestone = ap (λ o. o.pauta_milestone) same_orden ∙ k.milestone_is

      plan_item : e.tarea.plan_item_id ≡ some p
      plan_item =
          ap (λ t. t.plan_item_id)
            (same_some (find_tarea tarea_id s) e.tarea k.tarea e.read.tarea_is k.tarea_is)
          ∙ k.plan_item_is

      tareas : List Tarea
      tareas = map (mark_row env orden_id tarea_id dto editor e.photo) s.tareas

      made : MaintenanceRecord
      made = new_record e.orden p c m e.tarea.texto editor s

      keyed :
          (ts : List Tarea) {cy mi pl : Option ℕ}
          → cy ≡ some c
          → mi ≡ some m
          → pl ≡ some p
          → records_after cy mi pl e.orden e.tarea.texto dto.hecha editor (record s { tareas = ts })
            ≡ write_record dto.hecha e.orden p c m e.tarea.texto editor (record s { tareas = ts })
      keyed ts hc hm hp = rw (hc, hm, hp) refl

      by_mark :
          (ts : List Tarea) (b : Bool)
          → write_record b e.orden p c m e.tarea.texto editor (record s { tareas = ts })
            ≡ (if b then add_record made s.records else drop_record p c m s.records)
      by_mark ts true = refl
      by_mark ts false = refl

  Effect-IsKeyed :
      (s u : Db) (p c m : ℕ)
      → IsKeyed orden_id tarea_id s p c m
      → Effect env orden_id tarea_id dto editor s u
      → IsKeyed orden_id tarea_id u p c m
  unfolding with_registro
  Effect-IsKeyed s u p c m k e =
      let same_orden = same_some (s.ordenes orden_id) e.orden k.orden e.read.orden_is k.orden_is in
      let same_tarea =
        same_some (find_tarea tarea_id s) e.tarea k.tarea e.read.tarea_is k.tarea_is in
      let here : (orden_id == orden_id) ≡ true = (==_iff orden_id orden_id).1 refl in
      record {
        orden = e.left;
        tarea = marked_row env orden_id tarea_id dto editor e.photo e.tarea;
        orden_is = e.moved.ordenes_are orden_id ∙ rw here refl;
        tarea_is =
            ap (find (λ x. x.id == tarea_id)) e.moved.tareas_are
            ∙ find-mark_row env orden_id tarea_id dto editor e.photo s.tareas e.tarea
                e.read.tarea_is;
        cycle_is =
            ap (λ o. o.pauta_cycle) e.moved.orden_is
            ∙ ap (λ o. o.pauta_cycle) same_orden
            ∙ k.cycle_is;
        milestone_is =
            ap (λ o. o.pauta_milestone) e.moved.orden_is
            ∙ ap (λ o. o.pauta_milestone) same_orden
            ∙ k.milestone_is;
        plan_item_is = ap (λ t. t.plan_item_id) same_tarea ∙ k.plan_item_is;
      }

-- Where no record has the key of a task of a maintenance plan yet, marking the task writes one, and
-- unmarking it then leaves the records as they were, whoever marks and unmarks and with whatever
-- notes, photos and supplies.
pub update_tarea-unmark :
    (env env' : Env) (orden_id tarea_id : ℕ) (dto dto' : ToggleTareaDto) (editor editor' : Editor)
    (s u v : Db) (t t' : Tarea) (p c m : ℕ)
    → dto.hecha ≡ true
    → dto'.hecha ≡ false
    → IsKeyed orden_id tarea_id s p c m
    → any (is_record_of p c m) s.records ≡ false
    → update_tarea env orden_id tarea_id dto editor (λ w. w) s ≡ (ok t, u)
    → update_tarea env' orden_id tarea_id dto' editor' (λ w. w) u ≡ (ok t', v)
    → (any (is_record_of p c m) u.records ≡ true) × (v.records ≡ s.records)
update_tarea-unmark env env' orden_id tarea_id dto dto' editor editor' s u v t t' p c m h h' k new
      done undone =
    let e =
      OnOk-eq (λ _. Effect env orden_id tarea_id dto editor s)
        (update_tarea env orden_id tarea_id dto editor (λ w. w) s) t u done
        ((update_tarea-Effect env orden_id tarea_id dto editor s).held s refl) in
    let e' =
      OnOk-eq (λ _. Effect env' orden_id tarea_id dto' editor' u)
        (update_tarea env' orden_id tarea_id dto' editor' (λ w. w) u) t' v undone
        ((update_tarea-Effect env' orden_id tarea_id dto' editor' u).held u refl) in
    let (r, key, written) = Effect-records env orden_id tarea_id dto editor s u p c m k e in
    let k' = Effect-IsKeyed env orden_id tarea_id dto editor s u p c m k e in
    let (_, _, dropped) = Effect-records env' orden_id tarea_id dto' editor' u v p c m k' e' in
    let (there, gone) = add_record-drop p c m r s.records key new in
    let after : u.records ≡ add_record r s.records = written ∙ rw h refl in
    (rw after there, dropped ∙ rw h' refl ∙ ap (drop_record p c m) after ∙ gone)
