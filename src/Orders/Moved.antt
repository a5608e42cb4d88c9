-- ===== src/Orders/Moved.antt =====
-- What the automatic transition of an order leaves, and the transaction of a marking.
use smi_backend.Prelude.{
  ℕ, ◌≡◌, refl, sym, ap, ◌∙◌, inl, inr, Bool, true, false, Option, none, some, filter, ◌==◌,
  Bool-cases, ==_iff,
}
use smi_backend.Prelude.Handler.{
  ◌>>=◌, or_throw, OnOk, Ensures, Ensures-bind, Ensures-Keeps, Ensures-modify, Ensures-throw_where,
  Ensures-pure,
}
use smi_backend.Orders.Types.{EstadoOt, Orden, Tarea, Db, ToggleTareaDto, Editor}
use smi_backend.Orders.Queries.{Env, same_estado, set_row}
use smi_backend.Orders.Tarea.{
  tareas_de, nuevo_estado, move_orden, set_estado, move_if_pauta, tarea_tx,
}
use smi_backend.Orders.Registro.{records_after, with_registro}
use smi_backend.Orders.Tables.{
  IsLike, same_estado_sound, estado_or, estado_tras, issue_all-IsLike, marked, mark_tarea-IsLike,
}

module _ (env : Env) (orden_id tarea_id : ℕ) (dto : ToggleTareaDto) (editor : Editor) where
  -- What the automatic transition leaves of the tables `w`.
  pub record Moved (w : Db) (orden o : Orden) (u : Db) : Type 0 where
    pub orden_is : o ≡ record orden {
      estado = estado_tras orden.pauta_cycle (tareas_de orden_id w) orden.estado;
    }
    pub ordenes_are : (k : ℕ) → u.ordenes k ≡ set_row orden_id (some o) w.ordenes k
    pub tareas_are : u.tareas ≡ w.tareas
    pub hallazgos_are : u.hallazgos ≡ w.hallazgos
    pub records_are : u.records ≡ w.records
    pub plan_items_are : u.plan_items ≡ w.plan_items

  set_row_same :
      (w : Db) (o : Orden) (k : ℕ)
      → w.ordenes orden_id ≡ some o
      → w.ordenes k ≡ set_row orden_id (some o) w.ordenes k
  set_row_same w o k h = elim (Bool-cases (k == orden_id)) [
    | inl here ↦ rw here (ap w.ordenes ((==_iff k orden_id).0 here) ∙ h)
    | inr there ↦ rw there refl
  ]

  stays-Moved :
      (w u : Db) (orden : Orden)
      → IsLike w u
      → w.ordenes orden_id ≡ some orden
      → estado_tras orden.pauta_cycle (tareas_de orden_id w) orden.estado ≡ orden.estado
      → Moved w orden orden u
  stays-Moved w u orden h k e = record {
    orden_is = ap (λ x. record orden { estado = x }) (sym e);
    ordenes_are = λ i. ap (λ t. t i) h.ordenes ∙ set_row_same w orden i k;
    tareas_are = h.tareas;
    hallazgos_are = h.hallazgos;
    records_are = h.records;
    plan_items_are = h.plan_items;
  }

  set_estado-Moved :
      (w : Db) (orden : Orden) (e : EstadoOt)
      → w.ordenes orden_id ≡ some orden
      → estado_tras orden.pauta_cycle (tareas_de orden_id w) orden.estado ≡ e
      → Ensures (IsLike w) (λ o. Moved w orden o) (set_estado orden_id e)
  unfolding or_throw ◌>>=◌
  set_estado-Moved w orden e found is = record { held = λ u h. at u h }
    where
      at : (u : Db) → IsLike w u → OnOk (λ o. Moved w orden o) (set_estado orden_id e u)
      at u h = rw (ap (λ t. t orden_id) h.ordenes ∙ found) (record {
        orden_is = ap (λ x. record orden { estado = x }) (sym is);
        ordenes_are = λ i.
            ap (λ (t : ℕ → Option Orden). set_row orden_id (some (record orden { estado = e })) t i)
              h.ordenes;
        tareas_are = h.tareas;
        hallazgos_are = h.hallazgos;
        records_are = h.records;
        plan_items_are = h.plan_items;
      })

  move_orden-Moved :
      (w : Db) (orden : Orden) (next : Option EstadoOt)
      → w.ordenes orden_id ≡ some orden
      → estado_tras orden.pauta_cycle (tareas_de orden_id w) orden.estado
        ≡ estado_or orden.estado next
      → Ensures (IsLike w) (λ o. Moved w orden o) (move_orden orden_id orden next)
  move_orden-Moved w orden none found is =
      Ensures-pure orden λ u h. stays-Moved w u orden h found is
  move_orden-Moved w orden (some e) found is = elim (Bool-cases (same_estado e orden.estado)) [
    | inl same ↦ rw same (
        Ensures-pure orden
          λ u h. stays-Moved w u orden h found (is ∙ same_estado_sound e orden.estado same))
    | inr moves ↦ rw moves (set_estado-Moved w orden e found is)
  ]

  move_if_pauta-Moved :
      (w : Db) (orden : Orden)
      → w.ordenes orden_id ≡ some orden
      → Ensures (IsLike w) (λ o. Moved w orden o) (move_if_pauta orden_id orden orden.pauta_cycle)
  unfolding ◌>>=◌
  move_if_pauta-Moved w orden found = record { held = λ u h. at orden.pauta_cycle refl u h }
    where
      at :
          (cycle : Option ℕ)
          → orden.pauta_cycle ≡ cycle
          → (u : Db) → IsLike w u
          → OnOk (λ o. Moved w orden o) (move_if_pauta orden_id orden cycle u)
      at none e u h =
          stays-Moved w u orden h found
            (ap (λ c. estado_tras c (tareas_de orden_id w) orden.estado) e)
      at (some c) e u h =
          (move_orden-Moved w orden (nuevo_estado (tareas_de orden_id u) orden.estado) found (
              ap (λ c'. estado_tras c' (tareas_de orden_id w) orden.estado) e
              ∙ ap
                  (λ ts.
                    estado_or orden.estado (
                      nuevo_estado (filter (λ (t : Tarea). t.orden_id == orden_id) ts)
                        orden.estado))
                  (sym h.tareas))).held
            u h

  pub with_registro-IsLike :
      (w u : Db) (orden : Orden) (tarea : Tarea)
      → IsLike w u
      → IsLike
          (with_registro orden tarea dto.hecha editor w)
          (with_registro orden tarea dto.hecha editor u)
  unfolding with_registro
  with_registro-IsLike w u orden tarea h = record {
    ordenes = h.ordenes;
    tareas = h.tareas;
    hallazgos = h.hallazgos;
    fleet = h.fleet;
    plan_items = h.plan_items;
    records = at orden.pauta_cycle orden.pauta_milestone tarea.plan_item_id dto.hecha;
  }
    where
      at :
          (cycle milestone plan_item : Option ℕ) (b : Bool)
          → records_after cycle milestone plan_item orden tarea.texto b editor u
            ≡ records_after cycle milestone plan_item orden tarea.texto b editor w
      at (some c) (some m) (some p) true = rw (h.fleet, h.plan_items, h.records) refl
      at (some c) (some m) (some p) false = rw h.records refl
      at none m p b = h.records
      at (some c) none p b = h.records
      at (some c) (some m) none b = h.records

  -- The tables that the transaction has written before it moves the order.
  abbrev pub after_sync : Orden → Tarea → Option ℕ → Db → Db
  after_sync orden tarea photo s =
      with_registro orden tarea dto.hecha editor (marked env orden_id tarea_id dto editor photo s)

  pub tarea_tx-Moved :
      (s : Db) (orden : Orden) (tarea : Tarea) (equipment_id photo : Option ℕ)
      → s.ordenes orden_id ≡ some orden
      → Ensures
          (IsLike s)
          (λ m. Moved (after_sync orden tarea photo s) orden m.orden)
          (tarea_tx env orden_id tarea_id dto editor orden tarea equipment_id photo)
  unfolding tarea_tx with_registro
  tarea_tx-Moved s orden tarea equipment_id photo found =
      Ensures-bind (mark_tarea-IsLike env orden_id tarea_id dto editor s photo) λ updated.
        Ensures-bind
          (Ensures-Keeps (
            issue_all-IsLike env orden_id tarea_id dto editor
              (marked env orden_id tarea_id dto editor photo s) _ _ _ _))
          λ events.
            Ensures-bind
              (Ensures-bind (Ensures-throw_where _ _) λ _. Ensures-modify λ u h.
                with_registro-IsLike (marked env orden_id tarea_id dto editor photo s) u orden tarea
                  h.0)
              λ _.
                Ensures-bind (move_if_pauta-Moved (after_sync orden tarea photo s) orden found)
                  λ o. Ensures-pure _ λ u h. h
