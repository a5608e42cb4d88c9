-- ===== src/Orders/Effects.antt =====
-- What a marking of a task that answers has made of the tables, if no other request comes between.
use smi_backend.Prelude.{ℕ, ◌≡◌, sym, subst, inl, inr, Option, none, some, List, ◌++◌, Bool-cases}
use smi_backend.Prelude.Handler.{
  modify, Keeps, Keeps-pure, Keeps-throw_if, Keeps-modify, Ensures, Ensures-bind, Ensures-Keeps,
  Ensures-modify, Ensures-pure, Ensures-atomic, Ensures-catch, Ensures-given, Answers-bind,
  Answers-throw,
}
use smi_backend.Inventory.Stock.Types.{ItemLowStockEvent}
use smi_backend.Orders.Types.{EstadoOt, Orden, Tarea, Db, ToggleTareaDto, Editor, OrdenEvent}
use smi_backend.Orders.Queries.{Env, same_estado, emit_event, event_of, emit_transicion_estado}
use smi_backend.Orders.Tarea.{claim_photo, discard_photo, sign_photo, commit_tarea, update_tarea}
use smi_backend.Orders.Tables.{IsLike, IsLike-refl, Read, read_tarea-Read, claim_photo-IsLike}
use smi_backend.Orders.Moved.{Moved, after_sync, tarea_tx-Moved}

module _ (env : Env) (orden_id tarea_id : ℕ) (dto : ToggleTareaDto) (editor : Editor) where
  pub claim_photo-Like :
      (s : Db) (tmp : Option ℕ)
      → Ensures (λ u. u ≡ s) (λ _. IsLike s) (claim_photo env orden_id tarea_id dto editor tmp)
  claim_photo-Like s tmp = record {
    held = λ u h.
        (Ensures-Keeps (claim_photo-IsLike env orden_id tarea_id dto editor s tmp)).held u
          (subst (IsLike s) (sym h) (IsLike-refl s));
  }

  -- What a marking that answers has made of the tables `s`.
  pub record Effect (s u : Db) : Type 0 where
    pub tarea : Tarea
    pub orden : Orden
    pub equipment_id : Option ℕ
    pub photo : Option ℕ
    pub left : Orden
    pub read : Read env orden_id tarea_id dto editor s (tarea, orden, equipment_id)
    pub moved :
        Moved env orden_id tarea_id dto editor
          (after_sync env orden_id tarea_id dto editor orden tarea photo s)
          orden
          left
          u

  low_stock-Moved :
      (w u : Db) (orden o : Orden) (events : List ItemLowStockEvent)
      → Moved env orden_id tarea_id dto editor w orden o u
      → Moved env orden_id tarea_id dto editor w orden o
          (record u { low_stock = u.low_stock ++ events })
  low_stock-Moved w u orden o events h = record {
    orden_is = h.orden_is;
    ordenes_are = h.ordenes_are;
    tareas_are = h.tareas_are;
    hallazgos_are = h.hallazgos_are;
    records_are = h.records_are;
    plan_items_are = h.plan_items_are;
  }

  emit_transicion_estado-Moved :
      (w u : Db) (orden o : Orden) (anterior : EstadoOt)
      → Moved env orden_id tarea_id dto editor w orden o u
      → Moved env orden_id tarea_id dto editor w orden o (emit_transicion_estado anterior o u)
  unfolding emit_transicion_estado
  emit_transicion_estado-Moved w u orden o anterior h =
      elim (Bool-cases (same_estado o.estado anterior)) [
        | inl same ↦ rw (emit_transicion_estado, same) h
        | inr crossed ↦ rw (emit_transicion_estado, crossed) (at (event_of o o.estado))
      ]
    where
      at :
          (e : Option OrdenEvent)
          → Moved env orden_id tarea_id dto editor w orden o (emit_event e u)
      at none = h
      at (some e) = record {
        orden_is = h.orden_is;
        ordenes_are = h.ordenes_are;
        tareas_are = h.tareas_are;
        hallazgos_are = h.hallazgos_are;
        records_are = h.records_are;
        plan_items_are = h.plan_items_are;
      }

  pub commit_tarea-Effect :
      (s : Db)
      → Ensures
          (λ u. u ≡ s)
          (λ _. Effect s)
          (commit_tarea env orden_id tarea_id dto editor (λ u. u))
  unfolding commit_tarea
  commit_tarea-Effect s = Ensures-bind (read_tarea-Read env orden_id tarea_id dto editor s) λ r.
      Ensures-bind
        (Ensures-given
          (λ (_ : Read env orden_id tarea_id dto editor s r). claim_photo-Like s dto.foto_key))
        λ photo. Ensures-bind (Ensures-modify λ u h. h) λ _.
          Ensures-bind
            (Ensures-catch
              (Ensures-atomic (
                Ensures-given λ k.
                  tarea_tx-Moved env orden_id tarea_id dto editor s r.1 r.0 r.2 photo k.orden_is))
              λ e. Answers-bind (modify (discard_photo env photo)) λ _. Answers-throw)
            λ m.
              Ensures-bind
                (Ensures-Keeps (
                  Keeps-modify λ u h. (
                    low_stock-Moved (after_sync env orden_id tarea_id dto editor r.1 r.0 photo s) u
                        r.1 m.orden m.events h.0,
                    h.1,
                  )))
                λ _.
                  Ensures-bind
                    (Ensures-Keeps (
                      Keeps-modify λ u h. (
                        emit_transicion_estado-Moved
                            (after_sync env orden_id tarea_id dto editor r.1 r.0 photo s) u r.1
                            m.orden r.1.estado h.0,
                        h.1,
                      )))
                    λ _. Ensures-pure _ λ u h. record {
                      tarea = r.0;
                      orden = r.1;
                      equipment_id = r.2;
                      photo = photo;
                      left = m.orden;
                      read = h.1;
                      moved = h.0;
                    }

  pub sign_photo-Keeps : (P : Db → Type 0) (key : Option ℕ) → Keeps P (sign_photo env key)
  sign_photo-Keeps P none = Keeps-pure
  sign_photo-Keeps P (some key) = Keeps-throw_if _ _

  pub update_tarea-Effect :
      (s : Db)
      → Ensures
          (λ u. u ≡ s)
          (λ _. Effect s)
          (update_tarea env orden_id tarea_id dto editor (λ u. u))
  unfolding update_tarea
  update_tarea-Effect s = Ensures-bind (commit_tarea-Effect s) λ t.
      Ensures-bind (Ensures-Keeps (sign_photo-Keeps (Effect s) t.foto_key))
        λ _. Ensures-pure _ λ u h. h
