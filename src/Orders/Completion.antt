-- ===== src/Orders/Completion.antt =====
-- Marking the tasks of an order of a maintenance plan one after another.
use smi_backend.Prelude.{
  ℕ, ◌≡◌, refl, sym, ap, subst, ◌∙◌, true, Option, none, some, List, [], ◌∷◌, map, every, All,
  ==_iff, filter,
}
use smi_backend.Prelude.Result.{Result}
use smi_backend.Prelude.Handler.{continued, ◌>>=◌, ◌>>◌, pure, Delivered}
use smi_backend.Orders.Types.{completada, Orden, Db, ToggleTareaDto, Editor, OrdenError}
use smi_backend.Orders.Queries.{Env}
use smi_backend.Orders.Tarea.{mark_row, update_tarea}
use smi_backend.Orders.Registro.{with_registro}
use smi_backend.Orders.Effects.{Effect}
use smi_backend.Orders.Tables.{estado_tras, estado_or}
use smi_backend.Orders.Answering.{update_tarea-answers}
use smi_backend.Orders.Coverage.{
  is_of, is_covered, nuevo_estado-completada, IsTask, IsTask-mark_row, IsTask-all, cover-mark_row,
  is_planned, is_planned-has_item, is_planned-mark_row,
}

same_orden : (o : Option Orden) (a b : Orden) → o ≡ some a → o ≡ some b → a ≡ b
same_orden o a b h k = cc

-- The order is there, as one of a maintenance plan, in a state.
pub record IsPauta (orden_id : ℕ) (s : Db) : Type 0 where
  pub orden : Orden
  pub cycle : ℕ
  pub orden_is : s.ordenes orden_id ≡ some orden
  pub cycle_is : orden.pauta_cycle ≡ some cycle

-- The order is completed.
abbrev pub IsCompletada : ℕ → Db → Type 0
IsCompletada orden_id u = (o : Orden) × (u.ordenes orden_id ≡ some o) × (o.estado ≡ completada)

-- The storage signs every key.
abbrev pub SignsAll : Env → Type 0
SignsAll env = (key : ℕ) → env.signs key ≡ true

module _ (env : Env) (orden_id : ℕ) (dto : ToggleTareaDto) (editor : Editor) where
  -- Marking the tasks of the ids, in turn.
  unfoldable pub mark_all : List ℕ → Db → Result OrdenError (Unit {0}) × Db
  mark_all [] = pure tt
  mark_all (id ∷ ids) = update_tarea env orden_id id dto editor (λ u. u) >> mark_all ids

  Effect-IsPauta :
      (id : ℕ) (s u : Db)
      → IsPauta orden_id s
      → Effect env orden_id id dto editor s u
      → IsPauta orden_id u
  unfolding with_registro
  Effect-IsPauta id s u h e = record {
    orden = e.left;
    cycle = h.cycle;
    orden_is = e.moved.ordenes_are orden_id ∙ rw ((==_iff orden_id orden_id).1 refl) refl;
    cycle_is =
        ap (λ o. o.pauta_cycle) e.moved.orden_is
        ∙ ap (λ o. o.pauta_cycle)
            (same_orden (s.ordenes orden_id) e.orden h.orden e.read.orden_is h.orden_is)
        ∙ h.cycle_is;
  }

  Effect-IsCompletada :
      (id : ℕ) (s u : Db)
      → dto.hecha ≡ true
      → IsPauta orden_id s
      → every (is_covered orden_id (id ∷ [])) s.tareas ≡ true
      → IsTask orden_id s.tareas id
      → Effect env orden_id id dto editor s u
      → IsCompletada orden_id u
  unfolding with_registro
  Effect-IsCompletada id s u done h cover task e =
      let ts = map (mark_row env orden_id id dto editor e.photo) s.tareas in
      let task' = IsTask-mark_row env orden_id dto editor id e.photo s.tareas id task in
      let next =
        nuevo_estado-completada orden_id id ts task'.tarea e.orden.estado task'.tarea_is
          task'.belongs
          (cover-mark_row env orden_id dto editor done id [] e.photo s.tareas cover) in
      let cycle : e.orden.pauta_cycle ≡ some h.cycle =
        ap (λ o. o.pauta_cycle)
          (same_orden (s.ordenes orden_id) e.orden h.orden e.read.orden_is h.orden_is)
        ∙ h.cycle_is in
      (
        e.left,
        e.moved.ordenes_are orden_id ∙ rw ((==_iff orden_id orden_id).1 refl) refl,
        ap (λ o. o.estado) e.moved.orden_is
            ∙ ap (λ c. estado_tras c (filter (is_of orden_id) ts) e.orden.estado) cycle
            ∙ ap (estado_or e.orden.estado) next,
      )

  Effect-IsTask :
      (id : ℕ) (s u : Db) (ids : List ℕ)
      → Effect env orden_id id dto editor s u
      → All (IsTask orden_id s.tareas) ids
      → All (IsTask orden_id u.tareas) ids
  unfolding with_registro
  Effect-IsTask id s u ids e h =
      subst (λ ts. All (IsTask orden_id ts) ids) (sym e.moved.tareas_are)
        (IsTask-all env orden_id dto editor id e.photo s.tareas ids h)

  Effect-is_covered :
      (id : ℕ) (s u : Db) (ids : List ℕ)
      → dto.hecha ≡ true
      → Effect env orden_id id dto editor s u
      → every (is_covered orden_id (id ∷ ids)) s.tareas ≡ true
      → every (is_covered orden_id ids) u.tareas ≡ true
  unfolding with_registro
  Effect-is_covered id s u ids done e h =
      ap (every (is_covered orden_id ids)) e.moved.tareas_are
      ∙ cover-mark_row env orden_id dto editor done id ids e.photo s.tareas h

  Effect-is_planned :
      (id : ℕ) (s u : Db)
      → Effect env orden_id id dto editor s u
      → every (is_planned orden_id s.plan_items) s.tareas ≡ true
      → every (is_planned orden_id u.plan_items) u.tareas ≡ true
  unfolding with_registro
  Effect-is_planned id s u e h =
      ap (λ items. every (is_planned orden_id items) u.tareas) e.moved.plan_items_are
      ∙ ap (every (is_planned orden_id s.plan_items)) e.moved.tareas_are
      ∙ is_planned-mark_row env orden_id id dto editor e.photo s.plan_items s.tareas h

  mark_one :
      (id : ℕ) (s : Db)
      → dto.foto_key ≡ none
      → dto.insumos ≡ none
      → SignsAll env
      → IsPauta orden_id s
      → IsTask orden_id s.tareas id
      → every (is_planned orden_id s.plan_items) s.tareas ≡ true
      → Delivered
          (λ _. Effect env orden_id id dto editor s)
          (update_tarea env orden_id id dto editor (λ u. u) s)
  mark_one id s no_photo no_supplies signs h task planned =
      update_tarea-answers env orden_id id dto editor no_photo no_supplies signs s (record {
        tarea = task.tarea;
        orden = h.orden;
        tarea_is = task.tarea_is;
        belongs = task.belongs;
        orden_is = h.orden_is;
        item_is_there =
            is_planned-has_item orden_id id s.plan_items s.tareas task.tarea task.tarea_is
              task.belongs planned;
      })

  -- If a list of ids names tasks of an order of a maintenance plan, all of its tasks that are not done
  -- are among them, no plan item that a task of the order names has been deleted, and the storage signs
  -- every photo, then marking the tasks of the ids as done, one after another and without
  -- photos or supplies, never fails and leaves the order completed.
  pub mark_all-IsCompletada :
      (id : ℕ) (ids : List ℕ) (s : Db)
      → dto.hecha ≡ true
      → dto.foto_key ≡ none
      → dto.insumos ≡ none
      → SignsAll env
      → IsPauta orden_id s
      → every (is_planned orden_id s.plan_items) s.tareas ≡ true
      → All (IsTask orden_id s.tareas) (id ∷ ids)
      → every (is_covered orden_id (id ∷ ids)) s.tareas ≡ true
      → Delivered (λ _. IsCompletada orden_id) (mark_all (id ∷ ids) s)
  unfolding mark_all ◌>>=◌
  mark_all-IsCompletada id [] s done no_photo no_supplies signs h planned tasks cover =
      let d = mark_one id s no_photo no_supplies signs h tasks.0 planned in
      record {
        answer = tt;
        state = d.state;
        answered = ap (λ r. continued r (λ _. mark_all [])) d.answered;
        holds = Effect-IsCompletada id s d.state done h cover tasks.0 d.holds;
      }
  mark_all-IsCompletada id (next ∷ ids) s done no_photo no_supplies signs h planned tasks cover =
      let d = mark_one id s no_photo no_supplies signs h tasks.0 planned in
      let rest =
        mark_all-IsCompletada next ids d.state done no_photo no_supplies signs
          (Effect-IsPauta id s d.state h d.holds) (Effect-is_planned id s d.state d.holds planned)
          (Effect-IsTask id s d.state (next ∷ ids) d.holds tasks.1)
          (Effect-is_covered id s d.state (next ∷ ids) done d.holds cover) in
      record {
        answer = rest.answer;
        state = rest.state;
        answered = ap (λ r. continued r (λ _. mark_all (next ∷ ids))) d.answered ∙ rest.answered;
        holds = rest.holds;
      }
