-- ===== src/Orders/Answering.antt =====
-- A marking of a task without a photo and without supplies answers, if its plan item still exists.
use smi_backend.Prelude.{
  ℕ, ◌≡◌, refl, sym, ap, subst, ◌∙◌, inl, inr, Bool, true, false, is_some, arith, Option-cases,
  Option, none, some, [], ◌==◌, find, Bool-cases,
}
use smi_backend.Prelude.Result.{ok}
use smi_backend.Prelude.Handler.{
  ◌>>=◌, or_throw, throw_if, Delivered, Delivers, Delivers-bind, Delivers-pure, Delivers-gets,
  Delivers-modify, Delivers-or_throw, Delivers-throw_if, Delivers-throw_where, Delivers-atomic,
  Delivers-catch, Delivers-Ensures,
}
use smi_backend.Orders.Types.{
  EstadoOt, Orden, Tarea, MaintenancePlanItem, Db, ToggleTareaDto, Editor,
}
use smi_backend.Orders.Queries.{Env, same_estado}
use smi_backend.Orders.Tarea.{
  find_tarea, nuevo_estado, move_orden, move_if_pauta, mark_tarea, read_tarea, tarea_tx, sign_photo,
  commit_tarea, update_tarea,
}
use smi_backend.Orders.Registro.{with_registro, names_no_item}
use smi_backend.Orders.Tables.{IsLike, marked, mark_tarea-IsLike, IsLike-refl}
use smi_backend.Orders.Effects.{Effect, commit_tarea-Effect}
use smi_backend.Orders.Moved.{after_sync, with_registro-IsLike}

-- The plan item that a task names has not been deleted.
abbrev pub has_item : (ℕ → Option MaintenancePlanItem) → Tarea → Bool
has_item plan_items t = elim t.plan_item_id [ none ↦ true | some p ↦ is_some (plan_items p) ]

has_item-names_item :
    (cycle milestone : Option ℕ) (t : Tarea) (done : Bool) (s : Db)
    → has_item s.plan_items t ≡ true
    → names_no_item cycle milestone t.plan_item_id done s ≡ false
has_item-names_item none m t done s h = refl
has_item-names_item (some c) none t done s h = refl
has_item-names_item (some c) (some m) t true s h = elim (Option-cases t.plan_item_id) [
  | inl absent ↦ rw absent refl
  | inr (p, given) ↦ ground (arith, given)
]
has_item-names_item (some c) (some m) t false s h = elim (Option-cases t.plan_item_id) [
  | inl absent ↦ rw absent refl
  | inr (p, given) ↦ rw given refl
]

module _ (env : Env) (orden_id tarea_id : ℕ) (dto : ToggleTareaDto) (editor : Editor)
    (no_photo : dto.foto_key ≡ none) (no_supplies : dto.insumos ≡ none)
    (signs : (key : ℕ) → env.signs key ≡ true) where
  -- The task is one of the order, and both are there.
  pub record IsThere (s : Db) : Type 0 where
    pub tarea : Tarea
    pub orden : Orden
    pub tarea_is : find_tarea tarea_id s ≡ some tarea
    pub belongs : (tarea.orden_id == orden_id) ≡ true
    pub orden_is : s.ordenes orden_id ≡ some orden
    pub item_is_there : has_item s.plan_items tarea ≡ true

  read_tarea-answers :
      (s : Db) (h : IsThere s)
      → read_tarea env orden_id tarea_id dto editor s ≡ (ok (h.tarea, h.orden, none), s)
  unfolding ◌>>=◌ or_throw throw_if
  read_tarea-answers s h =
      rw (h.tarea_is, or_throw, h.belongs, throw_if, h.orden_is, no_supplies) refl

  mark_tarea-answers :
      (s : Db) (h : IsThere s) (photo : Option ℕ)
      → Delivers
          (IsLike s)
          (λ _. IsLike (marked env orden_id tarea_id dto editor photo s))
          (mark_tarea env orden_id tarea_id dto editor photo)
  mark_tarea-answers s h photo =
      Delivers-Ensures
        (Delivers-bind Delivers-gets λ found.
          Delivers-bind
            (Delivers-or_throw found _ λ u k. (
              h.tarea,
              sym k.1 ∙ ap (find (λ (x : Tarea). x.id == tarea_id)) k.0.tareas ∙ h.tarea_is,
            ))
            λ t.
              Delivers-bind (Delivers-modify {Q = λ _. Unit {0}} λ u k. tt)
                λ _. Delivers-pure {Q = λ _ _. Unit {0}} _ λ u k. tt)
        (mark_tarea-IsLike env orden_id tarea_id dto editor s photo)

  move_orden-answers :
      (w : Db) (orden : Orden) (next : Option EstadoOt)
      → w.ordenes orden_id ≡ some orden
      → Delivers (IsLike w) (λ _ _. Unit {0}) (move_orden orden_id orden next)
  move_orden-answers w orden none found = Delivers-pure _ λ u k. tt
  move_orden-answers w orden (some e) found = elim (Bool-cases (same_estado e orden.estado)) [
    | inl same ↦ rw same (Delivers-pure _ λ u k. tt)
    | inr moves ↦ rw moves (
        Delivers-bind Delivers-gets λ o.
          Delivers-bind
            (Delivers-or_throw o _
              λ u k. (orden, sym k.1 ∙ ap (λ t. t orden_id) k.0.ordenes ∙ found))
            λ o'.
              Delivers-bind (Delivers-modify {Q = λ _. Unit {0}} λ u k. tt)
                λ _. Delivers-pure _ λ u k. tt)
  ]

  move_if_pauta-answers :
      (w : Db) (orden : Orden) (cycle : Option ℕ)
      → w.ordenes orden_id ≡ some orden
      → Delivers (IsLike w) (λ _ _. Unit {0}) (move_if_pauta orden_id orden cycle)
  move_if_pauta-answers w orden none found = Delivers-pure _ λ u k. tt
  move_if_pauta-answers w orden (some c) found = Delivers-bind Delivers-gets λ ts. record {
    held = λ u k. (move_orden-answers w orden (nuevo_estado ts orden.estado) found).held u k.0;
  }

  tarea_tx-answers :
      (s : Db) (h : IsThere s) (photo : Option ℕ)
      → Delivers
          (IsLike s)
          (λ _ _. Unit {0})
          (tarea_tx env orden_id tarea_id dto editor h.orden h.tarea none photo)
  unfolding tarea_tx with_registro
  tarea_tx-answers s h photo = Delivers-bind (mark_tarea-answers s h photo) λ updated.
      Delivers-bind (rw no_supplies (Delivers-pure [] λ u k. k)) λ events.
        Delivers-bind
          (Delivers-bind
            (Delivers-throw_where _ _ λ u k.
              has_item-names_item h.orden.pauta_cycle h.orden.pauta_milestone h.tarea dto.hecha u
                (ap (λ items. has_item items h.tarea) k.plan_items ∙ h.item_is_there))
            λ _.
              Delivers-modify
                {Q = IsLike (after_sync env orden_id tarea_id dto editor h.orden h.tarea photo s)}
                λ u k.
                  with_registro-IsLike env orden_id tarea_id dto editor
                    (marked env orden_id tarea_id dto editor photo s) u h.orden h.tarea k)
          λ _.
            Delivers-bind
              (move_if_pauta-answers
                (after_sync env orden_id tarea_id dto editor h.orden h.tarea photo s) h.orden
                h.orden.pauta_cycle h.orden_is)
              λ o. Delivers-pure _ λ u k. tt

  sign_photo-answers : (P : Db → Type 0) (key : Option ℕ) → Delivers P (λ _. P) (sign_photo env key)
  sign_photo-answers P none = Delivers-pure tt λ u k. k
  sign_photo-answers P (some key) = Delivers-throw_if _ _ (rw (signs key) refl)

  commit_tarea-answers :
      (s : Db)
      → IsThere s
      → Delivered
          (λ _. Effect env orden_id tarea_id dto editor s)
          (commit_tarea env orden_id tarea_id dto editor (λ u. u) s)
  unfolding commit_tarea
  commit_tarea-answers s h =
      (Delivers-Ensures
          (Delivers-bind {P = λ u. u ≡ s} {Q = λ r u. (u ≡ s) × (r ≡ (h.tarea, h.orden, none))}
            (record {
              held = λ u k. record {
                answer = (h.tarea, h.orden, none);
                state = s;
                answered =
                    ap (read_tarea env orden_id tarea_id dto editor) k ∙ read_tarea-answers s h;
                holds = (refl, refl);
              };
            })
            λ r.
              Delivers-bind {Q = λ photo u. (IsLike s u) × (r ≡ (h.tarea, h.orden, none))}
                (rw no_photo
                  (Delivers-pure none λ u k. (subst (IsLike s) (sym k.0) (IsLike-refl s), k.1)))
                λ photo. Delivers-bind (Delivers-modify λ u k. k) λ _.
                  Delivers-bind {Q = λ _ _. Unit {0}}
                    (Delivers-catch _ (
                      Delivers-atomic (record {
                        held = λ u k.
                            subst
                              (λ (x : Tarea × Orden × Option ℕ).
                                Delivered (λ _ _. Unit {0})
                                  (tarea_tx env orden_id tarea_id dto editor x.1 x.0 x.2 photo u))
                              (sym k.1) ((tarea_tx-answers s h photo).held u k.0);
                      })))
                    λ m. Delivers-bind (Delivers-modify {Q = λ _. Unit {0}} λ u k. tt) λ _.
                      Delivers-bind (Delivers-modify {Q = λ _. Unit {0}} λ u k. tt)
                        λ _. Delivers-pure {Q = λ _ _. Unit {0}} _ λ u k. tt)
          (commit_tarea-Effect env orden_id tarea_id dto editor s)).held
        s refl

  -- With no photo and no supplies a marking of a task that is there answers.
  pub update_tarea-answers :
      (s : Db)
      → IsThere s
      → Delivered
          (λ _. Effect env orden_id tarea_id dto editor s)
          (update_tarea env orden_id tarea_id dto editor (λ u. u) s)
  unfolding update_tarea
  update_tarea-answers s h =
      (Delivers-bind {P = λ u. u ≡ s} {Q = λ _. Effect env orden_id tarea_id dto editor s}
          (record {
            held = λ u k.
                subst
                  (λ v.
                    Delivered (λ _. Effect env orden_id tarea_id dto editor s)
                      (commit_tarea env orden_id tarea_id dto editor (λ u. u) v))
                  (sym k) (commit_tarea-answers s h);
          })
          λ t.
            Delivers-bind
              (sign_photo-answers (Effect env orden_id tarea_id dto editor s) t.foto_key)
              λ _. Delivers-pure t λ u k. k).held
        s refl
