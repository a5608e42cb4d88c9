-- ===== src/Orders/Findings/Updates.antt =====
-- An update of an order is a step of the machine of every finding.
use smi_backend.Prelude.{
  ℕ, ◌≡◌, refl, sym, ap, ◌∙◌, inl, inr, true, false, not, ◌&&◌, Option, none, some, ◌==◌, ==_iff,
  arith, opt_eq, Bool-cases, Option-cases,
}
use smi_backend.Orders.Types.{
  EstadoOt, completada, cancelada, pendiente, asignada, en_proceso, Orden, Db, UpdateOrdenDto,
}
use smi_backend.Orders.Queries.{
  same_estado, is_en_proceso, settled_hallazgo, estado_hallazgo, sync_linked, sync_hallazgo_estado,
}
use smi_backend.Orders.Tables.{same_estado_sound}
use smi_backend.Orders.Updating.{Updated}
use smi_backend.Orders.Findings.{
  Atencion, libre, tomado, resuelto, moves, given_up, after_move, estado_de, holds, is_finished,
  attends, is_separate, Represents, reopens_row,
}
use smi_backend.Orders.Findings.Steps.{Stepped, attends-unlinked}
use smi_backend.Orders.Findings.Moves.{replaced-attends, replaced-separate}

same_estado_refl : (e : EstadoOt) → same_estado e e ≡ true
same_estado_refl pendiente = refl
same_estado_refl asignada = refl
same_estado_refl en_proceso = refl
same_estado_refl completada = refl
same_estado_refl cancelada = refl

given_up_other : (id : ℕ) (to a : Atencion) → holds a id ≡ false → given_up id to a ≡ a
given_up_other id to libre h = refl
given_up_other id to (tomado o) h = rw h refl
given_up_other id to resuelto h = refl

of_holds : (a : Atencion) (id : ℕ) → holds a id ≡ true → a ≡ tomado id
of_holds libre id h = cc
of_holds (tomado o) id h = ap tomado (sym ((==_iff id o).0 h))
of_holds resuelto id h = cc

after_move_other :
    (id : ℕ) (e : EstadoOt) (a : Atencion)
    → (is_finished e ≡ true → holds a id ≡ false)
    → after_move id e a ≡ a
after_move_other id completada a h = given_up_other id resuelto a (h refl)
after_move_other id cancelada a h = given_up_other id libre a (h refl)
after_move_other id pendiente a h = refl
after_move_other id asignada a h = refl
after_move_other id en_proceso a h = refl

attends-finished : (h : ℕ) (o : Orden) → is_finished o.estado ≡ true → attends h (some o) ≡ false
attends-finished h o e = ground (arith, e)

estado_hallazgo-unfinished : (e : EstadoOt) → is_finished e ≡ false → estado_hallazgo e ≡ none
estado_hallazgo-unfinished completada h = cc
estado_hallazgo-unfinished cancelada h = cc
estado_hallazgo-unfinished pendiente h = refl
estado_hallazgo-unfinished asignada h = refl
estado_hallazgo-unfinished en_proceso h = refl

sync_linked-none : (link : Option ℕ) (s : Db) → sync_linked link none s ≡ s
sync_linked-none none s = refl
sync_linked-none (some id) s = refl

module _ (id : ℕ) (dto : UpdateOrdenDto) (s u : Db) (o : Orden) (h : ℕ) (a : Atencion)
    (c : Updated id dto s o u) (r : Represents s h a) where
  before_holds : attends h (some c.before) ≡ holds a id
  before_holds = ap (attends h) (sym c.before_is) ∙ r.orders_are id

  before_separate : is_separate (some o) ≡ true
  before_separate =
      ap (λ x. is_separate (some x)) c.row_is ∙ ap is_separate (sym c.before_is) ∙ r.separate id

  -- The machine stays where it is.
  stays :
      after_move id o.estado a ≡ a
      → (sync_hallazgo_estado o c.before.estado s).hallazgos h ≡ s.hallazgos h
      → attends h (some o) ≡ holds a id
      → Stepped h (moves id o.estado) a u
  stays still row at_id = (
    a,
    ap some still,
    record {
      row = r.row;
      row_is = ap (λ t. t h) c.hallazgos_are ∙ row ∙ r.row_is;
      estado_is = r.estado_is;
      orders_are = λ k.
          ap (λ t. attends h (t k)) c.ordenes_are
          ∙ replaced-attends s.ordenes id h o (holds a) at_id (λ j _. r.orders_are j) k;
      separate = λ k.
          ap (λ t. is_separate (t k)) c.ordenes_are
          ∙ replaced-separate s.ordenes id o before_separate r.separate k;
    },
  )

  -- The order that attends the finding gives it up.
  gives_up :
      (to : Atencion)
      → holds a id ≡ true
      → ((k : ℕ) → holds to k ≡ false)
      → after_move id o.estado a ≡ given_up id to a
      → (sync_hallazgo_estado o c.before.estado s).hallazgos h
        ≡ settled_hallazgo (estado_de to) (s.hallazgos h)
      → is_finished o.estado ≡ true
      → Stepped h (moves id o.estado) a u
  gives_up to holds_id empty moved row finished =
      let taken = of_holds a id holds_id in
      let busy : is_en_proceso r.row.estado ≡ true =
        ap is_en_proceso (r.estado_is ∙ ap estado_de taken) in
      (
        to,
        ap some (moved ∙ rw (taken, (==_iff id id).1 refl) refl),
        record {
          row = record r.row { estado = estado_de to };
          row_is = ap (λ t. t h) c.hallazgos_are ∙ row ∙ rw (r.row_is, busy) refl;
          estado_is = refl;
          orders_are = λ k.
              ap (λ t. attends h (t k)) c.ordenes_are
              ∙ replaced-attends s.ordenes id h o (holds to)
                  (attends-finished h o finished ∙ sym (empty id))
                  (λ j other. r.orders_are j ∙ ap (λ x. holds x j) taken ∙ other ∙ sym (empty j)) k;
          separate = λ k.
              ap (λ t. is_separate (t k)) c.ordenes_are
              ∙ replaced-separate s.ordenes id o before_separate r.separate k;
        },
      )

  same_estado-Stepped : o.estado ≡ c.before.estado → Stepped h (moves id o.estado) a u
  unfolding sync_hallazgo_estado
  same_estado-Stepped same =
      let kept : attends h (some o) ≡ holds a id =
        ap (λ x. attends h (some x)) c.row_is
        ∙ ap (λ e. opt_eq c.before.hallazgo_id (some h) && not (is_finished e))
            (sym (ap (λ (x : Orden). x.estado) c.row_is) ∙ same)
        ∙ before_holds in
      stays (after_move_other id o.estado a λ finished. sym kept ∙ attends-finished h o finished)
        (rw (sync_hallazgo_estado, same, same_estado_refl c.before.estado) refl) kept

  open_before :
      reopens_row dto (s.ordenes id) ≡ false
      → same_estado o.estado c.before.estado ≡ false
      → is_finished c.before.estado ≡ false
  open_before allowed crossed =
      let k = sym (ap (reopens_row dto) c.before_is) ∙ allowed in
      let crossed' =
        sym (ap (λ (x : Orden). same_estado x.estado c.before.estado) c.row_is) ∙ crossed in
      ground (arith, k, crossed')

  crossed_unfinished-Stepped :
      same_estado o.estado c.before.estado ≡ false
      → is_finished c.before.estado ≡ false
      → is_finished o.estado ≡ false
      → Stepped h (moves id o.estado) a u
  unfolding sync_hallazgo_estado
  crossed_unfinished-Stepped crossed was_open is_open =
      let linked : o.hallazgo_id ≡ c.before.hallazgo_id =
        ap (λ (x : Orden). x.hallazgo_id) c.row_is in
      stays (after_move_other id o.estado a λ finished. absurd (cc))
        (rw (sync_hallazgo_estado, crossed, estado_hallazgo-unfinished o.estado is_open)
          (ap (λ (x : Db). x.hallazgos h) (sync_linked-none o.hallazgo_id s)))
        (rw (linked, is_open) (rw was_open at before_holds))

  -- The finding of an order that is finished now.
  crossed_finished-Stepped :
      (to : Atencion)
      → same_estado o.estado c.before.estado ≡ false
      → is_finished c.before.estado ≡ false
      → is_finished o.estado ≡ true
      → ((k : ℕ) → holds to k ≡ false)
      → after_move id o.estado a ≡ given_up id to a
      → estado_hallazgo o.estado ≡ some (estado_de to)
      → Stepped h (moves id o.estado) a u
  unfolding sync_hallazgo_estado
  crossed_finished-Stepped to crossed was_open finished empty moved target =
      let linked : o.hallazgo_id ≡ c.before.hallazgo_id =
        ap (λ (x : Orden). x.hallazgo_id) c.row_is in
      let gone = attends-finished h o finished in
      let untouched : holds a id ≡ false
          → (sync_hallazgo_estado o c.before.estado s).hallazgos h ≡ s.hallazgos h
          → Stepped h (moves id o.estado) a u =
        λ free row. stays (moved ∙ given_up_other id to a free) row (gone ∙ sym free) in
      elim (Option-cases c.before.hallazgo_id) [
        | inl none_is ↦
            untouched (sym before_holds ∙ attends-unlinked h c.before none_is)
              (rw (sync_hallazgo_estado, crossed, linked ∙ none_is) refl)
        | inr (l, some_is) ↦
            let link : holds a id ≡ (l == h) =
              sym before_holds ∙ ground (arith, some_is, was_open) in
            elim (Bool-cases (l == h)) [
              | inl same ↦
                  gives_up to (link ∙ same) empty moved
                    (rw (sync_hallazgo_estado, crossed, linked ∙ some_is, target)
                      (rw ((==_iff l h).0 same, (==_iff h h).1 refl) refl))
                    finished
              | inr differs ↦
                  let other : (h == l) ≡ false = ground (arith, differs) in
                  untouched (link ∙ differs)
                    (rw (sync_hallazgo_estado, crossed, linked ∙ some_is, target, other) refl)
            ]
      ]

  -- An update that does not reopen a finished order.
  pub Updated-Stepped : reopens_row dto (s.ordenes id) ≡ false → Stepped h (moves id o.estado) a u
  Updated-Stepped allowed = elim (Bool-cases (same_estado o.estado c.before.estado)) [
    | inl same ↦ same_estado-Stepped (same_estado_sound o.estado c.before.estado same)
    | inr crossed ↦ at (open_before allowed crossed) crossed o.estado refl
  ]
    where
      at :
          is_finished c.before.estado ≡ false
          → same_estado o.estado c.before.estado ≡ false
          → (e : EstadoOt) → o.estado ≡ e
          → Stepped h (moves id o.estado) a u
      at was_open crossed completada is =
          crossed_finished-Stepped resuelto crossed was_open (ap is_finished is) (λ k. refl)
            (ap (λ e. after_move id e a) is) (ap estado_hallazgo is)
      at was_open crossed cancelada is =
          crossed_finished-Stepped libre crossed was_open (ap is_finished is) (λ k. refl)
            (ap (λ e. after_move id e a) is) (ap estado_hallazgo is)
      at was_open crossed pendiente is =
          crossed_unfinished-Stepped crossed was_open (ap is_finished is)
      at was_open crossed asignada is =
          crossed_unfinished-Stepped crossed was_open (ap is_finished is)
      at was_open crossed en_proceso is =
          crossed_unfinished-Stepped crossed was_open (ap is_finished is)
