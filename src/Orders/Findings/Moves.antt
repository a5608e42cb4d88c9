-- ===== src/Orders/Findings/Moves.antt =====
-- A marking of a task is a step of the machine of every finding.
use smi_backend.Prelude.{
  ℕ, ◌≡◌, sym, ap, ◌∙◌, inl, inr, Bool, true, false, Option, none, some, ◌==◌, ==_iff, arith,
  Bool-cases, Option-cases,
}
use smi_backend.Orders.Types.{EstadoOt, Orden, Db, ToggleTareaDto, Editor}
use smi_backend.Orders.Queries.{Env, set_row}
use smi_backend.Orders.Tarea.{tareas_de}
use smi_backend.Orders.Registro.{with_registro}
use smi_backend.Orders.Effects.{Effect}
use smi_backend.Orders.Moved.{after_sync}
use smi_backend.Orders.Tables.{estado_tras}
use smi_backend.Orders.Findings.{Atencion, holds, attends, is_separate, Represents}

-- A table of orders with one row replaced.
pub replaced-attends :
    (t : ℕ → Option Orden) (id h : ℕ) (o : Orden) (p : ℕ → Bool)
    → attends h (some o) ≡ p id
    → ((k : ℕ) → (k == id) ≡ false → attends h (t k) ≡ p k)
    → (k : ℕ) → attends h (set_row id (some o) t k) ≡ p k
replaced-attends t id h o p e others k = elim (Bool-cases (k == id)) [
  | inl here ↦ rw here (e ∙ ap p (sym ((==_iff k id).0 here)))
  | inr there ↦ rw there (others k there)
]

pub replaced-separate :
    (t : ℕ → Option Orden) (id : ℕ) (o : Orden)
    → is_separate (some o) ≡ true
    → ((k : ℕ) → is_separate (t k) ≡ true)
    → (k : ℕ) → is_separate (set_row id (some o) t k) ≡ true
replaced-separate t id o e all k = elim (Bool-cases (k == id)) [
  | inl here ↦ rw here e
  | inr there ↦ rw there (all k)
]

module _ (env : Env) (orden_id tarea_id : ℕ) (dto : ToggleTareaDto) (editor : Editor) where
  -- A marking moves only orders of maintenance plans, which have no finding.
  moved_attends :
      (h : ℕ) (o left : Orden) (estado : EstadoOt)
      → is_separate (some o) ≡ true
      → left ≡ record o { estado = estado }
      → (o.pauta_cycle ≡ none → estado ≡ o.estado)
      → attends h (some left) ≡ attends h (some o)
  moved_attends h o left estado sep e stays = elim (Option-cases o.pauta_cycle) [
    | inl none_is ↦
        ap (λ x. attends h (some x)) (e ∙ ap (λ y. record o { estado = y }) (stays none_is))
    | inr (c, some_is) ↦ ap (λ x. attends h (some x)) e ∙ ground (arith, sep, some_is)
  ]

  pub Effect-Represents :
      (s u : Db) (h : ℕ) (a : Atencion)
      → Effect env orden_id tarea_id dto editor s u
      → Represents s h a
      → Represents u h a
  unfolding with_registro
  Effect-Represents s u h a e r =
      let before = e.read.orden_is in
      let sep : is_separate (some e.orden) ≡ true =
        ap is_separate (sym before) ∙ r.separate orden_id in
      record {
        row = r.row;
        row_is = ap (λ t. t h) e.moved.hallazgos_are ∙ r.row_is;
        estado_is = r.estado_is;
        orders_are = λ k.
            ap (attends h) (e.moved.ordenes_are k)
            ∙ replaced-attends s.ordenes orden_id h e.left (holds a)
                (moved_attends h e.orden e.left _ sep e.moved.orden_is (λ none_is.
                    ap
                      (λ c.
                        estado_tras c
                          (tareas_de orden_id
                            (after_sync env orden_id tarea_id dto editor e.orden e.tarea e.photo s))
                          e.orden.estado)
                      none_is)
                  ∙ ap (attends h) (sym before)
                  ∙ r.orders_are orden_id)
                (λ j _. r.orders_are j) k;
        separate = λ k.
            ap is_separate (e.moved.ordenes_are k)
            ∙ replaced-separate s.ordenes orden_id e.left
                (ap (λ x. is_separate (some x)) e.moved.orden_is ∙ sep) r.separate k;
      }
