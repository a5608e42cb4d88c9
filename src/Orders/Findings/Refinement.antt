-- ===== src/Orders/Findings/Refinement.antt =====
-- The requests on orders refine the machine of a finding.
use smi_backend.Prelude.{ℕ, ◌≡◌, refl, sym, ap, subst, ◌∙◌, false, some, List, [], ◌∷◌}
use smi_backend.Prelude.Result.{Result, ok, err}
use smi_backend.Prelude.Handler.{Outcome}
use smi_backend.Orders.Types.{Orden, Db, ToggleTareaDto, Editor, OrdenError}
use smi_backend.Orders.Queries.{Env}
use smi_backend.Orders.Create.{create_fresh, create_historica}
use smi_backend.Orders.Update.{update_orden}
use smi_backend.Orders.Tarea.{update_tarea}
use smi_backend.Orders.Rollback.{update_tarea-keeps}
use smi_backend.Orders.Updating.{update_orden-Updated}
use smi_backend.Orders.Creating.{create_fresh-Created, create_historica-Recorded}
use smi_backend.Orders.Findings.{
  takes, moves, nothing, Atencion, next_all, Represents, Request, create_request, historica_request,
  update_request, tarea_request, creation, movement, serve, serve_all, reopens, NeverReopens,
}
use smi_backend.Orders.Findings.Steps.{Stepped, Created-Stepped, Recorded-Stepped}
use smi_backend.Orders.Findings.Moves.{Effect-Represents}
use smi_backend.Orders.Findings.Updates.{Updated-Stepped}

module _ (h : ℕ) (a : Atencion) (s : Db) (r : Represents s h a) where
  unchanged : (u : Db) → u ≡ s → Stepped h nothing a u
  unchanged u e = (a, refl, subst (λ x. Represents x h a) (sym e) r)

  creation-Stepped :
      (Q : Orden → Db → Type 0)
      → ((o : Orden) (u : Db) → Q o u → Stepped h (takes o.hallazgo_id o.id) a u)
      → (x : Result OrdenError Orden × Db) → Outcome Q (λ u. u ≡ s) x
      → Stepped h (creation x).0 a (creation x).1
  creation-Stepped Q step (ok o, u) q = step o u q
  creation-Stepped Q step (err e, u) w = unchanged u w

  movement-Stepped :
      (id : ℕ) (Q : Orden → Db → Type 0)
      → ((o : Orden) (u : Db) → Q o u → Stepped h (moves id o.estado) a u)
      → (x : Result OrdenError Orden × Db) → Outcome Q (λ u. u ≡ s) x
      → Stepped h (movement id x).0 a (movement id x).1
  movement-Stepped id Q step (ok o, u) q = step o u q
  movement-Stepped id Q step (err e, u) w = unchanged u w

  tarea-Represents :
      (env : Env) (orden_id tarea_id : ℕ) (dto : ToggleTareaDto) (editor : Editor)
      → Represents (update_tarea env orden_id tarea_id dto editor (λ u. u) s).1 h a
  tarea-Represents env orden_id tarea_id dto editor =
      update_tarea-keeps env orden_id tarea_id dto editor (λ v. Represents v h a)
        (λ v bucket k. record {
          row = k.row;
          row_is = k.row_is;
          estado_is = k.estado_is;
          orders_are = k.orders_are;
          separate = k.separate;
        })
        s r (λ u q. Effect-Represents env orden_id tarea_id dto editor s u h a q r)

-- A request that does not reopen a finished order is a step of the machine.
serve-Stepped :
    (q : Request) (h : ℕ) (a : Atencion) (s : Db)
    → Represents s h a
    → reopens q s ≡ false
    → Stepped h (serve q s).0 a (serve q s).1
unfolding serve
serve-Stepped (create_request env dto user) h a s r allowed =
    creation-Stepped h a s r _ (λ o u c. Created-Stepped dto s u o h a c r)
      (create_fresh env dto user s) ((create_fresh-Created env dto user s).held s refl)
serve-Stepped (historica_request env dto user) h a s r allowed =
    creation-Stepped h a s r _ (λ o u c. Recorded-Stepped s u o h a c r)
      (create_historica env dto user s) ((create_historica-Recorded env dto user s).held s refl)
serve-Stepped (update_request id dto expected) h a s r allowed =
    movement-Stepped h a s r id _ (λ o u c. Updated-Stepped id dto s u o h a c r allowed)
      (update_orden id dto expected (λ u. u) s)
      ((update_orden-Updated id dto expected s).held s refl)
serve-Stepped (tarea_request env orden_id tarea_id dto editor) h a s r allowed =
    (a, refl, tarea-Represents h a s r env orden_id tarea_id dto editor)

-- From tables that stand for a state of a finding, requests on orders that come one after another and
-- never reopen a finished order refine the machine of the finding: whatever they answer, the machine
-- can make all of their actions, and the tables that they leave stand for the state that it is in then.
pub serve_all-Represents :
    (qs : List Request) (h : ℕ) (a : Atencion) (s : Db)
    → Represents s h a
    → NeverReopens qs s
    → (b : Atencion) × (next_all h (serve_all qs s).0 (some a) ≡ some b)
      × Represents (serve_all qs s).1 h b
unfolding serve_all next_all
serve_all-Represents [] h a s r allowed = (a, refl, r)
serve_all-Represents (q ∷ qs) h a s r allowed =
    let (b, step, r') = serve-Stepped q h a s r allowed.0 in
    let (c, steps, r'') = serve_all-Represents qs h b (serve q s).1 r' allowed.1 in
    (c, ap (next_all h (serve_all qs (serve q s).1).0) step ∙ steps, r'')
