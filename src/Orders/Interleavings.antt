-- ===== src/Orders/Interleavings.antt =====
-- Sequences of requests on orders, each with what others commit while it runs, as far down as one
-- likes: a request lets others in at the points that `create`, `update` and `updateTarea` name.
use smi_backend.Prelude.{ℕ, Option}
use smi_backend.Concurrency.Expected.{Fields}
use smi_backend.Concurrency.CreateOrReturn.Laws.{create_or_return-keeps}
use smi_backend.Orders.Types.{
  Db, CreateOrdenDto, CreateMantencionHistoricaDto, UpdateOrdenDto, ToggleTareaDto, Editor,
  id_conflict,
}
use smi_backend.Orders.Queries.{Env}
use smi_backend.Orders.Create.{create_fresh, find_existing, create_orden, create_historica}
use smi_backend.Orders.Update.{update_orden}
use smi_backend.Orders.Tarea.{update_tarea}
use smi_backend.Orders.Consistent.{IsConsistent}
use smi_backend.Orders.Keeps.{
  create_fresh-Keeps, create_historica-Keeps, update_orden-Keeps, update_tarea-Keeps,
}

mutual
  pub data Request : Type 0 where
    create_request : Env → CreateOrdenDto → ℕ → Requests → Request
    historica_request : Env → CreateMantencionHistoricaDto → ℕ → Request
    update_request : ℕ → UpdateOrdenDto → Option Fields → Requests → Request
    tarea_request : Env → ℕ → ℕ → ToggleTareaDto → Editor → Requests → Request

  pub data Requests : Type 0 where
    done : Requests
    and_then : Request → Requests → Requests

-- What a request leaves in the tables, and a sequence of them.
unfoldable mutual
  pub serve : Request → Db → Db
  serve (create_request env dto user meanwhile) s =
      (create_orden env dto user (λ t. serve_all meanwhile t) s).1
  serve (historica_request env dto user) s = (create_historica env dto user s).1
  serve (update_request id dto expected meanwhile) s =
      (update_orden id dto expected (λ t. serve_all meanwhile t) s).1
  serve (tarea_request env orden_id tarea_id dto editor inside) s =
      (update_tarea env orden_id tarea_id dto editor (λ t. serve_all inside t) s).1

  pub serve_all : Requests → Db → Db
  serve_all done s = s
  serve_all (and_then r rs) s = serve_all rs (serve r s)

mutual
  unfolding serve create_orden

  serve-IsConsistent : (r : Request) (s : Db) → IsConsistent s → IsConsistent (serve r s)
  serve-IsConsistent (create_request env dto user meanwhile) s h =
      create_or_return-keeps IsConsistent (find_existing) (create_fresh env dto user) dto.id user
        id_conflict (λ t. serve_all meanwhile t) s (create_fresh-Keeps env dto user).held
        (λ t v. serve_all-IsConsistent' meanwhile t v) h
  serve-IsConsistent (historica_request env dto user) s h =
      (create_historica-Keeps env dto user).held s h
  serve-IsConsistent (update_request id dto expected meanwhile) s h =
      (update_orden-Keeps id dto expected (λ t. serve_all meanwhile t)
          (λ t v. serve_all-IsConsistent' meanwhile t v)).held
        s h
  serve-IsConsistent (tarea_request env orden_id tarea_id dto editor inside) s h =
      (update_tarea-Keeps env orden_id tarea_id dto editor (λ t. serve_all inside t)
          (λ t v. serve_all-IsConsistent' inside t v)).held
        s h

  serve_all-IsConsistent' :
      (rs : Requests) (s : Db) → IsConsistent s → IsConsistent (serve_all rs s)
  serve_all-IsConsistent' done s h = h
  serve_all-IsConsistent' (and_then r rs) s h =
      serve_all-IsConsistent' rs (serve r s) (serve-IsConsistent r s h)

-- However requests on orders and their tasks interleave, from consistent tables the stock ledger stays
-- sound, and no two records of maintenance have one plan item, one cycle and one milestone.
pub serve_all-IsConsistent :
    (rs : Requests) (s : Db) → IsConsistent s → IsConsistent (serve_all rs s)
serve_all-IsConsistent = serve_all-IsConsistent'
