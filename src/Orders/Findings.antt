-- ===== src/Orders/Findings.antt =====
-- The attention that a finding gets, as an abstract machine, and the tables that stand for its states.
pub mod Steps
pub mod Moves
pub mod Updates
pub mod Refinement
use smi_backend.Prelude.{
  ℕ, ◌≡◌, Bool, true, false, not, ◌&&◌, ◌||◌, Option, none, some, List, [], ◌∷◌, ◌==◌,
  if◌then◌else◌, is_some, opt_eq, or_default,
}
use smi_backend.Prelude.Result.{Result, ok, err}
use smi_backend.Concurrency.Expected.{Fields}
use smi_backend.Orders.Types.{
  EstadoOt, completada, cancelada, EstadoHallazgo, abierto, cerrado, Orden, Tarea, Hallazgo, Db,
  CreateOrdenDto, CreateMantencionHistoricaDto, UpdateOrdenDto, ToggleTareaDto, Editor, OrdenError,
}
use smi_backend.Orders.Queries.{Env, same_estado}
use smi_backend.Orders.Create.{create_fresh, create_historica}
use smi_backend.Orders.Update.{update_orden}
use smi_backend.Orders.Tarea.{update_tarea}

-- Nobody attends the finding, an order does, or it is settled.
pub data Atencion : Type 0 where
  libre : Atencion
  tomado : ℕ → Atencion
  resuelto : Atencion

-- What a request does to the findings: a new order takes one or none, an order gets a state, or nothing.
pub data Action : Type 0 where
  takes : Option ℕ → ℕ → Action
  moves : ℕ → EstadoOt → Action
  nothing : Action

-- Only a finding that nobody attends can be taken.
abbrev pub taken_by : ℕ → Atencion → Option Atencion
taken_by orden libre = some (tomado orden)
taken_by orden (tomado other) = none
taken_by orden resuelto = none

-- The order that attends the finding gives it up.
abbrev pub given_up : ℕ → Atencion → Atencion → Atencion
given_up orden to libre = libre
given_up orden to (tomado other) = if orden == other then to else tomado other
given_up orden to resuelto = resuelto

abbrev pub after_move : ℕ → EstadoOt → Atencion → Atencion
after_move orden completada a = given_up orden resuelto a
after_move orden cancelada a = given_up orden libre a
after_move orden _ a = a

-- The machine of one finding; a missing state means that the action is not possible.
abbrev pub next : ℕ → Action → Atencion → Option Atencion
next hallazgo (takes none orden) a = some a
next hallazgo (takes (some id) orden) a = if id == hallazgo then taken_by orden a else some a
next hallazgo (moves orden estado) a = some (after_move orden estado a)
next hallazgo nothing a = some a

-- A sequence of actions, from a state that may be missing.
unfoldable pub next_all : ℕ → List Action → Option Atencion → Option Atencion
next_all hallazgo xs none = none
next_all hallazgo [] (some a) = some a
next_all hallazgo (x ∷ xs) (some a) = next_all hallazgo xs (next hallazgo x a)

-- The state of the row of the finding, and the order that attends it.
abbrev pub estado_de : Atencion → EstadoHallazgo
estado_de libre = abierto
estado_de (tomado orden) = EstadoHallazgo.en_proceso
estado_de resuelto = cerrado

abbrev pub holds : Atencion → ℕ → Bool
holds libre k = false
holds (tomado orden) k = k == orden
holds resuelto k = false

abbrev pub is_finished : EstadoOt → Bool
is_finished completada = true
is_finished cancelada = true
is_finished _ = false

-- An order of the finding that is neither completed nor cancelled.
abbrev pub attends : ℕ → Option Orden → Bool
attends hallazgo none = false
attends hallazgo (some o) = opt_eq o.hallazgo_id (some hallazgo) && not (is_finished o.estado)

-- An order of a maintenance plan has no finding.
abbrev pub is_separate : Option Orden → Bool
is_separate none = true
is_separate (some o) = not (is_some o.pauta_cycle) || not (is_some o.hallazgo_id)

-- The tables stand for a state of the machine: the row of the finding has the state, and exactly the
-- order that attends it is one of the finding's that is not finished.
pub record Represents (s : Db) (hallazgo : ℕ) (a : Atencion) : Type 0 where
  pub row : Hallazgo
  pub row_is : s.hallazgos hallazgo ≡ some row
  pub estado_is : row.estado ≡ estado_de a
  pub orders_are : (k : ℕ) → attends hallazgo (s.ordenes k) ≡ holds a k
  pub separate : (k : ℕ) → is_separate (s.ordenes k) ≡ true

-- A request that no other comes between; of a creation, what follows the lookup of its id.
pub data Request : Type 0 where
  create_request : Env → CreateOrdenDto → ℕ → Request
  historica_request : Env → CreateMantencionHistoricaDto → ℕ → Request
  update_request : ℕ → UpdateOrdenDto → Option Fields → Request
  tarea_request : Env → ℕ → ℕ → ToggleTareaDto → Editor → Request

abbrev pub creation : Result OrdenError Orden × Db → Action × Db
creation (ok o, s) = (takes o.hallazgo_id o.id, s)
creation (err e, s) = (nothing, s)

abbrev pub movement : ℕ → Result OrdenError Orden × Db → Action × Db
movement id (ok o, s) = (moves id o.estado, s)
movement id (err e, s) = (nothing, s)

abbrev pub no_action : {A : Type 0} → Result OrdenError A × Db → Action × Db
no_action r = (nothing, r.1)

-- What a request does, and what it leaves.
unfoldable pub serve : Request → Db → Action × Db
serve (create_request env dto user) s = creation (create_fresh env dto user s)
serve (historica_request env dto user) s = creation (create_historica env dto user s)
serve (update_request id dto expected) s = movement id (update_orden id dto expected (λ u. u) s)
serve (tarea_request env orden_id tarea_id dto editor) s =
    no_action (update_tarea env orden_id tarea_id dto editor (λ u. u) s)

unfoldable pub serve_all : List Request → Db → List Action × Db
unfolding serve
serve_all [] s = ([], s)
serve_all (r ∷ rs) s = let rest = serve_all rs (serve r s).1 in ((serve r s).0 ∷ rest.0, rest.1)

abbrev pub reopens_row : UpdateOrdenDto → Option Orden → Bool
reopens_row dto none = false
reopens_row dto (some o) =
    is_finished o.estado && not (same_estado (or_default dto.estado o.estado) o.estado)

-- The request gives a finished order another state.
abbrev pub reopens : Request → Db → Bool
reopens (update_request id dto expected) s = reopens_row dto (s.ordenes id)
reopens _ s = false

-- None of the requests, when it is served, does so.
abbrev pub NeverReopens : List Request → Db → Type 0
NeverReopens [] s = Unit
NeverReopens (r ∷ rs) s = (reopens r s ≡ false) × NeverReopens rs (serve r s).1
