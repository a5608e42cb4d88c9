-- ===== src/Orders/Tests.antt =====
-- The theorems on orders at concrete inputs: an order that is born of a finding, and an order of a
-- maintenance plan with two tasks.
use smi_backend.Prelude.{
  ℕ, ◌≡◌, refl, true, false, inl, inr, Option, none, some, List, [], ◌∷◌, ◌==◌, if◌then◌else◌,
  arith, length, includes, any, Bool-cases,
}
use smi_backend.Prelude.Int.{pos}
use smi_backend.Prelude.Result.{Result, ok, err}
use smi_backend.Prelude.Handler.{◌>>=◌, atomic, catch, throw_if, throw_where, or_throw, Delivered}
use smi_backend.Inventory.Stock.Types.{finite, purchase, Branch, StockMovementInput}
use smi_backend.Inventory.Stock.Queries as StockQueries
use smi_backend.Inventory.Stock.Service.{World, receive}
use smi_backend.Inventory.Stock.Moves.{apply_outgoing, apply_incoming}
use smi_backend.Inventory.Stock.Queries.{record_movement, queue_if_below_minimum}
use smi_backend.Inventory.Stock.Ledger.{IsSound}
use smi_backend.Inventory.Stock.Sound.{receive_call, perform_all, perform_all-IsSound}
use smi_backend.Orders.Types.{
  EstadoOt, cancelada, pendiente, completada, preventiva, preventivo, baja, equipo, abierto, Orden,
  Tarea, Db, CreateOrdenDto, UpdateOrdenDto, Insumo, ToggleTareaDto, Editor, OrdenError,
  plan_item_missing, photo_not_signed,
}
use smi_backend.Orders.Queries.{Env, emit_transicion_estado, sync_hallazgo_estado}
use smi_backend.Orders.Create.{create_fresh}
use smi_backend.Orders.Update.{update_orden, update_tx}
use smi_backend.Orders.Tarea.{tarea_tx, issue_within, commit_tarea, update_tarea, nuevo_estado}
use smi_backend.Orders.Registro.{is_record_of, with_registro}
use smi_backend.Orders.Consistent.{IsConsistent}
use smi_backend.Orders.Interleavings as Interleavings
use smi_backend.Orders.Interleavings.{serve_all-IsConsistent}
use smi_backend.Orders.Records.{update_tarea-unmark}
use smi_backend.Orders.Completion.{mark_all, IsCompletada, mark_all-IsCompletada}
use smi_backend.Orders.Findings.{
  attends, Atencion, libre, next_all, Represents, Request, create_request, update_request,
  serve_all, NeverReopens,
}
use smi_backend.Orders.Findings.Refinement.{serve_all-Represents}

abbrev stock_env : StockQueries.Env
stock_env = record {
  new_id = length;
  stock_sum = λ _ _. pos 0;
  nonce = 7;
  has_equipment = λ k. true;
}

abbrev env : Env
env = record {
  now = pos 1000;
  today = 20000;
  new_orden_id = λ s. 90;
  new_tarea_id = length;
  stock = stock_env;
  claim_tmp = λ tmp user bucket. if includes bucket tmp then none else some tmp;
  deletes = λ key. true;
  signs = λ key. true;
}

-- One branch that holds ten pieces of an item.
abbrev branches : ℕ → Option Branch
branches b = if b == 1 then some (record { name = "north"; is_active = true }) else none

abbrev purchased : StockMovementInput
purchased = record {
  id = none;
  item_id = 1;
  branch_id = 1;
  quantity = finite (pos 10);
  reason = purchase;
  performed_by_id = some 5;
  equipment_id = none;
  reference = none;
  document_number = none;
  notes = none;
}

abbrev no_stock : World
no_stock = record {
  db = record { items = λ i. some "oil"; branches = branches; stock = λ i b. none; movements = [] };
  emitted = [];
}

no_stock-IsSound : IsSound no_stock.db
no_stock-IsSound = record { nonneg = λ i b. omega arith; reconciled = λ i b. refl; audited = tt }

abbrev stocked : World
stocked = perform_all stock_env (receive_call purchased ∷ []) no_stock

abbrev the_orden : Orden
the_orden = record {
  id = 8;
  created_by_id = none;
  equipo_id = 3;
  asignado_a_id = none;
  hallazgo_id = none;
  titulo = [];
  estado = pendiente;
  prioridad = baja;
  tipo = preventiva;
  origen = preventivo;
  origen_detalle = none;
  pauta_milestone = some 250;
  pauta_cycle = some 1;
}

abbrev a_tarea : ℕ → Tarea
a_tarea id = record {
  id = id;
  orden_id = 8;
  texto = 65 ∷ [];
  hecha = false;
  posicion = 0;
  plan_item_id = some 40;
  notas = none;
  foto_key = none;
  hecha_por_nombre = none;
  hecha_at = none;
}

abbrev db : Db
db = record {
  ordenes = λ k. if k == 8 then some the_orden else none;
  tareas = a_tarea 1 ∷ a_tarea 2 ∷ [];
  hallazgos = λ k. if k == 6 then some (record { tipo = equipo; estado = abierto }) else none;
  fleet = [];
  plan_items =
      λ k. if k == 40 then some (record { description = 66 ∷ []; kind = "OTRO" }) else none;
  records = [];
  stock = stocked.db;
  bucket = [];
  low_stock = [];
  emitted = [];
}

abbrev editor : Editor
editor = record { id = 5; name = 77 ∷ [] }

-- A task that is done, with supplies or without.
abbrev done_with : Option (List Insumo) → Option ℕ → Option ℕ → ToggleTareaDto
done_with insumos branch photo = record {
  hecha = true;
  notas = some "done";
  foto_key = photo;
  insumos = insumos;
  branch_id = branch;
}

abbrev two_pieces : Option (List Insumo)
two_pieces = some (record { insumo_id = 1; cantidad = finite (pos 2) } ∷ [])

abbrev undone : ToggleTareaDto
undone = record { hecha = false; notas = none; foto_key = none; insumos = none; branch_id = none }

-- The plan item has been deleted, and the task still names it.
deleted_item :
    update_tarea env 8 1
      (done_with none none none)
      editor
      (λ u. u)
      (record db { plan_items = λ k. none })
    ≡ (err plan_item_missing, record db { plan_items = λ k. none })
unfolding update_tarea commit_tarea ◌>>=◌ atomic catch throw_where throw_if or_throw tarea_tx
deleted_item = refl

-- A photo that cannot be signed: the marking is refused after it has been made.
abbrev unsigning : Env
unsigning = record env { signs = λ key. false }

unsigned : update_tarea unsigning 8 1 (done_with none none (some 12)) editor (λ u. u) db ≡ (
  err photo_not_signed,
  (update_tarea env 8 1 (done_with none none (some 12)) editor (λ u. u) db).1,
)
unfolding update_tarea commit_tarea ◌>>=◌ atomic catch throw_where throw_if or_throw tarea_tx
    nuevo_estado with_registro emit_transicion_estado
unsigned = refl

consistent : IsConsistent db
consistent = record {
  sound = perform_all-IsSound stock_env (receive_call purchased ∷ []) no_stock no_stock-IsSound;
  distinct = refl;
}

-- A task is marked while another is marked with supplies.
abbrev interleaved : Interleavings.Requests
interleaved =
    Interleavings.and_then
      (Interleavings.tarea_request env 8 1 (done_with two_pieces (some 1) none) editor (
        Interleavings.and_then
          (Interleavings.tarea_request env 8 2 (done_with none none none) editor Interleavings.done)
          Interleavings.done))
      Interleavings.done

serve_all-IsConsistent_example : IsConsistent (Interleavings.serve_all interleaved db)
serve_all-IsConsistent_example = serve_all-IsConsistent interleaved db consistent

abbrev marking : Result OrdenError Tarea × Db
marking = update_tarea env 8 1 (done_with two_pieces (some 1) (some 12)) editor (λ u. u) db

abbrev row_or : Result OrdenError Tarea → Tarea
row_or (ok t) = t
row_or (err e) = a_tarea 0

marking-ok : marking ≡ (ok (row_or marking.0), marking.1)
unfolding update_tarea commit_tarea ◌>>=◌ atomic catch throw_where throw_if or_throw tarea_tx
    issue_within apply_outgoing receive apply_incoming record_movement queue_if_below_minimum
    nuevo_estado with_registro emit_transicion_estado
marking-ok = refl

abbrev unmarking : Result OrdenError Tarea × Db
unmarking = update_tarea env 8 1 undone editor (λ u. u) marking.1

unmarking-ok : unmarking ≡ (ok (row_or unmarking.0), unmarking.1)
unfolding update_tarea commit_tarea ◌>>=◌ atomic catch throw_where throw_if or_throw tarea_tx
    issue_within apply_outgoing receive apply_incoming record_movement queue_if_below_minimum
    nuevo_estado with_registro emit_transicion_estado
unmarking-ok = refl

update_tarea-unmark_example :
    (any (is_record_of 40 1 250) marking.1.records ≡ true) × (unmarking.1.records ≡ [])
update_tarea-unmark_example =
    update_tarea-unmark env env 8 1 (done_with two_pieces (some 1) (some 12)) undone editor editor
      db marking.1 unmarking.1 (row_or marking.0) (row_or unmarking.0) 40 1 250 refl refl
      (record {
        orden = the_orden;
        tarea = a_tarea 1;
        orden_is = refl;
        tarea_is = refl;
        cycle_is = refl;
        milestone_is = refl;
        plan_item_is = refl;
      })
      refl marking-ok unmarking-ok

mark_all-IsCompletada_example :
    Delivered
      (λ _. IsCompletada 8)
      (mark_all env 8 (done_with none none none) editor (2 ∷ 1 ∷ []) db)
mark_all-IsCompletada_example =
    mark_all-IsCompletada env 8 (done_with none none none) editor 2 (1 ∷ []) db refl refl refl
      (λ key. refl) (record { orden = the_orden; cycle = 1; orden_is = refl; cycle_is = refl }) refl
      (
        record { tarea = a_tarea 2; tarea_is = refl; belongs = refl },
        (record { tarea = a_tarea 1; tarea_is = refl; belongs = refl }, tt),
      )
      refl

-- An order that takes the finding, and then is completed.
abbrev from_finding : CreateOrdenDto
from_finding = record {
  id = some 9;
  equipo_id = 3;
  hallazgo_id = some 6;
  titulo = [];
  prioridad = none;
  tipo = none;
  origen = none;
  origen_detalle = none;
  asignado_a_id = none;
  tareas = none;
}

abbrev completing : UpdateOrdenDto
completing = record {
  estado = some completada;
  asignado_a_id = none;
  prioridad = none;
  titulo = none;
  equipment_status = none;
}

abbrev attending : List Request
attending = create_request env from_finding 5 ∷ update_request 9 completing none ∷ []

db-Represents : Represents db 6 libre
db-Represents = record {
  row = record { tipo = equipo; estado = abierto };
  row_is = refl;
  estado_is = refl;
  orders_are =
      λ k. elim (Bool-cases (k == 8)) [ inl here ↦ rw here refl | inr there ↦ rw there refl ];
  separate =
      λ k. elim (Bool-cases (k == 8)) [ inl here ↦ rw here refl | inr there ↦ rw there refl ];
}

attending-NeverReopens : NeverReopens attending db
unfolding serve_all create_fresh atomic ◌>>=◌ or_throw throw_if
attending-NeverReopens = (refl, (refl, tt))

serve_all-Represents_example :
    (b : Atencion) × (next_all 6 (serve_all attending db).0 (some libre) ≡ some b)
    × Represents (serve_all attending db).1 6 b
serve_all-Represents_example =
    serve_all-Represents attending 6 libre db db-Represents attending-NeverReopens

-- The finding is settled in the end.
attended : next_all 6 (serve_all attending db).0 (some libre) ≡ some Atencion.resuelto
unfolding serve_all next_all create_fresh atomic ◌>>=◌ or_throw throw_if update_orden update_tx
attended = refl

abbrev with_estado : EstadoOt → UpdateOrdenDto
with_estado e = record {
  estado = some e;
  asignado_a_id = none;
  prioridad = none;
  titulo = none;
  equipment_status = none;
}

-- An order that is cancelled and reopened does not take its finding again, so a second order may.
abbrev reopened : List Request
reopened =
    create_request env from_finding 5
    ∷ update_request 9 (with_estado cancelada) none
    ∷ update_request 9 (with_estado pendiente) none
    ∷ create_request env (record from_finding { id = some 10 }) 5
    ∷ []

two_orders :
    (attends 6 ((serve_all reopened db).1.ordenes 9) ≡ true)
    × (attends 6 ((serve_all reopened db).1.ordenes 10) ≡ true)
unfolding serve_all create_fresh atomic ◌>>=◌ or_throw throw_if update_orden update_tx
    sync_hallazgo_estado emit_transicion_estado
two_orders = (refl, refl)
