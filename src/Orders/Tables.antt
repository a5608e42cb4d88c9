-- ===== src/Orders/Tables.antt =====
-- The tables that a marking of a task reads and writes, step by step.
use smi_backend.Prelude.{
  ℕ, ◌≡◌, refl, ap, subst, ◌∙◌, true, Option, none, some, List, [], ◌∷◌, map, ◌==◌, arith,
}
use smi_backend.Prelude.Result.{Result, ok, err}
use smi_backend.Prelude.Handler.{
  or_throw, Keeps, Keeps-pure, Keeps-gets, Keeps-or_throw, Keeps-bind, OnOk, Ensures, Ensures-bind,
  Ensures-gets, Ensures-or_throw, Ensures-throw_if, Ensures-Keeps, Ensures-modify, Ensures-pure,
}
use smi_backend.Inventory.Stock.Types.{
  StockMovement, StockMovementInput, ItemLowStockEvent, StockError,
}
use smi_backend.Inventory.Stock.Tx.{TxState}
use smi_backend.Inventory.Stock.Moves.{apply_outgoing}
use smi_backend.Orders.Types.{
  orden_not_found, EstadoOt, pendiente, asignada, en_proceso, completada, cancelada, Orden, Tarea,
  Db, Insumo, ToggleTareaDto, Editor,
}
use smi_backend.Orders.Queries.{Env, find_orden_or_throw, same_estado}
use smi_backend.Orders.Tarea.{
  find_tarea, nuevo_estado, after_issue, issue_within, claimed_photo, claim_photo, stock_env,
  mark_row, mark_tarea, issue_all, read_tarea,
}

-- The tables that a marking reads or writes, beside those of the stock, are the same.
pub record IsLike (s u : Db) : Type 0 where
  pub ordenes : u.ordenes ≡ s.ordenes
  pub tareas : u.tareas ≡ s.tareas
  pub hallazgos : u.hallazgos ≡ s.hallazgos
  pub fleet : u.fleet ≡ s.fleet
  pub plan_items : u.plan_items ≡ s.plan_items
  pub records : u.records ≡ s.records

pub IsLike-refl : (s : Db) → IsLike s s
IsLike-refl s = record {
  ordenes = refl;
  tareas = refl;
  hallazgos = refl;
  fleet = refl;
  plan_items = refl;
  records = refl;
}

pub same_estado_sound : (a b : EstadoOt) → same_estado a b ≡ true → a ≡ b
same_estado_sound pendiente pendiente h = refl
same_estado_sound asignada asignada h = refl
same_estado_sound en_proceso en_proceso h = refl
same_estado_sound completada completada h = refl
same_estado_sound cancelada cancelada h = refl
same_estado_sound _ _ h = cc

pub other :
    {v s : Db} (t : Db)
    → IsLike v s
    → IsLike v (record t {
      ordenes = s.ordenes;
      tareas = s.tareas;
      hallazgos = s.hallazgos;
      fleet = s.fleet;
      plan_items = s.plan_items;
      records = s.records;
    })
other t h = record {
  ordenes = h.ordenes;
  tareas = h.tareas;
  hallazgos = h.hallazgos;
  fleet = h.fleet;
  plan_items = h.plan_items;
  records = h.records;
}

-- The state of an order after the automatic transition.
abbrev pub estado_or : EstadoOt → Option EstadoOt → EstadoOt
estado_or estado none = estado
estado_or estado (some e) = e

abbrev pub estado_tras : Option ℕ → List Tarea → EstadoOt → EstadoOt
estado_tras none tareas estado = estado
estado_tras (some cycle) tareas estado = estado_or estado (nuevo_estado tareas estado)

pub find_orden_or_throw-Found :
    (P : Db → Type 0) (id : ℕ)
    → Ensures P (λ o u. P u × (u.ordenes id ≡ some o)) (find_orden_or_throw id)
unfolding or_throw
find_orden_or_throw-Found P id =
    Ensures-bind Ensures-gets λ found. record { held = λ u h. at found u h }
  where
    at :
        (found : Option Orden) (u : Db)
        → P u × (u.ordenes id ≡ found)
        → OnOk (λ o v. P v × (v.ordenes id ≡ some o)) (or_throw found orden_not_found u)
    at none u h = tt
    at (some o) u h = h

module _ (env : Env) (orden_id tarea_id : ℕ) (dto : ToggleTareaDto) (editor : Editor) where
  -- What the request has read.
  pub record Read (s : Db) (r : Tarea × Orden × Option ℕ) : Type 0 where
    pub tarea_is : find_tarea tarea_id s ≡ some r.0
    pub belongs : (r.0.orden_id == orden_id) ≡ true
    pub orden_is : s.ordenes orden_id ≡ some r.1

  pub read_tarea-Read :
      (s : Db)
      → Ensures
          (λ u. u ≡ s)
          (λ r u. (u ≡ s) × Read s r)
          (read_tarea env orden_id tarea_id dto editor)
  read_tarea-Read s = Ensures-bind Ensures-gets λ found. Ensures-bind (Ensures-or_throw _ _) λ t.
      Ensures-bind (Ensures-throw_if _ _) λ _.
        Ensures-bind (find_orden_or_throw-Found _ orden_id) λ orden.
          Ensures-bind (Ensures-throw_if _ _) λ _. Ensures-bind Ensures-gets λ e.
            Ensures-pure _ λ u h.
              let same = h.0.0.0.0.0.0 in
              (
                same,
                record {
                  tarea_is =
                      subst (λ v. find_tarea tarea_id v ≡ some t) same
                        (h.0.0.0.0.0.1 ∙ h.0.0.0.0.1);
                  belongs = ground (arith, h.0.0.0.1);
                  orden_is = subst (λ v. v.ordenes orden_id ≡ some orden) same h.0.0.1;
                },
              )

  -- The photo, the supplies and the notices are in other tables.
  pub claim_photo-IsLike :
      (v : Db) (tmp : Option ℕ)
      → Keeps (IsLike v) (claim_photo env orden_id tarea_id dto editor tmp)
  claim_photo-IsLike v none = Keeps-pure
  claim_photo-IsLike v (some tmp) = record {
    held = λ s h. at s h (env.claim_tmp tmp editor.id s.bucket);
  }
    where
      at : (s : Db) → IsLike v s → (key : Option ℕ) → IsLike v (claimed_photo key s).1
      at s h none = h
      at s h (some key) = other (record s { bucket = key ∷ s.bucket }) h

  issue_within-IsLike :
      (v : Db) (input : StockMovementInput) (events : List ItemLowStockEvent)
      → Keeps (IsLike v) (issue_within env input events)
  unfolding issue_within
  issue_within-IsLike v input events = record {
    held = λ s h. at s h (
        apply_outgoing (stock_env env s) input
          (record { db = s.stock; events = events; locks = [] }));
  }
    where
      at :
          (s : Db)
          → IsLike v s
          → (r : Result StockError (StockMovement × TxState)) → IsLike v (after_issue s r).1
      at s h (ok (m, t)) = other (record s { stock = t.db }) h
      at s h (err e) = h

  pub issue_all-IsLike :
      (v : Db) (equipment_id : Option ℕ) (branch_id : ℕ) (is : List Insumo)
      (events : List ItemLowStockEvent)
      → Keeps
          (IsLike v)
          (issue_all env orden_id tarea_id dto editor equipment_id branch_id is events)
  issue_all-IsLike v equipment_id branch_id [] events = Keeps-pure
  issue_all-IsLike v equipment_id branch_id (i ∷ is) events =
      Keeps-bind (issue_within-IsLike v _ events)
        λ queued. issue_all-IsLike v equipment_id branch_id is queued

  -- The tables with the row of the task written, and with the record of the cycle.
  abbrev pub marked : Option ℕ → Db → Db
  marked photo s = record s {
    tareas = map (mark_row env orden_id tarea_id dto editor photo) s.tareas;
  }

  pub mark_tarea-IsLike :
      (v : Db) (photo : Option ℕ)
      → Ensures
          (IsLike v)
          (λ _. IsLike (marked photo v))
          (mark_tarea env orden_id tarea_id dto editor photo)
  mark_tarea-IsLike v photo = Ensures-bind (Ensures-Keeps Keeps-gets) λ found.
      Ensures-bind (Ensures-Keeps (Keeps-or_throw _ _)) λ t.
        Ensures-bind
          (Ensures-modify λ s h. record {
            ordenes = h.ordenes;
            tareas = ap (map (mark_row env orden_id tarea_id dto editor photo)) h.tareas;
            hallazgos = h.hallazgos;
            fleet = h.fleet;
            plan_items = h.plan_items;
            records = h.records;
          })
          λ _. Ensures-pure _ λ s h. h
