-- ===== src/Orders/Updating.antt =====
-- What an update of an order leaves, if no other request comes between.
use smi_backend.Prelude.{
  ℕ, ◌≡◌, refl, sym, ap, subst, ◌∙◌, inl, inr, Option, none, some, Bool-cases, List,
}
use smi_backend.Prelude.Handler.{
  or_throw, Keeps, Keeps-pure, Keeps-bind, Keeps-gets, Keeps-reads, Keeps-modify, Keeps-or_throw,
  Keeps-throw_if, Keeps-throw_where, OnOk, Ensures, Ensures-bind, Ensures-gets, Ensures-Keeps,
  Ensures-modify, Ensures-pure, Settles, Settles-bind, Settles-Keeps, Settles-atomic,
  Settles-modify, Settles-pure,
}
use smi_backend.Concurrency.Expected.{Fields}
use smi_backend.Shifts.Types.{EquipmentStatus}
use smi_backend.Orders.Types.{
  EstadoOt, EstadoHallazgo, Orden, FleetEquipment, Db, UpdateOrdenDto, OrdenEvent, row_missing,
  orden_not_found,
}
use smi_backend.Orders.Queries.{
  same_estado, set_row, set_orden, sync_linked, estado_hallazgo, sync_hallazgo_estado, emit_event,
  event_of, emit_transicion_estado,
}
use smi_backend.Orders.Tables.{find_orden_or_throw-Found}
use smi_backend.Orders.Update.{
  updated_row, write_orden, apply_equipment_status, locked_orden, write_all, update_tx,
  update_orden,
}

-- What an update that answers with `o` has made of the tables `s`.
pub record Updated (id : ℕ) (dto : UpdateOrdenDto) (s : Db) (o : Orden) (u : Db) : Type 0 where
  pub before : Orden
  pub before_is : s.ordenes id ≡ some before
  pub row_is : o ≡ updated_row dto before
  pub ordenes_are : u.ordenes ≡ set_row id (some o) s.ordenes
  pub hallazgos_are : u.hallazgos ≡ (sync_hallazgo_estado o before.estado s).hallazgos

sync_hallazgo_estado-tables :
    (o : Orden) (anterior : EstadoOt) (s t : Db)
    → t.hallazgos ≡ s.hallazgos
    → ((sync_hallazgo_estado o anterior t).ordenes ≡ t.ordenes)
      × ((sync_hallazgo_estado o anterior t).hallazgos
          ≡ (sync_hallazgo_estado o anterior s).hallazgos)
unfolding sync_hallazgo_estado
sync_hallazgo_estado-tables o anterior s t h = elim (Bool-cases (same_estado o.estado anterior)) [
  | inl same ↦ (rw (sync_hallazgo_estado, same) refl, rw (sync_hallazgo_estado, same) h)
  | inr crossed ↦ rw (sync_hallazgo_estado, crossed) (at o.hallazgo_id (estado_hallazgo o.estado))
]
  where
    at :
        (id : Option ℕ) (to : Option EstadoHallazgo)
        → ((sync_linked id to t).ordenes ≡ t.ordenes)
          × ((sync_linked id to t).hallazgos ≡ (sync_linked id to s).hallazgos)
    at (some id) (some to) = (refl, rw h refl)
    at none to = (refl, h)
    at (some id) none = (refl, h)

module _ (id : ℕ) (dto : UpdateOrdenDto) (s : Db) (before : Orden)
    (before_is : s.ordenes id ≡ some before) where
  -- The tables with the order written.
  abbrev written : Db
  written = set_orden id (updated_row dto before) s

  found_before : (u : Db) → u ≡ s → (o : Option Orden) → u.ordenes id ≡ o → o ≡ some before
  found_before u same o e = sym e ∙ ap (λ (v : Db). v.ordenes id) same ∙ before_is

  write_orden-written :
      Ensures
        (λ u. u ≡ s)
        (λ o u. (o ≡ updated_row dto before) × (u ≡ written))
        (write_orden id dto)
  unfolding or_throw
  write_orden-written = Ensures-bind Ensures-gets λ found.
      Ensures-bind {Q = λ o u. (u ≡ s) × (o ≡ before)}
        (record { held = λ u k. at u k.0 found (found_before u k.0 found k.1) })
        λ o.
          Ensures-bind
            (Ensures-modify {Q = λ u. (o ≡ before) × (u ≡ written)}
              λ u k. (k.1, rw (k.0, k.1) refl))
            λ _. Ensures-pure _ λ u k. (ap (updated_row dto) k.0, k.1)
    where
      at :
          (u : Db)
          → u ≡ s
          → (o : Option Orden) → o ≡ some before
          → OnOk (λ a v. (v ≡ s) × (a ≡ before)) (or_throw o row_missing u)
      at u k none e = absurd (cc)
      at u k (some a) e = (k, cc)

  apply_equipment_status-Keeps :
      (P : Db → Type 0)
      → ((u : Db) (fleet : List FleetEquipment) → P u → P (record u { fleet = fleet }))
      → (status : Option EquipmentStatus) (e : Option ℕ) → Keeps P (apply_equipment_status status e)
  apply_equipment_status-Keeps P other (some status) (some e) =
      Keeps-bind (Keeps-throw_where _ _) λ _. Keeps-modify λ u p. other u _ p
  apply_equipment_status-Keeps P other none e = Keeps-pure
  apply_equipment_status-Keeps P other (some status) none = Keeps-pure

  write_all-Updated :
      (equipment_id : Option ℕ) (anterior : EstadoOt)
      → anterior ≡ before.estado
      → Ensures (λ u. u ≡ s) (Updated id dto s) (write_all id dto equipment_id anterior)
  write_all-Updated equipment_id anterior same = Ensures-bind write_orden-written λ o.
      Ensures-bind
        (Ensures-modify {Q = Updated id dto s o} λ u k.
          let (a, b) =
            sync_hallazgo_estado-tables o before.estado s u (ap (λ (v : Db). v.hallazgos) k.1) in
          rw same (record {
            before = before;
            before_is = before_is;
            row_is = k.0;
            ordenes_are = a ∙ ap (λ (v : Db). v.ordenes) k.1 ∙ rw k.0 refl;
            hallazgos_are = b;
          }))
        λ _.
          Ensures-bind
            (Ensures-Keeps (
              apply_equipment_status-Keeps (Updated id dto s o)
                (λ u fleet h. record {
                  before = h.before;
                  before_is = h.before_is;
                  row_is = h.row_is;
                  ordenes_are = h.ordenes_are;
                  hallazgos_are = h.hallazgos_are;
                })
                dto.equipment_status equipment_id))
            λ _. Ensures-pure o λ u k. k

  locked_orden-before :
      (expected : Fields)
      → Ensures (λ u. u ≡ s) (λ o u. (u ≡ s) × (o ≡ before)) (locked_orden id dto expected)
  unfolding or_throw
  locked_orden-before expected = Ensures-bind Ensures-gets λ found.
      Ensures-bind {Q = λ o u. (u ≡ s) × (o ≡ before)}
        (record { held = λ u k. at u k.0 found (found_before u k.0 found k.1) })
        λ o. Ensures-bind (Ensures-Keeps Keeps-reads) λ _. Ensures-pure o λ u k. k
    where
      at :
          (u : Db)
          → u ≡ s
          → (o : Option Orden) → o ≡ some before
          → OnOk (λ a v. (v ≡ s) × (a ≡ before)) (or_throw o orden_not_found u)
      at u k none e = absurd (cc)
      at u k (some a) e = (k, cc)

  update_tx-Updated :
      (equipment_id : Option ℕ) (expected : Option Fields)
      → Ensures
          (λ u. u ≡ s)
          (λ r u. Updated id dto s r.0 u)
          (update_tx id dto equipment_id before.estado expected)
  unfolding update_tx
  update_tx-Updated equipment_id none =
      Ensures-bind (write_all-Updated equipment_id before.estado refl) λ o. Ensures-pure _ λ u k. k
  update_tx-Updated equipment_id (some expected) = Ensures-bind (locked_orden-before expected) λ v.
      Ensures-bind
        (record {
          held =
              λ u k. (write_all-Updated equipment_id v.estado (ap (λ o. o.estado) k.1)).held u k.0;
        })
        λ o. Ensures-pure _ λ u k. k

emit_transicion_estado-Updated :
    (id : ℕ) (dto : UpdateOrdenDto) (s : Db) (o : Orden) (anterior : EstadoOt) (u : Db)
    → Updated id dto s o u
    → Updated id dto s o (emit_transicion_estado anterior o u)
unfolding emit_transicion_estado
emit_transicion_estado-Updated id dto s o anterior u h =
    elim (Bool-cases (same_estado o.estado anterior)) [
      | inl same ↦ rw (emit_transicion_estado, same) h
      | inr crossed ↦ rw (emit_transicion_estado, crossed) (at (event_of o o.estado))
    ]
  where
    at : (e : Option OrdenEvent) → Updated id dto s o (emit_event e u)
    at none = h
    at (some e) = record {
      before = h.before;
      before_is = h.before_is;
      row_is = h.row_is;
      ordenes_are = h.ordenes_are;
      hallazgos_are = h.hallazgos_are;
    }

-- An update leaves the tables of an updated order, or else changes nothing.
pub update_orden-Updated :
    (id : ℕ) (dto : UpdateOrdenDto) (expected : Option Fields) (s : Db)
    → Settles (λ u. u ≡ s) (Updated id dto s) (λ u. u ≡ s) (update_orden id dto expected (λ u. u))
unfolding update_orden
update_orden-Updated id dto expected s =
    Settles-bind
      (Settles-Keeps (find_orden_or_throw-Found (λ u. u ≡ s) id)
        (Keeps-bind Keeps-gets λ found. Keeps-or_throw _ _) (λ u k. k))
      λ before.
        Settles-bind
          (Settles-Keeps {Q = λ _ u. (u ≡ s) × (u.ordenes id ≡ some before)}
            (Ensures-Keeps (Keeps-throw_if _ _)) (Keeps-throw_if _ _) (λ u k. k.0))
          λ _.
            Settles-bind
              (Settles-Keeps {Q = λ _ u. (u ≡ s) × (u.ordenes id ≡ some before)}
                (Ensures-Keeps Keeps-gets) Keeps-gets (λ u k. k.0))
              λ e.
                Settles-bind
                  (Settles-modify {Q = λ u. (u ≡ s) × (u.ordenes id ≡ some before)} λ u k. k)
                  λ _.
                    Settles-bind
                      (Settles-atomic {Q = λ r u. Updated id dto s r.0 u}
                        (record {
                          held = λ u k.
                              (update_tx-Updated id dto s before
                                  (subst (λ v. v.ordenes id ≡ some before) k.0 k.1) e expected).held
                                u k.0;
                        })
                        (λ u k. k.0))
                      λ r.
                        Settles-bind
                          (Settles-modify {Q = Updated id dto s r.0}
                            λ u k. emit_transicion_estado-Updated id dto s r.0 r.1 u k)
                          λ _. Settles-pure r.0 λ u k. k
