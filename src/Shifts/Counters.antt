-- ===== src/Shifts/Counters.antt =====
-- What requests on cards do to the counters of the equipment.
use smi_backend.Prelude.{
  ℕ, ◌≡◌, Bool, not, ◌&&◌, Option, none, some, List, [], ◌∷◌, ltb, opt_eq, find, Bool-cases, inl,
  inr, any, ◌==◌,
}
use smi_backend.Prelude.Result.{Result, ok, err}
use smi_backend.Prelude.Handler.{
  Keeps, atomic, Keeps-atomic, Keeps-bind, Keeps-modify, Keeps-pure, Keeps-gets, Keeps-reads,
  Keeps-or_throw, Keeps-throw_where,
}
use smi_backend.Concurrency.Expected.{Fields}
use smi_backend.ChangeLog.{FieldChange}
use smi_backend.Equipment.Counter.{
  Equipment, Table, CounterError, Advanced, Advanced-refl, Advanced-trans, reconcile-Advanced,
  reconcile_equipment_counter, warn,
}
use smi_backend.Shifts.Calendar.{ShiftType}
use smi_backend.Shifts.Types.{
  Shift, Operator, Card, FuelRecord, Db, Session, OpenShiftCardDto, CloseShiftCardDto,
  UpdateShiftCardDto,
}
use smi_backend.Shifts.Queries.{
  Env, collides, insert_card, upserted, upsert_shift, has_key, reconcile, reconciled,
}
use smi_backend.Shifts.Open.Checks.{Opening}
use smi_backend.Shifts.Open.{new_card, created, open_writes}
use smi_backend.Shifts.Open.Keeps.{open_card-Keeps_all}
use smi_backend.Shifts.Close.{
  Settled, close_tx, advance_to_final, record_fuel, insert_fuel, set_below,
}
use smi_backend.Shifts.Close.Steps.{close_card-Keeps_all}
use smi_backend.Shifts.Edit.Checks.{DatosTarjeta}
use smi_backend.Shifts.Edit.{
  advance_row, advance_if_changed, sync_fuel_record, sync_if_changed, write_edit, write_changes,
  apply_edit,
}
use smi_backend.Shifts.Edit.Keeps.{update_shift_card-Keeps_all}
use smi_backend.Shifts.Interleavings.{
  Request, open_request, close_request, update_request, Requests, done, and_then, serve, serve_all,
}

module _ (i : ℕ) (e : Equipment) where
  -- The equipment is there and no counter of it has gone back.
  abbrev HasAdvanced : Db → Type 0
  HasAdvanced s = Advanced e (s.counters i)

  counted :
      (s : Db) (r : Result CounterError Bool × Table)
      → Advanced e (r.1 i)
      → HasAdvanced s
      → HasAdvanced (reconciled r s).1
  counted s (ok below, table) a h = a
  counted s (err error, table) a h = h

  reconcile-Keeps :
      (id : ℕ) (equipo : Equipment) (value : ℕ) → Keeps HasAdvanced (reconcile id equipo value)
  unfolding reconcile
  reconcile-Keeps id equipo value = record {
    held = λ s h.
        counted s (reconcile_equipment_counter id equipo value warn s.counters)
          (Advanced-trans e h (
            reconcile-Advanced (record { id = id; equipo = equipo; value = value; mode = warn })
              s.counters i h.row h.row_is))
          h;
  }

  shifts-Keeps :
      (env : Env) (user date : ℕ) (type : ShiftType)
      → Keeps HasAdvanced (upsert_shift env user date type)
  unfolding upsert_shift
  shifts-Keeps env user date type = record {
    held = λ s h. stays s (find (has_key user date type) s.shifts) h;
  }
    where
      stays :
          (s : Db) (o : Option Shift)
          → HasAdvanced s
          → HasAdvanced (upserted env user date type o s).1
      stays s none h = h
      stays s (some shift) h = h

  open_writes-Keeps :
      (env : Env) (session : Session) (dto : OpenShiftCardDto) (opening : Opening) (shift : ℕ)
      (equipo : Equipment)
      → Keeps HasAdvanced (atomic (open_writes env session dto opening shift equipo))
  unfolding open_writes
  open_writes-Keeps env session dto opening shift equipo = Keeps-atomic (
      Keeps-bind (reconcile-Keeps dto.equipo_id equipo dto.valor_inicial) (λ below. record {
        held = λ s h. inserted s (new_card env session dto opening shift below) h;
      }))
    where
      inserted :
          (s : Db) (c : Card)
          → HasAdvanced s
          → HasAdvanced (created env session dto c (insert_card c s) s).1
      inserted s c h = elim (Bool-cases (any (collides c) s.cards)) [
        | inl race ↦ rw race h
        | inr free ↦ rw free h
      ]

  module _ (env : Env) (session : Session) (id : ℕ) (dto : CloseShiftCardDto) (p : Settled) where
    marked :
        (below : Bool) (s : Db)
        → HasAdvanced s
        → HasAdvanced (set_below env session id dto below p.card s)
    marked below s h = elim (Bool-cases (below && not p.card.below_previous_reading)) [
      | inl marks ↦ rw marks h
      | inr leaves ↦ rw leaves h
    ]

    final-Keeps :
        (o : Option Equipment) → Keeps HasAdvanced (advance_to_final env session id dto p.card o)
    final-Keeps none = Keeps-pure
    final-Keeps (some equipo) =
        Keeps-bind (reconcile-Keeps p.card.equipo_id equipo dto.valor_final)
          (λ below. Keeps-modify (marked below))

    fueled :
        (f : FuelRecord) (o : Option FuelRecord) (s : Db)
        → HasAdvanced s
        → HasAdvanced (insert_fuel id f o s).1
    fueled f none s h = h
    fueled f (some g) s h = h

    fuel-Keeps : Keeps HasAdvanced (record_fuel env session id dto p)
    fuel-Keeps = record { held = recorded }
      where
        recorded : (s : Db) → HasAdvanced s → HasAdvanced (record_fuel env session id dto p s).1
        recorded s h = elim (Bool-cases (ltb 0 dto.fuel_liters)) [
          | inl liters ↦ rw liters (fueled _ (s.fuel id) s h)
          | inr none_charged ↦ rw none_charged h
        ]

    close_tx-Keeps : Keeps HasAdvanced (atomic (close_tx env session id dto p))
    unfolding close_tx
    close_tx-Keeps = Keeps-atomic (
        Keeps-bind (Keeps-throw_where _ _) (λ _. Keeps-bind (Keeps-throw_where _ _) (λ _.
          Keeps-bind (Keeps-modify (λ s h. h)) (λ _. Keeps-bind Keeps-gets (λ o.
            Keeps-bind (final-Keeps o) (λ _.
              Keeps-bind fuel-Keeps (λ _. Keeps-bind Keeps-gets (λ c. Keeps-or_throw c _))))))))

  module _ (env : Env) (session : Session) (id : ℕ) (dto : UpdateShiftCardDto) where
    row-Keeps :
        (c : Card) (final : ℕ) (o : Option Equipment)
        → Keeps HasAdvanced (advance_row env session id dto c final o)
    row-Keeps c final none = Keeps-pure
    row-Keeps c final (some equipo) =
        Keeps-bind (reconcile-Keeps c.equipo_id equipo final) (λ below. Keeps-pure)

    changed-Keeps :
        (c : Card) (final : Option ℕ)
        → Keeps HasAdvanced (advance_if_changed env session id dto c final)
    changed-Keeps c none = Keeps-pure
    changed-Keeps c (some final) = elim (Bool-cases (opt_eq (some final) c.valor_final)) [
      | inl same ↦ rw same Keeps-pure
      | inr changed ↦ rw changed (Keeps-bind Keeps-gets (λ equipo. row-Keeps c final equipo))
    ]

    synced-keeps :
        (c : Card) (old new : ℕ) (s : Db)
        → HasAdvanced s
        → HasAdvanced (sync_if_changed env session id dto c old new s)
    unfolding sync_fuel_record
    synced-keeps c old new s h = elim (Bool-cases (old == new)) [
      | inl same ↦ rw same h
      | inr changed ↦ rw changed h
    ]

    edit-Keeps :
        (c : Card) (d : DatosTarjeta) (o : Option Operator) (changes : List FieldChange)
        → Keeps HasAdvanced (write_edit env session id dto c d o changes)
    unfolding write_edit
    edit-Keeps c d o changes = Keeps-bind (changed-Keeps c d.valor_final) (λ below.
        Keeps-bind (Keeps-modify (λ s h. h)) (λ _.
          Keeps-bind (Keeps-modify (synced-keeps c _ _)) (λ _.
            Keeps-bind (Keeps-modify (λ s h. h))
              (λ _. Keeps-bind Keeps-gets (λ found. Keeps-or_throw found _)))))

    changes-Keeps :
        (c : Card) (d : DatosTarjeta) (o : Option Operator) (changes : List FieldChange)
        → Keeps HasAdvanced (write_changes env session id dto c d o changes)
    changes-Keeps c d o [] = Keeps-pure
    changes-Keeps c d o (f ∷ fs) = Keeps-bind (edit-Keeps c d o (f ∷ fs)) (λ card. Keeps-pure)

    apply_edit-Keeps :
        (before : Option Operator) (expected : Option Fields)
        → Keeps HasAdvanced (atomic (apply_edit env session id dto before expected))
    unfolding apply_edit
    apply_edit-Keeps before expected = Keeps-atomic (
        Keeps-bind Keeps-reads
          (λ locked. Keeps-bind Keeps-reads (λ _. changes-Keeps locked.0 _ locked.1 _)))

mutual
  unfolding serve

  serve_advances :
      (i : ℕ) (e : Equipment) (r : Request) (s : Db)
      → HasAdvanced i e s
      → HasAdvanced i e (serve r s)
  serve_advances i e (open_request env session dto before inside) s h =
      (open_card-Keeps_all env session dto (λ t. serve_all inside t)
          (λ t a. serve_all_advances i e inside t a)
          (shifts-Keeps i e env session.user_id dto.shift_date dto.shift_type)
          (open_writes-Keeps i e env session dto) (λ t. serve_all before t)
          (λ t a. serve_all_advances i e before t a)).held
        s h
  serve_advances i e (close_request env session id dto inside) s h =
      (close_card-Keeps_all env session id dto (λ t. serve_all inside t)
          (λ t a. serve_all_advances i e inside t a) (shifts-Keeps i e env session.user_id)
          (λ t keys a. a) (close_tx-Keeps i e env session id dto)).held
        s h
  serve_advances i e (update_request env session id dto expected inside) s h =
      (update_shift_card-Keeps_all env session id dto (λ t events a. a)
          (apply_edit-Keeps i e env session id dto) expected (λ t. serve_all inside t)
          (λ t a. serve_all_advances i e inside t a)).held
        s h

  serve_all_advances :
      (i : ℕ) (e : Equipment) (rs : Requests) (s : Db)
      → HasAdvanced i e s
      → HasAdvanced i e (serve_all rs s)
  serve_all_advances i e done s h = h
  serve_all_advances i e (and_then r rs) s h =
      serve_all_advances i e rs (serve r s) (serve_advances i e r s h)

-- However requests to open, close and correct cards interleave, and whatever readings they bring, no
-- counter of an equipment goes back and no equipment is lost.
pub serve_all-Advanced :
    (rs : Requests) (s : Db) (i : ℕ) (e : Equipment)
    → s.counters i ≡ some e
    → Advanced e ((serve_all rs s).counters i)
serve_all-Advanced rs s i e h = serve_all_advances i e rs s (rw h (Advanced-refl e))
