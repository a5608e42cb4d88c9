-- ===== src/Shifts/Readings/Edit.antt =====
-- The readings of the cards and the correction of a card.
use smi_backend.Prelude.{
  ℕ, ◌≡◌, Bool, true, false, Option, none, some, List, [], ◌∷◌, arith, opt_eq, ◌==◌, Bool-cases,
  inl, inr, String,
}
use smi_backend.Prelude.Result
use smi_backend.Prelude.Result.{Result, ok, err, >>=-eq-ok, throw_if-eq-ok, or_throw-eq-ok}
use smi_backend.Prelude.Handler.{
  Keeps, atomic, Keeps-bind, Keeps-pure, Keeps-gets, Keeps-modify, Keeps-reads, Keeps-or_throw,
  Keeps-transaction, Ensures-bind, Ensures-Keeps, Ensures-reads,
}
use smi_backend.Concurrency.Expected.{Fields}
use smi_backend.ChangeLog.{FieldChange}
use smi_backend.Equipment.Counter.{Equipment}
use smi_backend.Shifts.Types.{
  Operator, Card, Db, Session, UpdateShiftCardDto, hourmeter_below_initial,
}
use smi_backend.Shifts.Queries.{Env, update_row}
use smi_backend.Shifts.Edit.Checks.{
  DatosTarjeta, datos_de_tarjeta, mezclar_tarjeta, id_of, is_below_initial, check_merged, name_or,
}
use smi_backend.Shifts.Edit.{
  edited_row, advance_row, advance_if_changed, sync_fuel_record, sync_if_changed, write_edit,
  write_changes, apply_edit,
}
use smi_backend.Shifts.Invariant.{every-map}
use smi_backend.Shifts.Readings.{is_ordered, HasOrdered, reconcile-Ordered}

module _ (env : Env) (session : Session) (id : ℕ) (dto : UpdateShiftCardDto) where
  row-Ordered :
      (c : Card) (final : ℕ) (o : Option Equipment)
      → Keeps HasOrdered (advance_row env session id dto c final o)
  row-Ordered c final none = Keeps-pure
  row-Ordered c final (some equipo) =
      Keeps-bind (reconcile-Ordered c.equipo_id equipo final) (λ below. Keeps-pure)

  changed-Ordered :
      (c : Card) (final : Option ℕ)
      → Keeps HasOrdered (advance_if_changed env session id dto c final)
  changed-Ordered c none = Keeps-pure
  changed-Ordered c (some final) = elim (Bool-cases (opt_eq (some final) c.valor_final)) [
    | inl same ↦ rw same Keeps-pure
    | inr changed ↦ rw changed (Keeps-bind Keeps-gets (λ equipo. row-Ordered c final equipo))
  ]

  synced-Ordered :
      (c : Card) (old new : ℕ) (s : Db)
      → HasOrdered s
      → HasOrdered (sync_if_changed env session id dto c old new s)
  unfolding sync_fuel_record
  synced-Ordered c old new s h = elim (Bool-cases (old == new)) [
    | inl same ↦ rw same h
    | inr changed ↦ rw changed h
  ]

  module _ (d : DatosTarjeta) (above : is_below_initial d.valor_final d.valor_inicial ≡ false) where
    edited_ordered :
        (name : String) (below : Bool) (c : Card)
        → is_ordered c ≡ true
        → is_ordered (update_row id (edited_row env session id dto d name below) c) ≡ true
    edited_ordered name below c h = elim (Bool-cases (c.id == id)) [
      | inl this ↦ rw this (ground (arith, above))
      | inr other ↦ rw other h
    ]

    edit-Ordered :
        (c : Card) (o : Option Operator) (changes : List FieldChange)
        → Keeps HasOrdered (write_edit env session id dto c d o changes)
    unfolding write_edit
    edit-Ordered c o changes = Keeps-bind (changed-Ordered c d.valor_final) (λ below.
        Keeps-bind
          (Keeps-modify (λ s h.
            every-map is_ordered is_ordered
              (update_row id (edited_row env session id dto d (name_or o c.operador) below)) s.cards
              (edited_ordered (name_or o c.operador) below) h))
          (λ _. Keeps-bind (Keeps-modify (synced-Ordered c _ _)) (λ _.
            Keeps-bind (Keeps-modify (λ s h. h))
              (λ _. Keeps-bind Keeps-gets (λ found. Keeps-or_throw found _)))))

    changes-Ordered :
        (c : Card) (o : Option Operator) (changes : List FieldChange)
        → Keeps HasOrdered (write_changes env session id dto c d o changes)
    changes-Ordered c o [] = Keeps-pure
    changes-Ordered c o (f ∷ fs) = Keeps-bind (edit-Ordered c o (f ∷ fs)) (λ card. Keeps-pure)

  checked_merged :
      (d : DatosTarjeta) (u : Unit {0})
      → check_merged d ≡ ok u
      → is_below_initial d.valor_final d.valor_inicial ≡ false
  unfolding check_merged
  checked_merged d u h =
      let (v, above, rest) =
        >>=-eq-ok
          (Result.throw_if (is_below_initial d.valor_final d.valor_inicial) hourmeter_below_initial)
          _ _ h in
      throw_if-eq-ok (is_below_initial d.valor_final d.valor_inicial) hourmeter_below_initial v
        above

  pub apply_edit-Ordered :
      (before : Option Operator) (expected : Option Fields)
      → Keeps HasOrdered (atomic (apply_edit env session id dto before expected))
  unfolding apply_edit
  apply_edit-Ordered before expected = Keeps-transaction (
      Ensures-bind (Ensures-Keeps Keeps-reads) (λ locked. Ensures-bind Ensures-reads (λ u. record {
        held = λ s h.
            (Ensures-Keeps (
                changes-Ordered (mezclar_tarjeta (datos_de_tarjeta locked.0) dto (id_of locked.1))
                  (checked_merged _ u h.1) locked.0 locked.1 _)).held
              s h.0;
      })))
