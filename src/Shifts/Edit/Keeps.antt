-- ===== src/Shifts/Edit/Keeps.antt =====
-- The invariant of the tables and the correction of a card.
use smi_backend.Prelude.{
  ℕ, ◌≡◌, refl, subst, Bool, true, false, not, ◌&&◌, ◌||◌, Option, none, some, List, [], ◌∷◌, arith,
  find, Bool-cases, inl, inr, or_default, ◌==◌, is_some, String, find_holds, find-every, find-any,
  ==_iff, opt_eq,
}
use smi_backend.Prelude.Result.{Result, ok, err}
use smi_backend.Prelude.Handler.{
  atomic, Keeps, Ensures, OnOk, Ensures-bind, Ensures-Keeps, Ensures-modify, Ensures-reads,
  Keeps-transaction, Keeps-bind, Keeps-reads, Keeps-modify, Keeps-gets, Keeps-or_throw, Keeps-pure,
}
use smi_backend.Concurrency.Expected.{Fields}
use smi_backend.ChangeLog.{FieldChange, diff_fields}
use smi_backend.Equipment.Counter.{
  Equipment, Table, CounterError, reconcile_equipment_counter, warn,
}
use smi_backend.Shifts.Types.{
  Operator, Card, FuelRecord, RecordEditedEvent, Db, Session, UpdateShiftCardDto,
}
use smi_backend.Shifts.Queries.{
  Env, collides, has_id, find_card, update_row, update_card, reconcile, reconciled,
}
use smi_backend.Shifts.Edit.Checks.{
  DatosTarjeta, datos_de_tarjeta, mezclar_tarjeta, is_refused, name_or, locked_card,
  locked_card-found, id_of, fields_of, card_fields,
}
use smi_backend.Shifts.Edit.{
  apply_edit, emit, update_shift_card, write_changes, edited_row, advance_row, advance_if_changed,
  synced, sync_fuel_record, sync_if_changed, write_edit,
}
use smi_backend.Shifts.Invariant.{
  are_distinct-map, card_ok, fuel_matches, IsValid, IsValid-tables, found_only,
}
use smi_backend.Shifts.Invariant.Pending.{IsPending, fuel_settled, update-IsPending}

-- Two readings are both there or both missing.
abbrev same_presence : Option ℕ → Option ℕ → Bool
same_presence none none = true
same_presence (some a) (some b) = true
same_presence _ _ = false

not_differs : (o : Option ℕ) → not (same_presence o o) ≡ false
not_differs none = refl
not_differs (some a) = refl

-- What the edit knows of the stored card and of the data that it leaves.
abbrev pub MayLeave : Card → DatosTarjeta → Type 0
MayLeave actual d =
    (same_presence d.valor_final actual.valor_final ≡ true)
    × ((is_some d.valor_final || not (is_some d.fuel_liters)) ≡ true)

module _ (env : Env) (session : Session) (id : ℕ) (dto : UpdateShiftCardDto) (actual : Card)
    (d : DatosTarjeta) (may : MayLeave actual d) where
  -- The card that the edit has read is still the stored one.
  abbrev Locked : Db → Type 0
  Locked s = IsValid s × (find (has_id id) s.cards ≡ some actual)

  -- The presence of a final reading differs from that of the stored card.
  abbrev differs : Card → Bool
  differs c = not (same_presence c.valor_final actual.valor_final)

  edit_step :
      (name : String) (below : Bool) (c e : Card)
      → collides c e ≡ false
      → (has_id id c && differs c) ≡ false
      → (has_id id e && differs e) ≡ false
      → collides
          (update_row id (edited_row env session id dto d name below) c)
          (update_row id (edited_row env session id dto d name below) e)
        ≡ false
  edit_step name below c e free kc ke = elim (Bool-cases (c.id == id)) [
    | inl this ↦ elim (Bool-cases (e.id == id)) [
      | inl same ↦ ground (arith, this, same, free)
      | inr other ↦ ground (arith, this, other, free, kc, may)
    ]
    | inr that ↦ elim (Bool-cases (e.id == id)) [
      | inl same ↦ ground (arith, that, same, free, ke, may)
      | inr other ↦ ground (arith, that, other, free)
    ]
  ]

  edited-IsPending :
      (name : String) (below : Bool) (s : Db)
      → Locked s
      → IsPending id
          (or_default actual.fuel_liters 0)
          (or_default d.fuel_liters 0)
          (update_card id (edited_row env session id dto d name below) s)
  unfolding card_ok
  edited-IsPending name below s (valid, found) =
      let found_ok : card_ok s.fuel actual ≡ true =
        find-every (has_id id) (card_ok s.fuel) s.cards actual found valid.cards_ok in
      let found_id : has_id id actual ≡ true = find_holds (has_id id) s.cards actual found in
      update-IsPending id (or_default actual.fuel_liters 0) (or_default d.fuel_liters 0)
        (edited_row env session id dto d name below) s valid (λ c. refl) (λ c. refl) (λ c. may.1)
        (are_distinct-map (update_row id (edited_row env session id dto d name below))
          (λ c. has_id id c && differs c) s.cards (edit_step name below)
          (found_only id actual differs s.cards valid.distinct found
            (not_differs actual.valor_final))
          valid.distinct)
        (find-any (has_id id) s.cards actual found)
        (ground (arith, found_ok, found_id, ==_iff actual.id id))

  counted-Locked :
      (s : Db) (r : Result CounterError Bool × Table) → Locked s → Locked (reconciled r s).1
  counted-Locked s (ok below, table) (valid, found) = (IsValid-tables s _ valid refl refl, found)
  counted-Locked s (err e, table) h = h

  advance_row-Keeps :
      (final : ℕ) (o : Option Equipment)
      → Keeps Locked (advance_row env session id dto actual final o)
  unfolding reconcile
  advance_row-Keeps final none = Keeps-pure
  advance_row-Keeps final (some equipo) =
      Keeps-bind
        (record {
          held = λ s.
              counted-Locked s
                (reconcile_equipment_counter actual.equipo_id equipo final warn s.counters);
        })
        (λ below. Keeps-pure)

  advance-Keeps :
      (final : Option ℕ) → Keeps Locked (advance_if_changed env session id dto actual final)
  advance-Keeps none = Keeps-pure
  advance-Keeps (some final) = elim (Bool-cases (opt_eq (some final) actual.valor_final)) [
    | inl same ↦ rw same Keeps-pure
    | inr changed ↦ rw changed (Keeps-bind Keeps-gets (λ equipo. advance_row-Keeps final equipo))
  ]

  synced_fits :
      (new : ℕ) (o : Option FuelRecord)
      → fuel_matches new (synced env session id dto actual new o) ≡ true
  synced_fits new none = ground arith
  synced_fits new (some f) = ground arith

  sync-IsValid :
      (old new : ℕ) (s : Db)
      → actual.id ≡ id
      → IsPending id old new s
      → IsValid (sync_if_changed env session id dto actual old new s)
  unfolding sync_fuel_record
  sync-IsValid old new s this h = elim (Bool-cases (old == new)) [
    | inl same ↦ rw same (
        fuel_settled id old new s s h refl (λ j other. refl)
          (subst (λ n. fuel_matches n (s.fuel id) ≡ true) ((==_iff old new).0 same) h.old_matches))
    | inr changed ↦ rw changed (
        fuel_settled id old new s (sync_fuel_record env session id dto actual new s) h refl
          (λ j other. rw (this, other) refl)
          (rw this (ground (arith, synced_fits new (s.fuel id)))))
  ]

  -- The row is written and its fuel record is not.
  abbrev Written : Db → Type 0
  Written s =
      IsPending id (or_default actual.fuel_liters 0) (or_default d.fuel_liters 0) s
      × (actual.id ≡ id)

  write_edit-IsValid :
      (operador : Option Operator) (changes : List FieldChange)
      → Ensures Locked (λ _. IsValid) (write_edit env session id dto actual d operador changes)
  unfolding write_edit
  write_edit-IsValid operador changes =
      Ensures-bind (Ensures-Keeps (advance-Keeps d.valor_final)) (λ below.
        Ensures-bind
          (Ensures-modify {Q = Written} (λ s h. (
            edited-IsPending (name_or operador actual.operador) below s h,
            (==_iff actual.id id).0 (find_holds (has_id id) s.cards actual h.1),
          )))
          (λ _.
            Ensures-bind
              (Ensures-modify {Q = IsValid} (λ s h.
                sync-IsValid (or_default actual.fuel_liters 0) (or_default d.fuel_liters 0) s h.1
                  h.0))
              (λ _.
                Ensures-bind (Ensures-modify {Q = IsValid} (λ s h. IsValid-tables s _ h refl refl))
                  (λ _.
                    Ensures-bind (Ensures-Keeps Keeps-gets)
                      (λ c. Ensures-Keeps (Keeps-or_throw c _))))))

  write_changes-IsValid :
      (operador : Option Operator) (changes : List FieldChange)
      → Ensures Locked (λ _. IsValid) (write_changes env session id dto actual d operador changes)
  write_changes-IsValid operador [] = record { held = λ s h. h.0 }
  write_changes-IsValid operador (c ∷ cs) =
      Ensures-bind (write_edit-IsValid operador (c ∷ cs)) (λ card. Ensures-Keeps Keeps-pure)

-- The data that a body leaves of a card to which it may be applied.
merged-MayLeave :
    (fuel : ℕ → Option FuelRecord) (dto : UpdateShiftCardDto) (operador : Option ℕ) (c : Card)
    → is_refused dto c.valor_final ≡ false
    → card_ok fuel c ≡ true
    → MayLeave c (mezclar_tarjeta (datos_de_tarjeta c) dto operador)
unfolding mezclar_tarjeta card_ok
merged-MayLeave fuel dto operador c allowed fine =
    (ground (arith, allowed), ground (arith, allowed, fine))

module _ (env : Env) (session : Session) (id : ℕ) (dto : UpdateShiftCardDto) where
  pub apply_edit-IsValid :
      (before : Option Operator) (expected : Option Fields)
      → Ensures IsValid (λ _. IsValid) (apply_edit env session id dto before expected)
  unfolding apply_edit find_card
  apply_edit-IsValid before expected =
      Ensures-bind Ensures-reads
        (λ locked. Ensures-bind (Ensures-Keeps Keeps-reads) (λ _. record { held = written locked }))
    where
      written :
          (locked : Card × Option Operator) (s : Db)
          → IsValid s × (locked_card session id dto before expected s ≡ ok locked)
          → OnOk
              (λ _. IsValid)
              (write_changes env session id dto locked.0
                (mezclar_tarjeta (datos_de_tarjeta locked.0) dto (id_of locked.1))
                locked.1
                (diff_fields
                  (fields_of (datos_de_tarjeta locked.0))
                  (fields_of (mezclar_tarjeta (datos_de_tarjeta locked.0) dto (id_of locked.1)))
                  card_fields)
                s)
      written (actual, operador) s (valid, e) =
          let (found, allowed) =
            locked_card-found session id dto before expected s actual operador e in
          (write_changes-IsValid env session id dto actual
              (mezclar_tarjeta (datos_de_tarjeta actual) dto (id_of operador))
              (merged-MayLeave s.fuel dto (id_of operador) actual allowed
                (find-every (has_id id) (card_ok s.fuel) s.cards actual found valid.cards_ok))
              operador _).held
            s (valid, found)

-- A correction keeps a property that the events do not touch and that its transaction and the others
-- keep.
module _ {P : Db → Type 0} (env : Env) (session : Session) (id : ℕ) (dto : UpdateShiftCardDto)
    (events_keep : (s : Db) (events : List RecordEditedEvent)
      → P s
      → P (record s { emitted = events }))
    (tx_keeps : (before : Option Operator) (expected : Option Fields)
      → Keeps P (atomic (apply_edit env session id dto before expected))) where
  emit-keeps : (o : Option RecordEditedEvent) (s : Db) → P s → P (emit env session id dto o s)
  emit-keeps none s h = h
  emit-keeps (some e) s h = events_keep s _ h

  pub update_shift_card-Keeps_all :
      (expected : Option Fields) (inside : Db → Db)
      → ((s : Db) → P s → P (inside s))
      → Keeps P (update_shift_card env session id dto expected inside)
  unfolding update_shift_card
  update_shift_card-Keeps_all expected inside others = Keeps-bind Keeps-reads (λ operator.
      Keeps-bind (Keeps-modify others) (λ _.
        Keeps-bind (tx_keeps operator expected)
          (λ edit. Keeps-bind (Keeps-modify (emit-keeps edit.1)) (λ _. Keeps-pure))))

-- Whatever is sent to correct a card, and whatever valid changes others commit meanwhile, the tables
-- stay valid.
pub update_shift_card-Keeps :
    (env : Env) (session : Session) (id : ℕ) (dto : UpdateShiftCardDto) (expected : Option Fields)
    (inside : Db → Db)
    → ((s : Db) → IsValid s → IsValid (inside s))
    → Keeps IsValid (update_shift_card env session id dto expected inside)
update_shift_card-Keeps env session id dto =
    update_shift_card-Keeps_all env session id dto (λ s events h. IsValid-tables s _ h refl refl)
      (λ before expected. Keeps-transaction (apply_edit-IsValid env session id dto before expected))
