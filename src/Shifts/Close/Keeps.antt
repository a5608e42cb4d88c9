-- ===== src/Shifts/Close/Keeps.antt =====
-- The invariant of the tables and the close of a card.
use smi_backend.Prelude.{
  ℕ, ◌≡◌, refl, Bool, true, false, not, ◌&&◌, Option, none, some, List, [], ◌∷◌, arith, ◌==◌, ltb,
  any, every, Bool-cases, inl, inr, ==_iff,
}
use smi_backend.Prelude.Result.{Result, ok, err}
use smi_backend.Prelude.Handler.{
  Keeps, Ensures, atomic, Keeps-transaction, Ensures-bind, Ensures-throw_where, Ensures-Keeps,
  Ensures-modify, Keeps-pure, Keeps-gets, Keeps-bind, Keeps-modify, Keeps-or_throw, OnOk,
}
use smi_backend.Equipment.Counter.{
  Equipment, Table, CounterError, reconcile_equipment_counter, warn,
}
use smi_backend.Shifts.Types.{Card, FuelRecord, Db, Session, CloseShiftCardDto}
use smi_backend.Shifts.Queries.{
  Env, collides, has_id, is_open, update_row, update_card, reconcile, reconciled,
}
use smi_backend.Shifts.Close.{
  Settled, closed_row, is_open_card, has_close_key, close_tx, advance_to_final, record_fuel,
  set_below, insert_fuel, set_fuel, close_card,
}
use smi_backend.Shifts.Invariant.Pending.{
  IsPending, fuel_settled, update-IsPending, IsPending-tables, mark-IsPending,
}
use smi_backend.Shifts.Close.Steps.{close_card-Keeps_all}
use smi_backend.Shifts.Invariant.{
  are_distinct-map, card_ok, fuel_matches, IsValid, IsValid-tables, upsert_shift-Keeps,
}

-- An open card has no fuel record.
open_card-fuel :
    (fuel : ℕ → Option FuelRecord) (id : ℕ) (cs : List Card)
    → every (card_ok fuel) cs ≡ true
    → any (λ c. has_id id c && is_open c) cs ≡ true
    → fuel_matches 0 (fuel id) ≡ true
unfolding card_ok
open_card-fuel fuel id [] h k = cc
open_card-fuel fuel id (c ∷ cs) h k = elim (Bool-cases (has_id id c && is_open c)) [
  | inl here ↦ ground (arith, here, h, ==_iff c.id id)
  | inr later ↦ ground (arith, later, h, k, open_card-fuel fuel id cs)
]

module _ (env : Env) (session : Session) (id : ℕ) (dto : CloseShiftCardDto) (p : Settled) where
  close_step :
      (c d : Card)
      → collides c d ≡ false
      → has_close_key env session id dto c ≡ false
      → has_close_key env session id dto d ≡ false
      → collides
          (update_row id (closed_row env session id dto p) c)
          (update_row id (closed_row env session id dto p) d)
        ≡ false
  unfolding closed_row
  close_step c d free kc kd = elim (Bool-cases (c.id == id)) [
    | inl this ↦ elim (Bool-cases (d.id == id)) [
      | inl same ↦ ground (arith, this, same, free)
      | inr other ↦ ground (arith, this, other, free, kd)
    ]
    | inr that ↦ elim (Bool-cases (d.id == id)) [
      | inl same ↦ ground (arith, that, same, free, kc)
      | inr other ↦ ground (arith, that, other, free)
    ]
  ]

  -- What holds of the tables when the close writes the row.
  abbrev Writable : Db → Type 0
  Writable s =
      (IsValid s × (not (any (is_open_card env session id dto) s.cards) ≡ false))
      × (any (has_close_key env session id dto) s.cards ≡ false)

  open_card-exists :
      (cs : List Card) → any (is_open_card env session id dto) cs ≡ true → any (has_id id) cs ≡ true
  open_card-exists [] h = h
  open_card-exists (c ∷ cs) h = ground (arith, open_card-exists cs)

  closed-IsPending :
      (s : Db)
      → Writable s
      → IsPending id 0 dto.fuel_liters (update_card id (closed_row env session id dto p) s)
  unfolding closed_row
  closed-IsPending s ((valid, found), free) =
      let here : any (is_open_card env session id dto) s.cards ≡ true = ground (arith, found) in
      update-IsPending id 0 dto.fuel_liters (closed_row env session id dto p) s valid (λ c. refl)
        (λ c. refl) (λ c. refl)
        (are_distinct-map (update_row id (closed_row env session id dto p))
          (has_close_key env session id dto) s.cards close_step free valid.distinct)
        (open_card-exists s.cards here) (open_card-fuel s.fuel id s.cards valid.cards_ok here)

  -- The tables between the write of the row and that of the fuel record.
  abbrev Written : Db → Type 0
  Written s = IsPending id 0 dto.fuel_liters s

  reconciled-Written :
      (s : Db) (r : Result CounterError Bool × Table) → Written s → Written (reconciled r s).1
  reconciled-Written s (ok below, table) h =
      IsPending-tables id 0 dto.fuel_liters s (record s { counters = table }) h refl refl
  reconciled-Written s (err e, table) h = h

  set_below-Written :
      (below : Bool) (s : Db) → Written s → Written (set_below env session id dto below p.card s)
  set_below-Written below s h = elim (Bool-cases (below && not p.card.below_previous_reading)) [
    | inl marks ↦ rw marks (mark-IsPending id 0 dto.fuel_liters s h)
    | inr leaves ↦ rw leaves h
  ]

  advance-Written :
      (o : Option Equipment) → Keeps Written (advance_to_final env session id dto p.card o)
  unfolding reconcile
  advance-Written none = Keeps-pure
  advance-Written (some equipo) =
      Keeps-bind
        (record {
          held = λ s h.
              reconciled-Written s
                (reconcile_equipment_counter p.card.equipo_id equipo dto.valor_final warn
                  s.counters)
                h;
        })
        (λ below. Keeps-modify (set_below-Written below))

  inserted-IsValid :
      (s : Db) (f : FuelRecord) (o : Option FuelRecord)
      → Written s
      → f.litros ≡ dto.fuel_liters
      → ltb 0 dto.fuel_liters ≡ true
      → OnOk (λ _. IsValid) (insert_fuel id f o s)
  inserted-IsValid s f (some g) h litros some_liters = tt
  inserted-IsValid s f none h litros some_liters =
      fuel_settled id 0 dto.fuel_liters s (record s { fuel = set_fuel id (some f) s.fuel }) h refl
        (λ j other. rw other refl) (ground (arith, litros, some_liters))

  record_fuel-IsValid : Ensures Written (λ _. IsValid) (record_fuel env session id dto p)
  record_fuel-IsValid = record { held = recorded }
    where
      recorded : (s : Db) → Written s → OnOk (λ _. IsValid) (record_fuel env session id dto p s)
      recorded s h = elim (Bool-cases (ltb 0 dto.fuel_liters)) [
        | inl liters ↦ rw liters (inserted-IsValid s _ (s.fuel id) h refl liters)
        | inr none_charged ↦ rw none_charged (
            fuel_settled id 0 dto.fuel_liters s s h refl (λ j other. refl)
              (ground (arith, none_charged, h.old_matches)))
      ]

  close_tx-IsValid : Ensures IsValid (λ _. IsValid) (close_tx env session id dto p)
  unfolding close_tx
  close_tx-IsValid = Ensures-bind (Ensures-throw_where _ _) (λ _.
      Ensures-bind (Ensures-throw_where _ _) (λ _.
        Ensures-bind (Ensures-modify closed-IsPending) (λ _.
          Ensures-bind (Ensures-Keeps Keeps-gets) (λ o.
            Ensures-bind (Ensures-Keeps (advance-Written o)) (λ _.
              Ensures-bind record_fuel-IsValid (λ _.
                Ensures-bind (Ensures-Keeps Keeps-gets)
                  (λ c. Ensures-Keeps (Keeps-or_throw c _))))))))

  pub close_tx-Keeps : Keeps IsValid (atomic (close_tx env session id dto p))
  close_tx-Keeps = Keeps-transaction close_tx-IsValid

-- Whatever is sent to close a card, and whatever valid changes others commit meanwhile, the tables
-- stay valid.
pub close_card-Keeps :
    (env : Env) (session : Session) (id : ℕ) (dto : CloseShiftCardDto) (inside : Db → Db)
    → ((s : Db) → IsValid s → IsValid (inside s))
    → Keeps IsValid (close_card env session id dto inside)
close_card-Keeps env session id dto inside others =
    close_card-Keeps_all env session id dto inside others (upsert_shift-Keeps env session.user_id)
      (λ s keys h. IsValid-tables s _ h refl refl) (close_tx-Keeps env session id dto)
