-- ===== src/Shifts/Close/Retry.antt =====
-- The close of a card that is sent again.
use smi_backend.Prelude.{
  ℕ, ◌≡◌, refl, Bool, true, false, not, ◌&&◌, Option, none, some, arith, every, find_holds,
  find-every, if◌then◌else◌, ◌==◌, opt_eq, Bool-cases, inl, inr, ◌||◌, ltb, ap, sym, ◌∙◌,
}
use smi_backend.Prelude.Result
use smi_backend.Prelude.Result.{Result, ok, err, >>=-eq-ok, throw_if-eq-ok, or_throw-eq-ok}
use smi_backend.Prelude.Handler.{
  OnOk, OnOk-eq, Answers, Answers-atomic, Answers-catch, Answers-bind, Answers-throw, Keeps,
  Ensures, Ensures-bind, Ensures-Keeps, Ensures-modify, Ensures-gets, Keeps-bind, Keeps-modify,
  Keeps-pure, Keeps-gets, or_throw, ◌>>=◌, Ensures-reads,
}
use smi_backend.Equipment.Counter.{
  Equipment, Table, CounterError, reconcile_equipment_counter, warn,
}
use smi_backend.Shifts.Types.{
  Card, FuelRecord, Db, Session, CloseShiftCardDto, ShiftError, close_race, unique_violation,
  null_card, card_not_found, not_owner,
}
use smi_backend.Shifts.Queries.{Env, has_id, is_open, find_card, update_row, reconcile, reconciled}
use smi_backend.Shifts.Close.Checks.{
  Closing, replay, may_close, may_close_card, check_close, answer_open, answer_closed,
}
use smi_backend.Shifts.Close.{
  Settled, closed_row, close_tx, advance_to_final, record_fuel, insert_fuel, set_below,
  close_winner, resolve_close_race, on_close_error, close_open, close_checked, close_card,
}
use smi_backend.Shifts.Invariant.{every-map, every_mapped}

module _ (env : Env) (session : Session) (id : ℕ) (dto : CloseShiftCardDto) where
  -- The card has the id of this close.
  abbrev has_this_key : Card → Bool
  has_this_key c = opt_eq c.close_client_id (some dto.close_client_id)

  -- Every card with the id has the id of this close.
  abbrev Keyed : Db → Type 0
  Keyed s = every (λ c. not (has_id id c) || has_this_key c) s.cards ≡ true

  -- The answer is the stored card, and has the id of this close.
  abbrev IsStored : Card → Db → Type 0
  IsStored c s = (find_card id s.cards ≡ some c) × (has_this_key c ≡ true)

  module _ (p : Settled) where
    row_keyed :
        (c : Card)
        → (not (has_id id (update_row id (closed_row env session id dto p) c))
            || has_this_key (update_row id (closed_row env session id dto p) c))
          ≡ true
    unfolding closed_row
    row_keyed c = elim (Bool-cases (c.id == id)) [
      | inl this ↦ ground (arith, this)
      | inr other ↦ ground (arith, other)
    ]

    counted-Keyed :
        (s : Db) (r : Result CounterError Bool × Table) → Keyed s → Keyed (reconciled r s).1
    counted-Keyed s (ok below, table) h = h
    counted-Keyed s (err e, table) h = h

    mark_keyed :
        (c : Card)
        → (not (has_id id c) || has_this_key c) ≡ true
        → (not (has_id id (update_row id (λ d. record d { below_previous_reading = true }) c))
            || has_this_key (update_row id (λ d. record d { below_previous_reading = true }) c))
          ≡ true
    mark_keyed c h = elim (Bool-cases (c.id == id)) [
      | inl this ↦ rw this h
      | inr other ↦ rw other h
    ]

    set_below-Keyed :
        (below : Bool) (s : Db) → Keyed s → Keyed (set_below env session id dto below p.card s)
    set_below-Keyed below s h = elim (Bool-cases (below && not p.card.below_previous_reading)) [
      | inl marks ↦ rw marks (every-map _ _ _ s.cards mark_keyed h)
      | inr leaves ↦ rw leaves h
    ]

    advance-Keyed :
        (o : Option Equipment) → Keeps Keyed (advance_to_final env session id dto p.card o)
    unfolding reconcile
    advance-Keyed none = Keeps-pure
    advance-Keyed (some equipo) =
        Keeps-bind
          (record {
            held = λ s. counted-Keyed s (
                reconcile_equipment_counter p.card.equipo_id equipo dto.valor_final warn
                  s.counters);
          })
          (λ below. Keeps-modify (set_below-Keyed below))

    inserted-Keyed :
        (f : FuelRecord) (o : Option FuelRecord) (s : Db) → Keyed s → Keyed (insert_fuel id f o s).1
    inserted-Keyed f none s h = h
    inserted-Keyed f (some g) s h = h

    record_fuel-Keyed : Keeps Keyed (record_fuel env session id dto p)
    record_fuel-Keyed = record { held = recorded }
      where
        recorded : (s : Db) → Keyed s → Keyed (record_fuel env session id dto p s).1
        recorded s h = elim (Bool-cases (ltb 0 dto.fuel_liters)) [
          | inl liters ↦ rw liters (inserted-Keyed _ (s.fuel id) s h)
          | inr none_charged ↦ rw none_charged h
        ]

    IsStored-Keyed : (c : Card) (s : Db) → Keyed s → find_card id s.cards ≡ some c → IsStored c s
    unfolding find_card
    IsStored-Keyed c s h found = (
      found,
      ground (
        arith,
        find-every (has_id id) (λ d. not (has_id id d) || has_this_key d) s.cards c found h,
        find_holds (has_id id) s.cards c found,
      ),
    )

    close_tx-answer : Answers IsStored (close_tx env session id dto p)
    unfolding close_tx or_throw
    close_tx-answer = Answers-bind _ (λ _. Answers-bind _ (λ _.
        Ensures-bind
          (Ensures-modify {Q = Keyed} (λ s h.
            every_mapped (λ c. not (has_id id c) || has_this_key c)
              (update_row id (closed_row env session id dto p)) s.cards row_keyed))
          (λ _. Ensures-bind (Ensures-Keeps Keeps-gets) (λ o.
            Ensures-bind (Ensures-Keeps (advance-Keyed o)) (λ _.
              Ensures-bind (Ensures-Keeps record_fuel-Keyed)
                (λ _. Ensures-bind Ensures-gets (λ found. answer_found found)))))))
      where
        answer_found :
            (found : Option Card)
            → Ensures
                (λ s. Keyed s × (find_card id s.cards ≡ found))
                IsStored
                (or_throw found null_card)
        answer_found none = record { held = λ s h. tt }
        answer_found (some c) = record { held = λ s h. IsStored-Keyed c s h.0 h.1 }

  won :
      (s : Db) (o : Option Card)
      → find_card id s.cards ≡ o
      → OnOk IsStored (close_winner env session id dto o, s)
  won s none e = tt
  won s (some c) e = elim (Bool-cases (has_this_key c)) [
    | inl mine ↦ rw mine (e, mine)
    | inr foreign ↦ elim (Bool-cases (is_open c)) [
      | inl still ↦ rw (foreign, still) tt
      | inr closed ↦ rw (foreign, closed) tt
    ]
  ]

  race_answer : Answers IsStored (resolve_close_race env session id dto)
  unfolding resolve_close_race
  race_answer = record { held = λ s h. won s (find_card id s.cards) refl }

  error_answer : (e : ShiftError) → Answers IsStored (on_close_error env session id dto e)
  error_answer close_race = race_answer
  error_answer unique_violation = race_answer
  error_answer _ = Answers-throw

  replayed :
      (s : Db) (d c : Card)
      → (if is_open d then answer_open session id dto d s else answer_closed session id dto d)
        ≡ ok (replay c)
      → (d ≡ c) × (has_this_key d ≡ true)
  replayed s d c h = elim (Bool-cases (is_open d)) [
    | inl still ↦ elim (Bool-cases (ltb dto.valor_final d.valor_inicial)) [
      | inl below ↦ absurd (no_error (rw (still, below) at h))
      | inr above ↦ absurd (no_close _ _ (ok (may_close d _)) refl (rw (still, above) at h))
    ]
    | inr closed ↦ elim (Bool-cases (has_this_key d)) [
      | inl mine ↦ (same_card (ok (replay d)) refl (rw (closed, mine) at h), mine)
      | inr foreign ↦ absurd (no_error (rw (closed, foreign) at h))
    ]
  ]
    where
      no_error : {e : ShiftError} {x : Closing} → err e ≡ ok x → ⊥
      no_error h = cc

      no_close :
          (b : Bool) (x : Card) (r : Result ShiftError Closing)
          → r ≡ ok (may_close d b)
          → r ≡ ok (replay x)
          → ⊥
      no_close b x r h k = cc

      same_card : (r : Result ShiftError Closing) → r ≡ ok (replay d) → r ≡ ok (replay c) → d ≡ c
      same_card r h k = cc

  checked_answer : (s : Db) (c : Card) → check_close session id dto s ≡ ok (replay c) → IsStored c s
  unfolding check_close
  checked_answer s c h =
      let (d, found, h1) =
        >>=-eq-ok (Result.or_throw (find_card id s.cards) card_not_found) _ _ h in
      let (u, allowed, h2) =
        >>=-eq-ok (Result.throw_if (not (may_close_card session d s)) not_owner) _ _ h1 in
      let (same, mine) = replayed s d c h2 in
      (
        or_throw-eq-ok (find_card id s.cards) card_not_found d found ∙ ap some same,
        ap has_this_key (sym same) ∙ mine,
      )

  close_open-answer :
      (inside : Db → Db) (c : Card) (b : Bool)
      → Answers IsStored (close_open env session id dto inside c b)
  unfolding close_open
  close_open-answer inside c b = Answers-bind _ (λ p. Answers-bind _ (λ _.
      Answers-catch (Answers-atomic (close_tx-answer p))
        (λ e. Answers-bind _ (λ _. error_answer e))))

  close_card-answer : (inside : Db → Db) → Answers IsStored (close_card env session id dto inside)
  unfolding close_card
  close_card-answer inside =
      Ensures-bind Ensures-reads (λ closing. record { held = λ s h. checked s closing h.1 })
    where
      checked :
          (s : Db) (closing : Closing)
          → check_close session id dto s ≡ ok closing
          → OnOk IsStored (close_checked env session id dto inside closing s)
      checked s (replay c) e = checked_answer s c e
      checked s (may_close c b) e = (close_open-answer inside c b).held s tt

-- A close that is sent again, after one that was answered with a closed card, gets the same card and
-- changes nothing, so its photo is not claimed again, unless the session has lost the right to close the
-- card meanwhile.
pub close_card-retry :
    (env env' : Env) (session : Session) (id : ℕ) (dto : CloseShiftCardDto)
    (inside inside' : Db → Db) (s s' : Db) (c : Card)
    → close_card env session id dto inside s ≡ (ok c, s')
    → is_open c ≡ false
    → may_close_card session c s' ≡ true
    → close_card env' session id dto inside' s' ≡ (ok c, s')
unfolding close_card check_close ◌>>=◌
close_card-retry env env' session id dto inside inside' s s' c first closed may =
    let (found, mine) =
      OnOk-eq _ _ c s' first ((close_card-answer env session id dto inside).held s tt) in
    rw (found, may, closed, mine) refl
