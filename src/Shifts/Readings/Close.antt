-- ===== src/Shifts/Readings/Close.antt =====
-- The readings of the cards and a close during which nobody else commits.
use smi_backend.Prelude.{
  ℕ, ◌≡◌, refl, Bool, true, false, not, ◌&&◌, Option, none, some, arith, ltb, opt_eq, ◌==◌, every,
  map, find, if◌then◌else◌, Bool-cases, inl, inr, ap, subst, ◌∙◌,
}
use smi_backend.Prelude.Result
use smi_backend.Prelude.Result.{Result, ok, err, >>=-eq-ok, throw_if-eq-ok, or_throw-eq-ok}
use smi_backend.Prelude.Handler.{
  Keeps, Ensures, Leaves, ◌>>=◌, Keeps-bind, Keeps-pure, Keeps-gets, Keeps-modify, Keeps-or_throw,
  Ensures-bind, Ensures-Keeps, Ensures-modify, Ensures-throw_where, Leaves-bind, Leaves-caught,
  continued,
}
use smi_backend.Equipment.Counter.{Equipment}
use smi_backend.Shifts.Calendar.{ShiftType}
use smi_backend.Shifts.Types.{
  Shift, Card, FuelRecord, Db, Session, CloseShiftCardDto, ShiftError, card_not_found, not_owner,
}
use smi_backend.Shifts.Queries.{
  Env, has_id, is_open, find_card, update_row, upserted, upsert_shift, has_key,
}
use smi_backend.Shifts.Close.Checks.{
  Closing, replay, may_close, may_close_card, check_close, answer_open, answer_closed,
}
use smi_backend.Shifts.Close.{
  Settled, closed_row, close_tx, advance_to_final, record_fuel, insert_fuel, set_below, close_open,
  close_checked, close_card,
}
use smi_backend.Shifts.Close.Steps.{settle_close-Keeps, on_close_error-Keeps}
use smi_backend.Shifts.Invariant.{every-map, every-any_not, found_only, IsValid, IsValid-tables}
use smi_backend.Shifts.Readings.{is_ordered, HasOrdered, reconcile-Ordered, shifts-Ordered}

module _ (env : Env) (session : Session) (id : ℕ) (dto : CloseShiftCardDto) where
  module _ (p : Settled) where
    mark_ordered :
        (c : Card)
        → is_ordered c ≡ true
        → is_ordered (update_row id (λ d. record d { below_previous_reading = true }) c) ≡ true
    mark_ordered c h = elim (Bool-cases (c.id == id)) [
      | inl this ↦ rw this h
      | inr other ↦ rw other h
    ]

    marked :
        (below : Bool) (s : Db)
        → HasOrdered s
        → HasOrdered (set_below env session id dto below p.card s)
    marked below s h = elim (Bool-cases (below && not p.card.below_previous_reading)) [
      | inl marks ↦ rw marks (every-map _ _ _ s.cards mark_ordered h)
      | inr leaves ↦ rw leaves h
    ]

    final-Ordered :
        (o : Option Equipment) → Keeps HasOrdered (advance_to_final env session id dto p.card o)
    final-Ordered none = Keeps-pure
    final-Ordered (some equipo) =
        Keeps-bind (reconcile-Ordered p.card.equipo_id equipo dto.valor_final)
          (λ below. Keeps-modify (marked below))

    fueled :
        (f : FuelRecord) (o : Option FuelRecord) (s : Db)
        → HasOrdered s
        → HasOrdered (insert_fuel id f o s).1
    fueled f none s h = h
    fueled f (some g) s h = h

    fuel-Ordered : Keeps HasOrdered (record_fuel env session id dto p)
    fuel-Ordered = record { held = recorded }
      where
        recorded : (s : Db) → HasOrdered s → HasOrdered (record_fuel env session id dto p s).1
        recorded s h = elim (Bool-cases (ltb 0 dto.fuel_liters)) [
          | inl liters ↦ rw liters (fueled _ (s.fuel id) s h)
          | inr none_charged ↦ rw none_charged h
        ]

  -- The card that the close has read is still the stored one, and the final reading is not below its
  -- initial one.
  abbrev MayClose : Card → Db → Type 0
  MayClose card s =
      (IsValid s × HasOrdered s)
      × ((find (has_id id) s.cards ≡ some card) × (ltb dto.valor_final card.valor_inicial ≡ false))

  closed_ordered :
      (p : Settled) (card : Card) (s : Db)
      → MayClose card s
      → every is_ordered (map (update_row id (closed_row env session id dto p)) s.cards) ≡ true
  unfolding closed_row
  closed_ordered p card s ((valid, ordered), (found, above)) =
      every-map (λ c. is_ordered c && not (has_id id c && ltb dto.valor_final c.valor_inicial))
        is_ordered (update_row id (closed_row env session id dto p)) s.cards row
        (every-any_not is_ordered _ (λ c. has_id id c && ltb dto.valor_final c.valor_inicial)
          s.cards (λ c o n. ground (arith, o, n))
          (found_only id card (λ c. ltb dto.valor_final c.valor_inicial) s.cards valid.distinct
            found above)
          ordered)
    where
      row :
          (c : Card)
          → (is_ordered c && not (has_id id c && ltb dto.valor_final c.valor_inicial)) ≡ true
          → is_ordered (update_row id (closed_row env session id dto p) c) ≡ true
      row c h = elim (Bool-cases (c.id == id)) [
        | inl this ↦ ground (arith, this, h)
        | inr other ↦ ground (arith, other, h)
      ]

  close_tx-Ordered :
      (p : Settled) (card : Card)
      → Ensures (MayClose card) (λ _. HasOrdered) (close_tx env session id dto p)
  unfolding close_tx
  close_tx-Ordered p card = Ensures-bind (Ensures-throw_where _ _) (λ _.
      Ensures-bind (Ensures-throw_where _ _) (λ _.
        Ensures-bind (Ensures-modify {Q = HasOrdered} (λ s h. closed_ordered p card s h.0.0)) (λ _.
          Ensures-bind (Ensures-Keeps Keeps-gets) (λ o.
            Ensures-bind (Ensures-Keeps (final-Ordered p o)) (λ _.
              Ensures-bind (Ensures-Keeps (fuel-Ordered p)) (λ _.
                Ensures-bind (Ensures-Keeps Keeps-gets)
                  (λ c. Ensures-Keeps (Keeps-or_throw c _))))))))

  shifts-MayClose :
      (card : Card) (date : ℕ) (type : ShiftType)
      → Keeps (MayClose card) (upsert_shift env session.user_id date type)
  unfolding upsert_shift
  shifts-MayClose card date type = record {
    held = λ s h. stays s (find (has_key session.user_id date type) s.shifts) h;
  }
    where
      stays :
          (s : Db) (o : Option Shift)
          → MayClose card s
          → MayClose card (upserted env session.user_id date type o s).1
      stays s none ((valid, ordered), rest) = ((IsValid-tables s _ valid refl refl, ordered), rest)
      stays s (some shift) h = h

  close_open-Ordered :
      (card : Card) (b : Bool)
      → Leaves (MayClose card) HasOrdered (close_open env session id dto (λ t. t) card b)
  unfolding close_open
  close_open-Ordered card b =
      Leaves-bind (λ s h. h.0.1)
        (settle_close-Keeps env session id dto (shifts-MayClose card)
          (λ s keys h. ((IsValid-tables s _ h.0.0 refl refl, h.0.1), h.1)) card b)
        (λ p.
          Leaves-bind (λ s h. h.0.1) (Keeps-modify (λ s h. h))
            (λ _.
              Leaves-caught (λ s h. h.0.1) (close_tx-Ordered p card)
                (λ e. Keeps-bind (Keeps-modify (λ s h. h)) (λ _.
                  on_close_error-Keeps env session id dto (shifts-Ordered env session.user_id)
                    (λ s keys h. h) e))))

  checked_above :
      (s : Db) (c : Card) (b : Bool)
      → check_close session id dto s ≡ ok (may_close c b)
      → (find (has_id id) s.cards ≡ some c) × (ltb dto.valor_final c.valor_inicial ≡ false)
  unfolding check_close find_card
  checked_above s c b h =
      let (d, found, h1) =
        >>=-eq-ok (Result.or_throw (find_card id s.cards) card_not_found) _ _ h in
      let (u, allowed, h2) =
        >>=-eq-ok (Result.throw_if (not (may_close_card session d s)) not_owner) _ _ h1 in
      let (same, above) = open_above d h2 in
      (
        or_throw-eq-ok (find_card id s.cards) card_not_found d found ∙ ap some same,
        subst (λ x. ltb dto.valor_final x.valor_inicial ≡ false) same above,
      )
    where
      no_error : {e : ShiftError} {x : Closing} → err e ≡ ok x → ⊥
      no_error k = cc

      no_replay :
          (r : Result ShiftError Closing) (x : Card)
          → r ≡ ok (replay x)
          → r ≡ ok (may_close c b)
          → ⊥
      no_replay r x k l = cc

      same_card :
          (r : Result ShiftError Closing) (x : Card) (w : Bool)
          → r ≡ ok (may_close x w)
          → r ≡ ok (may_close c b)
          → x ≡ c
      same_card r x w k l = cc

      open_above :
          (d : Card)
          → (if is_open d then answer_open session id dto d s else answer_closed session id dto d)
            ≡ ok (may_close c b)
          → (d ≡ c) × (ltb dto.valor_final d.valor_inicial ≡ false)
      open_above d k = elim (Bool-cases (is_open d)) [
        | inl still ↦ elim (Bool-cases (ltb dto.valor_final d.valor_inicial)) [
          | inl below ↦ absurd (no_error (rw (still, below) at k))
          | inr above ↦ (same_card _ d _ refl (rw (still, above) at k), above)
        ]
        | inr closed ↦ elim (Bool-cases (opt_eq d.close_client_id (some dto.close_client_id))) [
          | inl mine ↦ absurd (no_replay _ d refl (rw (closed, mine) at k))
          | inr foreign ↦ absurd (no_error (rw (closed, foreign) at k))
        ]
      ]

  -- A close during which nobody else commits keeps the readings in order.
  pub close_card-HasOrdered :
      (s : Db) → IsValid s → HasOrdered s → HasOrdered (close_card env session id dto (λ t. t) s).1
  unfolding close_card ◌>>=◌
  close_card-HasOrdered s valid ordered = answered (check_close session id dto s) refl
    where
      answered :
          (r : Result ShiftError Closing)
          → check_close session id dto s ≡ r
          → HasOrdered (continued (r, s) (close_checked env session id dto (λ t. t))).1
      answered (err e) h = ordered
      answered (ok (replay c)) h = ordered
      answered (ok (may_close c b)) h =
          (close_open-Ordered c b).held s ((valid, ordered), checked_above s c b h)
