-- ===== src/Shifts/Edit/Checks.antt =====
-- What `update` of src/shifts/shifts.service.ts checks, before the transaction and under the lock of
-- the row, with `mezclarTarjeta` and `assertExpectedLocked` of
-- src/common/concurrency/assert-expected-locked.ts.
use smi_backend.Prelude.{
  ◌≡◌, refl, ap, subst, ◌∙◌, ℕ, String, Bool, false, not, ◌&&◌, ◌||◌, Option, none, some, List, [],
  ◌∷◌, ltb, if◌then◌else◌, or_default, or_else, is_some, opt_eq,
}
use smi_backend.Prelude.Int.{pos}
use smi_backend.Prelude.Result.{
  Result, ok, err, ◌>>=◌, ◌>>◌, throw_if, or_throw, >>=-eq-ok, throw_if-eq-ok, or_throw-eq-ok,
  ok-inj,
}
use smi_backend.Concurrency.Expected.{
  Value, null, str, num, boolean, Fields, StaleUpdate, assert_expected, trim,
}
use smi_backend.Shifts.Types.{
  Operator, Card, Db, Session, UpdateShiftCardDto, ShiftError, nothing_to_correct, card_not_found,
  not_owner, card_not_closed, hourmeter_below_initial, stale_update,
}
use smi_backend.Shifts.Queries.{ad_blue_error, assert_active, find_card, is_owner_or_admin}

-- `DatosTarjeta`
pub record DatosTarjeta : Type 0 where
  pub operator_id : Option ℕ
  pub valor_inicial : ℕ
  pub valor_final : Option ℕ
  pub fuel_liters : Option ℕ
  pub ad_blue : Bool
  pub ad_blue_liters : Option ℕ
  pub observaciones : Option (List ℕ)

-- `datosDeTarjeta`
abbrev pub datos_de_tarjeta : Card → DatosTarjeta
datos_de_tarjeta c = record {
  operator_id = c.operator_id;
  valor_inicial = c.valor_inicial;
  valor_final = c.valor_final;
  fuel_liters = c.fuel_liters;
  ad_blue = c.ad_blue;
  ad_blue_liters = c.ad_blue_liters;
  observaciones = c.observaciones;
}

abbrev pub of_number : Option ℕ → Value
of_number none = null
of_number (some n) = num (pos n)

abbrev pub of_words : Option (List ℕ) → Value
of_words none = null
of_words (some t) = str t

-- The object of the data, by the numbers of its keys.
abbrev pub fields_of : DatosTarjeta → Fields
fields_of d =
    (0, of_number d.operator_id)
    ∷ (1, num (pos d.valor_inicial))
    ∷ (2, of_number d.valor_final)
    ∷ (3, of_number d.fuel_liters)
    ∷ (4, boolean d.ad_blue)
    ∷ (5, of_number d.ad_blue_liters)
    ∷ (6, of_words d.observaciones)
    ∷ []

-- The fields that `diffFields` compares.
abbrev pub card_fields : List ℕ
card_fields = 0 ∷ 1 ∷ 2 ∷ 3 ∷ 4 ∷ 5 ∷ 6 ∷ []

-- `text.trim() || null`
abbrev pub words_or_null : List ℕ → Option (List ℕ)
words_or_null [] = none
words_or_null (c ∷ cs) = some (c ∷ cs)

abbrev pub merged_words : Option (Option (List ℕ)) → Option (List ℕ) → Option (List ℕ)
merged_words none stored = stored
merged_words (some none) stored = none
merged_words (some (some t)) stored = words_or_null (trim t)

abbrev pub merged_liters : Option (Option ℕ) → Bool → Option ℕ → Option ℕ
merged_liters none ad_blue stored = if ad_blue then stored else none
merged_liters (some sent) ad_blue stored = sent

-- `mezclarTarjeta`
unfoldable pub mezclar_tarjeta : DatosTarjeta → UpdateShiftCardDto → Option ℕ → DatosTarjeta
mezclar_tarjeta actual dto operador = record {
  operator_id = or_else operador actual.operator_id;
  valor_inicial = or_default dto.valor_inicial actual.valor_inicial;
  valor_final = or_else dto.valor_final actual.valor_final;
  fuel_liters = or_else dto.fuel_liters actual.fuel_liters;
  ad_blue = or_default dto.ad_blue actual.ad_blue;
  ad_blue_liters =
      merged_liters dto.ad_blue_liters (or_default dto.ad_blue actual.ad_blue)
        actual.ad_blue_liters;
  observaciones = merged_words dto.observaciones actual.observaciones;
}

-- One of the fields of `CAMPOS_DE_CIERRE` is sent.
abbrev pub touches_close : UpdateShiftCardDto → Bool
touches_close dto =
    is_some dto.valor_final
    || (is_some dto.fuel_liters || (is_some dto.ad_blue || is_some dto.ad_blue_liters))

-- `camposRecibidos`
abbrev pub has_fields : UpdateShiftCardDto → Bool
has_fields dto =
    is_some dto.operator_id
    || (is_some dto.valor_inicial || (touches_close dto || is_some dto.observaciones))

-- The condition of `assertClosedFieldsAllowed`, under which it throws.
abbrev pub is_refused : UpdateShiftCardDto → Option ℕ → Bool
is_refused dto none = touches_close dto
is_refused dto (some final) = false

-- The final reading, if there is one, is less than the initial one.
abbrev pub is_below_initial : Option ℕ → ℕ → Bool
is_below_initial none initial = false
is_below_initial (some final) initial = ltb final initial

abbrev pub throw_error : Option ShiftError → Result ShiftError (Unit {0})
throw_error none = ok tt
throw_error (some e) = err e

abbrev pub as_error : Result StaleUpdate (Unit {0}) → Result ShiftError (Unit {0})
as_error (ok _) = ok tt
as_error (err (StaleUpdate.stale_update fields)) = err (stale_update fields)

-- The name of a field in a conflict is the field itself.
abbrev pub no_labels : ℕ → Option ℕ
no_labels f = none

abbrev pub name_or : Option Operator → String → String
name_or none stored = stored
name_or (some o) stored = o.name

abbrev pub id_of : Option Operator → Option ℕ
id_of none = none
id_of (some o) = some o.id

-- The reading of the operator that the body names, where it is not the stored one.
unfoldable pub active_operator : Option ℕ → Option ℕ → Db → Result ShiftError (Option Operator)
active_operator none stored s = ok none
active_operator (some id) stored s =
    if opt_eq (some id) stored then ok none else do o ← assert_active (s.operators id); ok (some o)

-- What `applyEdit` checks of the data that it would leave.
unfoldable pub check_merged : DatosTarjeta → Result ShiftError (Unit {0})
check_merged d = do
  throw_if (is_below_initial d.valor_final d.valor_inicial) hourmeter_below_initial
  throw_error (ad_blue_error d.ad_blue d.ad_blue_liters)

module _ (session : Session) (id : ℕ) (dto : UpdateShiftCardDto) where
  -- `findOwnedCard`
  unfoldable pub find_owned_card : Db → Result ShiftError Card
  find_owned_card s = do
    card ← or_throw (find_card id s.cards) card_not_found
    throw_if (not (is_owner_or_admin session card)) not_owner
    ok card

  -- The operator that was read before the lock is kept if it is the one that the body names.
  unfoldable pub kept_operator :
      Option Operator → Option ℕ → Db → Result ShiftError (Option Operator)
  kept_operator before stored s =
      if opt_eq (id_of before) dto.operator_id && not (opt_eq dto.operator_id stored)
      then ok before
      else active_operator dto.operator_id stored s

  -- `assertExpectedLocked` as `applyEdit` calls it: the stored card and the new operator.
  unfoldable pub locked_card :
      Option Operator → Option Fields → Db → Result ShiftError (Card × Option Operator)
  locked_card before expected s = do
    actual ← or_throw (find_card id s.cards) card_not_found
    throw_if (is_refused dto actual.valor_final) card_not_closed
    operador ← kept_operator before actual.operator_id s
    as_error (
        assert_expected (fields_of (datos_de_tarjeta actual)) expected
          (fields_of (mezclar_tarjeta (datos_de_tarjeta actual) dto (id_of operador))) no_labels)
    ok (actual, operador)

  -- What `update` checks before the transaction: the answer is the operator that it has read.
  unfoldable pub check_update : Db → Result ShiftError (Option Operator)
  check_update s = do
    throw_if (not (has_fields dto)) nothing_to_correct
    previa ← find_owned_card s
    throw_if (is_refused dto previa.valor_final) card_not_closed
    active_operator dto.operator_id previa.operator_id s

  -- The card that is locked is the stored one, and the body may be applied to it.
  pub locked_card-found :
      (before : Option Operator) (expected : Option Fields) (s : Db) (actual : Card)
      (operador : Option Operator)
      → locked_card before expected s ≡ ok (actual, operador)
      → (find_card id s.cards ≡ some actual) × (is_refused dto actual.valor_final ≡ false)
  unfolding locked_card
  locked_card-found before expected s actual operador h =
      let (c, found, h1) = >>=-eq-ok (or_throw (find_card id s.cards) card_not_found) _ _ h in
      let (u, allowed, h2) =
        >>=-eq-ok (throw_if (is_refused dto c.valor_final) card_not_closed) _ _ h1 in
      let (o, kept, h3) = >>=-eq-ok (kept_operator before c.operator_id s) _ _ h2 in
      let (v, passes, h4) =
        >>=-eq-ok
          (as_error (
            assert_expected (fields_of (datos_de_tarjeta c)) expected
              (fields_of (mezclar_tarjeta (datos_de_tarjeta c) dto (id_of o))) no_labels))
          _ _ h3 in
      let same : c ≡ actual =
        ap (λ x. x.0) (ok-inj (c, o) (actual, operador) (ok (c, o)) refl h4) in
      (
        or_throw-eq-ok (find_card id s.cards) card_not_found c found ∙ ap some same,
        subst (λ x. is_refused dto x.valor_final ≡ false) same
            (throw_if-eq-ok (is_refused dto c.valor_final) card_not_closed u allowed),
      )
