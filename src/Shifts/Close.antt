-- ===== src/Shifts/Close.antt =====
-- `closeCard` of src/shifts/shifts.service.ts with `resolveCloseRace` of
-- src/common/idempotency/resolve-close-race.ts. `inside` is what other requests commit between the
-- queries of the close and its transaction. The replay of a close reads the card once.
pub mod Checks
pub mod Steps
pub mod Keeps
pub mod Retry
use smi_backend.Prelude.{
  ℕ, Bool, true, false, not, ◌&&◌, ◌||◌, Option, none, some, List, [], ◌∷◌, ◌==◌, ltb,
  if◌then◌else◌, or_default, is_some, opt_eq, filter, any,
}
use smi_backend.Prelude.Int.{ℤ}
use smi_backend.Prelude.Result.{Result, ok, err}
use smi_backend.Prelude.Handler.{
  ◌>>=◌, ◌>>◌, pure, throw, gets, modify, reads, throw_if, throw_where, or_throw, atomic, catch,
}
use smi_backend.Concurrency.Expected.{trim}
use smi_backend.Dates.CaptureTime.{
  ResolvedCaptureTime, resolve_captured_at, resolve_captured_at_with_fallback,
}
use smi_backend.Equipment.Counter.{Equipment}
use smi_backend.Shifts.Calendar.{ShiftType, is_outside_window, is_past_business_day}
use smi_backend.Shifts.Types.{
  Card, FuelRecord, Db, Session, CloseShiftCardDto, ShiftError, invalid_shift_date, missing_shift,
  card_not_found, not_owner, id_conflict, already_closed, hourmeter_below_initial, tmp_key_expired,
  close_race, unique_violation, null_card,
}
use smi_backend.Shifts.Queries.{
  Env, is_light, find_card, has_id, is_open, same_key, update_card, upsert_shift, reconcile,
  is_owner_or_admin,
}
use smi_backend.Shifts.Open.Checks.{capture_time}
use smi_backend.Shifts.Close.Checks.{Closing, replay, may_close, display_name, check_close}

-- A tmp photo that was claimed and is not needed.
abbrev pub discard : ℕ → Db → Db
discard key s = record s { bucket = filter (λ k. not (k == key)) s.bucket }

-- The table of fuel records with the row of one card replaced.
abbrev pub set_fuel : ℕ → Option FuelRecord → (ℕ → Option FuelRecord) → ℕ → Option FuelRecord
set_fuel card f table i = if i == card then f else table i

-- `registroCombustible.create`
abbrev pub insert_fuel : ℕ → FuelRecord → Option FuelRecord → Db → Result ShiftError (Unit {0}) × Db
insert_fuel card f (some g) s = (err unique_violation, s)
insert_fuel card f none s = (ok tt, record s { fuel = set_fuel card (some f) s.fuel })

-- A close with the times, the shift and the photo that it stores.
pub record Settled : Type 0 where
  pub card : Card
  pub captured : ResolvedCaptureTime
  pub photo_at : ℤ
  pub shift : Option ℕ
  pub photo : ℕ

module _ (env : Env) (session : Session) (id : ℕ) (dto : CloseShiftCardDto) where
  -- The shift of the user who closes the card of a light vehicle.
  abbrev pub shift_sent : Option ℕ → Option ShiftType → Db → Result ShiftError ℕ × Db
  shift_sent (some date) (some type) = do
    throw_if (is_outside_window env.clock date env.now) invalid_shift_date
    upsert_shift env session.user_id date type
  shift_sent _ _ = throw missing_shift

  abbrev pub closed_shift : Bool → Db → Result ShiftError (Option ℕ) × Db
  closed_shift false = pure none
  closed_shift true = do shift ← shift_sent dto.shift_date dto.shift_type; pure (some shift)

  -- `esCargaHistorica`
  abbrev pub is_historical : Card → Bool
  is_historical c =
      is_past_business_day env.clock (env.clock.day_of c.fecha) env.now
      && (env.clock.day_of c.created_at == env.clock.day_of env.now)

  -- `storage.claimTmp`
  abbrev pub claimed : Option ℕ → Db → Result ShiftError ℕ × Db
  claimed none s = (err tmp_key_expired, s)
  claimed (some key) s = (ok key, record s { bucket = key ∷ s.bucket })

  abbrev pub settle_close : Card → Bool → Db → Result ShiftError Settled × Db
  settle_close card is_light_vehicle = do
    shift ← closed_shift is_light_vehicle
    captured ←
        reads (λ _. capture_time (resolve_captured_at env.parse (some dto.captured_at) env.now))
    let photo_at =
        resolve_captured_at_with_fallback env.parse dto.photo_captured_at captured.at env.now
    photo ← λ s. claimed (env.claim_tmp dto.tmp_photo_key session.user_id s.bucket) s
    pure (record {
      card = card;
      captured = captured;
      photo_at = photo_at;
      shift = shift;
      photo = photo;
    })

  -- `discardedSkewMs` is written only where the card as it was read has no skew.
  abbrev pub close_skew : Option ℤ → Option ℤ → Option ℤ → Option ℤ
  close_skew none read stored = stored
  close_skew (some skew) (some r) stored = stored
  close_skew (some skew) none stored = some skew

  -- The data that `updateMany` writes.
  unfoldable pub closed_row : Settled → Card → Card
  closed_row p c = record c {
    valor_final = some dto.valor_final;
    fecha_salida = some (if is_historical p.card then p.card.fecha else p.captured.at);
    closed_at = some env.now;
    close_client_id = some dto.close_client_id;
    closed_by_id = some session.user_id;
    closed_by_name = some (display_name session);
    closed_shift_id = p.shift;
    fuel_liters = some dto.fuel_liters;
    pump_photo_key = some p.photo;
    observaciones = dto.observaciones;
    ad_blue = or_default dto.ad_blue false;
    ad_blue_liters = if or_default dto.ad_blue false then dto.ad_blue_liters else none;
    client_clock_skew_ms =
        close_skew p.captured.discarded_skew_ms p.card.client_clock_skew_ms c.client_clock_skew_ms;
  }

  -- The row that the `where` of `updateMany` selects.
  abbrev pub is_open_card : Card → Bool
  is_open_card c = has_id id c && is_open c

  -- Another card has the id of the close, which the unique index refuses.
  abbrev pub has_close_key : Card → Bool
  has_close_key c = not (has_id id c) && same_key c.close_client_id (some dto.close_client_id)

  abbrev pub set_below : Bool → Card → Db → Db
  set_below below read s =
      if below && not read.below_previous_reading
      then update_card id (λ c. record c { below_previous_reading = true }) s
      else s

  -- The counter of the equipment, if there is one, moves forward with the final reading.
  abbrev pub advance_to_final : Card → Option Equipment → Db → Result ShiftError (Unit {0}) × Db
  advance_to_final card none = pure tt
  advance_to_final card (some equipo) = do
    below ← reconcile card.equipo_id equipo dto.valor_final
    modify (set_below below card)

  abbrev pub record_fuel : Settled → Db → Result ShiftError (Unit {0}) × Db
  record_fuel p s =
      if ltb 0 dto.fuel_liters
      then insert_fuel id
          (record {
            equipo_id = p.card.equipo_id;
            litros = dto.fuel_liters;
            foto_key = some p.photo;
            fecha = if is_historical p.card then p.card.fecha else p.photo_at;
          })
          (s.fuel id) s
      else (ok tt, s)

  -- The transaction.
  unfoldable pub close_tx : Settled → Db → Result ShiftError Card × Db
  close_tx p = do
    throw_where (λ s. not (any is_open_card s.cards)) close_race
    throw_where (λ s. any has_close_key s.cards) unique_violation
    modify (update_card id (closed_row p))
    equipo ← gets (λ s. s.counters p.card.equipo_id)
    advance_to_final p.card equipo
    record_fuel p
    closed ← gets (λ s. find_card id s.cards)
    or_throw closed null_card

  -- `resolveCloseRace`
  abbrev pub close_winner : Option Card → Result ShiftError Card
  close_winner none = err already_closed
  close_winner (some c) =
      if opt_eq c.close_client_id (some dto.close_client_id)
      then ok c
      else if is_open c
      then err id_conflict
      else err already_closed

  unfoldable pub resolve_close_race : Db → Result ShiftError Card × Db
  resolve_close_race s = (close_winner (find_card id s.cards), s)

  abbrev pub on_close_error : ShiftError → Db → Result ShiftError Card × Db
  on_close_error close_race = resolve_close_race
  on_close_error unique_violation = resolve_close_race
  on_close_error e = throw e

  -- The part of `closeCard` that follows its checks.
  unfoldable pub close_open : (Db → Db) → Card → Bool → Db → Result ShiftError Card × Db
  close_open inside card is_light_vehicle = do
    p ← settle_close card is_light_vehicle
    modify inside
    catch (atomic (close_tx p)) (λ e. modify (discard p.photo) >> on_close_error e)

  abbrev pub close_checked : (Db → Db) → Closing → Db → Result ShiftError Card × Db
  close_checked inside (replay c) = pure c
  close_checked inside (may_close c is_light_vehicle) = close_open inside c is_light_vehicle

  -- `closeCard`
  unfoldable pub close_card : (Db → Db) → Db → Result ShiftError Card × Db
  close_card inside = do closing ← reads (check_close session id dto); close_checked inside closing
