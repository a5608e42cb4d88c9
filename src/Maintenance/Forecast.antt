-- ===== src/Maintenance/Forecast.antt =====
-- `forecastMaintenance` of src/mantenimiento/pronostico/usage-forecast.ts: the estimated day of the
-- next maintenance and the day that is suggested for it. A day is a number of days from a Sunday,
-- whose order is that of the texts `YYYY-MM-DD`. What remains is a number of the smallest unit, and
-- a rate of use is a fraction with a positive denominator; a profile gives the use of a weekday.
pub mod Laws
use smi_backend.Prelude.{
  ℕ, zero, suc, ◌+◌, ◌-◌, ◌*◌, ◌/◌, ◌%◌, ◌≤◌, ◌<◌, ◌≡◌, ◌⊎◌, refl, sym, ap, subst, ◌∙◌, inl, inr,
  Bool, true, false, Option, none, some, arith, ◌==◌, ltb, leb, if◌then◌else◌, Bool-cases,
  Option-cases,
}

abbrev pub max_forecast_days : ℕ
max_forecast_days = 365

abbrev pub suggestion_window_days : ℕ
suggestion_window_days = 7

pub data ForecastStatus : Type 0 where
  estimada toca_ahora faltan_datos sin_uso lejana : ForecastStatus

-- `rate`: the use of a day, as a fraction, and the days that it is based on.
pub record UsageRate : Type 0 where
  pub used : ℕ
  pub days : ℕ
  pub span_days : ℕ

pub record Forecast : Type 0 where
  pub status : ForecastStatus
  pub daily_usage_tenths : Option ℕ
  pub based_on_days : Option ℕ
  pub estimated_date : Option ℕ
  pub week_start : Option ℕ
  pub suggested_date : Option ℕ

-- `decima`, in tenths.
abbrev pub tenths_of : UsageRate → ℕ
tenths_of r = (20 * r.used + r.days) / (2 * r.days)

abbrev pub base_of : Option UsageRate → ForecastStatus → Forecast
base_of none status = record {
  status = status;
  daily_usage_tenths = none;
  based_on_days = none;
  estimated_date = none;
  week_start = none;
  suggested_date = none;
}
base_of (some r) status = record {
  status = status;
  daily_usage_tenths = some (tenths_of r);
  based_on_days = some r.span_days;
  estimated_date = none;
  week_start = none;
  suggested_date = none;
}

-- `Math.ceil(remaining / rate.rate)` for a positive rate.
abbrev pub days_to : ℕ → UsageRate → ℕ
days_to remaining r = (remaining * r.days + (r.used - 1)) / r.used

-- The use of a day by its weekday.
abbrev pub use_on : (ℕ → ℕ) → ℕ → ℕ
use_on profile dia = profile (dia % 7)

-- The test of the loop: no day yet, or one with no less use.
abbrev pub is_better : (ℕ → ℕ) → ℕ → Option ℕ → Bool
is_better profile dia none = true
is_better profile dia (some best) = leb (use_on profile dia) (use_on profile best)

-- The loop over the days, for a number of days from `dia` on.
abbrev pub suggest : (ℕ → ℕ) → ℕ → ℕ → Option ℕ → Option ℕ
suggest profile zero dia best = best
suggest profile (suc n) dia best =
    suggest profile n (dia + 1) (if is_better profile dia best then some dia else best)

abbrev pub suggested : Option (ℕ → ℕ) → ℕ → ℕ → Option ℕ
suggested none first last = none
suggested (some profile) first last = suggest profile (last + 1 - first) first none

-- The days of the window: the last is the estimated one.
abbrev pub estimated : Option (ℕ → ℕ) → UsageRate → ℕ → ℕ → Forecast
estimated profile r today dias = record (base_of (some r) estimada) {
  estimated_date = some (today + dias);
  week_start = some (today + (dias - (suggestion_window_days - 1)));
  suggested_date = suggested profile (today + (dias - (suggestion_window_days - 1))) (today + dias);
}

abbrev pub with_rate : Option UsageRate → Option (ℕ → ℕ) → ℕ → ℕ → Forecast
with_rate none profile remaining today = base_of none faltan_datos
with_rate (some r) profile remaining today =
    if r.used == 0
    then base_of (some r) sin_uso
    else if ltb max_forecast_days (days_to remaining r)
    then base_of (some r) lejana
    else estimated profile r today (days_to remaining r)

-- `forecastMaintenance`
unfoldable pub forecast_maintenance : ℕ → Option UsageRate → Option (ℕ → ℕ) → ℕ → Forecast
forecast_maintenance remaining rate profile today =
    if remaining == 0
    then record (base_of rate toca_ahora) {
      estimated_date = some today;
      week_start = some today;
      suggested_date = some today;
    }
    else with_rate rate profile remaining today
