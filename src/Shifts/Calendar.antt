-- ===== src/Shifts/Calendar.antt =====
-- src/shifts/date-only.ts and src/common/dates/business-time.ts: the day of a shift against the
-- clock of the business. A calendar day is its number since 1970, so that the order of the days is
-- that of the texts `YYYY-MM-DD`; a time is a number of milliseconds. What `Intl.DateTimeFormat`
-- makes of a time, its day and its hour in the time zone of the business, is a parameter.
use smi_backend.Prelude.{
  ℕ, ◌+◌, ◌*◌, ◌≤◌, ◌<◌, ◌≡◌, ◌↔◌, Bool, true, false, not, ◌&&◌, ◌||◌, arith, ◌==◌, ltb,
  if◌then◌else◌,
}
use smi_backend.Prelude.Int.{ℤ, pos}

-- `ShiftType`
pub data ShiftType : Type 0 where
  diurno nocturno : ShiftType

-- `todayInBusinessTimeZone` and `businessHour`
pub record BusinessClock : Type 0 where
  pub day_of : ℤ → ℕ
  pub hour_of : ℤ → ℕ

-- `isPastBusinessDay`
abbrev pub is_past_business_day : BusinessClock → ℕ → ℤ → Bool
is_past_business_day clock date now = ltb date (clock.day_of now)

-- The tests of `isPastShift` after the first.
abbrev pub has_ended : ShiftType → BusinessClock → ℕ → ℤ → Bool
has_ended diurno clock date now = true
has_ended nocturno clock date now =
    not ((date + 1 == clock.day_of now) && ltb (clock.hour_of now) 8)

-- `isPastShift`
unfoldable pub is_past_shift : BusinessClock → ℕ → ShiftType → ℤ → Bool
is_past_shift clock date type now =
    if is_past_business_day clock date now then has_ended type clock date now else false

-- `SHIFT_DATE_MAX_PAST_DAYS`
abbrev pub shift_date_max_past_days : ℕ
shift_date_max_past_days = 30

-- `SHIFT_DATE_MAX_FUTURE_DAYS`
abbrev pub shift_date_max_future_days : ℕ
shift_date_max_future_days = 1

-- The condition of `assertShiftDateWithinWindow`, under which it throws.
unfoldable pub is_outside_window : BusinessClock → ℕ → ℤ → Bool
is_outside_window clock date now =
    ltb (date + shift_date_max_past_days) (clock.day_of now)
    || ltb (clock.day_of now + shift_date_max_future_days) date

-- `businessDayInstant` at the time that `openCard` asks for: 12:00 or 20:30, three hours behind UTC.
abbrev pub business_day_instant : ℕ → ShiftType → ℤ
business_day_instant date diurno = pos (date * 86400000 + 54000000)
business_day_instant date nocturno = pos (date * 86400000 + 84600000)

-- A night shift, which runs from 20:00 to 08:00 of the day after, counts as past exactly from that
-- 08:00 on, on a clock whose hours are below 24.
pub is_past_shift-night :
    (clock : BusinessClock) (date : ℕ) (now : ℤ)
    → clock.hour_of now < 24
    → (is_past_shift clock date nocturno now ≡ true)
      ↔ ((date + 1) * 24 + 8 ≤ clock.day_of now * 24 + clock.hour_of now)
unfolding is_past_shift
is_past_shift-night clock date now h = ground arith
