-- ===== src/Dates/CaptureTime.antt =====
-- src/common/dates/capture-time.ts: the time of a record that a device has captured. A time is a
-- number of milliseconds since 1970. `parse` is `new Date(value).getTime()`, with none for NaN; it
-- is the same for the four functions.
use smi_backend.Prelude.{
  ℕ, ◌≡◌, ◌⊎◌, refl, inl, inr, Bool, true, ◌&&◌, Option, none, some, List, [], ◌∷◌, arith,
  if◌then◌else◌, Bool-cases, Option-cases,
}
use smi_backend.Prelude.Int.{ℤ, pos, negsuc, ◌-ℤ◌, ◌≤ℤ◌, leb_ℤ, ltb_ℤ, int_laws, leb_ℤ→≤ℤ}
use smi_backend.Prelude.Result.{Result, ok, err}

abbrev pub max_future_capture_skew_ms : ℤ
max_future_capture_skew_ms = pos 86400000

abbrev pub min_past_capture_skew_ms : ℤ
min_past_capture_skew_ms = negsuc 604799999

abbrev pub postgres_int4_max : ℤ
postgres_int4_max = pos 2147483647

abbrev pub postgres_int4_min : ℤ
postgres_int4_min = negsuc 2147483646

abbrev pub max_record_date_future_ms : ℤ
max_record_date_future_ms = pos 300000

-- `boundedSkewMs`
abbrev pub bounded_skew_ms : ℤ → Option ℤ
bounded_skew_ms skew =
    if leb_ℤ postgres_int4_min skew && leb_ℤ skew postgres_int4_max then some skew else none

-- `isWithinCaptureWindow`
abbrev pub is_within_capture_window : ℤ → ℤ → Bool
is_within_capture_window date now =
    leb_ℤ (date -ℤ now) max_future_capture_skew_ms && leb_ℤ min_past_capture_skew_ms (date -ℤ now)

pub record ResolvedCaptureTime : Type 0 where
  pub at : ℤ
  pub discarded_skew_ms : Option ℤ

-- The two codes of the 400s.
pub data DateError : Type 0 where
  invalid_capture_time invalid_record_date : DateError

-- A header or field that was sent: a missing one and an empty text are both falsy.
abbrev pub sent : Option (List ℕ) → Option (List ℕ)
sent none = none
sent (some []) = none
sent (some (c ∷ cs)) = some (c ∷ cs)

module _ (parse : List ℕ → Option ℤ) where
  abbrev pub captured_at : Option ℤ → ℤ → Result DateError ResolvedCaptureTime
  captured_at none now = err invalid_capture_time
  captured_at (some captured) now =
      if is_within_capture_window captured now
      then ok (record { at = captured; discarded_skew_ms = none })
      else ok (record { at = now; discarded_skew_ms = bounded_skew_ms (now -ℤ captured) })

  abbrev pub resolve_sent : Option (List ℕ) → ℤ → Result DateError ResolvedCaptureTime
  resolve_sent none now = ok (record { at = now; discarded_skew_ms = none })
  resolve_sent (some value) now = captured_at (parse value) now

  -- `resolveCapturedAt`
  unfoldable pub resolve_captured_at : Option (List ℕ) → ℤ → Result DateError ResolvedCaptureTime
  resolve_captured_at value now = resolve_sent (sent value) now

  abbrev pub at_of : Result DateError ResolvedCaptureTime → Result DateError ℤ
  at_of (ok r) = ok r.at
  at_of (err e) = err e

  abbrev pub chosen_date : Option ℤ → ℤ → Result DateError ℤ
  chosen_date none now = err invalid_record_date
  chosen_date (some elegida) now =
      if ltb_ℤ max_record_date_future_ms (elegida -ℤ now)
      then err invalid_record_date
      else ok elegida

  abbrev pub record_date_sent : Option (List ℕ) → Option (List ℕ) → ℤ → Result DateError ℤ
  record_date_sent none captured now = at_of (resolve_captured_at captured now)
  record_date_sent (some fecha) captured now = chosen_date (parse fecha) now

  -- `resolveRecordDate`
  unfoldable pub resolve_record_date : Option (List ℕ) → Option (List ℕ) → ℤ → Result DateError ℤ
  unfolding resolve_captured_at
  resolve_record_date fecha captured now = record_date_sent (sent fecha) captured now

  abbrev pub skew_of : Option ℤ → ℤ → Option ℤ
  skew_of none now = none
  skew_of (some client_now) now = bounded_skew_ms (now -ℤ client_now)

  abbrev pub skew_sent : Option (List ℕ) → ℤ → Option ℤ
  skew_sent none now = none
  skew_sent (some value) now = skew_of (parse value) now

  -- `computeClientClockSkewMs`
  unfoldable pub compute_client_clock_skew_ms : Option (List ℕ) → ℤ → Option ℤ
  compute_client_clock_skew_ms header now = skew_sent (sent header) now

  abbrev pub within_or : Option ℤ → ℤ → ℤ → ℤ
  within_or none fallback now = fallback
  within_or (some parsed) fallback now =
      if is_within_capture_window parsed now then parsed else fallback

  abbrev pub fallback_sent : Option (List ℕ) → ℤ → ℤ → ℤ
  fallback_sent none fallback now = fallback
  fallback_sent (some value) fallback now = within_or (parse value) fallback now

  -- `resolveCapturedAtWithFallback`
  unfoldable pub resolve_captured_at_with_fallback : Option (List ℕ) → ℤ → ℤ → ℤ
  resolve_captured_at_with_fallback value fallback now = fallback_sent (sent value) fallback now

-- A time that may be stored: at most a day after and at most seven days before the server's.
abbrev pub InWindow : ℤ → ℤ → Type 0
InWindow now at =
    ((at -ℤ now) ≤ℤ max_future_capture_skew_ms) × (min_past_capture_skew_ms ≤ℤ (at -ℤ now))

-- A number that the column `INTEGER` can hold, if there is one.
abbrev pub FitsColumn : Option ℤ → Type 0
FitsColumn none = Unit
FitsColumn (some n) = (postgres_int4_min ≤ℤ n) × (n ≤ℤ postgres_int4_max)

bounded_skew_ms-FitsColumn : (n : ℤ) → FitsColumn (bounded_skew_ms n)
bounded_skew_ms-FitsColumn n =
    elim (Bool-cases (leb_ℤ postgres_int4_min n && leb_ℤ n postgres_int4_max)) [
      | inr over ↦ rw over tt
      | inl fits ↦ rw fits (
        leb_ℤ→≤ℤ postgres_int4_min n (ground (arith, fits)),
        leb_ℤ→≤ℤ n postgres_int4_max (ground (arith, fits)),
      )
    ]

now_InWindow : (now : ℤ) → InWindow now now
now_InWindow now = (omega int_laws, omega int_laws)

captured_InWindow : (at now : ℤ) → is_within_capture_window at now ≡ true → InWindow now at
captured_InWindow at now h = (
  leb_ℤ→≤ℤ (at -ℤ now) max_future_capture_skew_ms (ground (arith, h)),
  leb_ℤ→≤ℤ min_past_capture_skew_ms (at -ℤ now) (ground (arith, h)),
)

-- What may be written of a capture: a time of the window and a skew that fits its column.
abbrev pub MayStore : ℤ → ResolvedCaptureTime → Type 0
MayStore now r = InWindow now r.at × FitsColumn r.discarded_skew_ms

-- How a capture time is resolved: it may be stored, or a text was sent that is no date.
abbrev pub Resolution : (List ℕ → Option ℤ) → Option (List ℕ) → ℤ → Type 0
Resolution parse value now =
    ((r : ResolvedCaptureTime) × (resolve_captured_at parse value now ≡ ok r) × MayStore now r)
    ⊎ ((resolve_captured_at parse value now ≡ err invalid_capture_time)
        × ((v : List ℕ) × (sent value ≡ some v) × (parse v ≡ none)))

module _ (parse : List ℕ → Option ℤ) (now : ℤ) where
  captured_at-MayStore :
      (at : ℤ)
      → (r : ResolvedCaptureTime) × (captured_at parse (some at) now ≡ ok r) × MayStore now r
  captured_at-MayStore at = elim (Bool-cases (is_within_capture_window at now)) [
    | inl inside ↦ (
      record { at = at; discarded_skew_ms = none },
      rw inside refl,
      (captured_InWindow at now inside, tt),
    )
    | inr outside ↦ (
      record { at = now; discarded_skew_ms = bounded_skew_ms (now -ℤ at) },
      rw outside refl,
      (now_InWindow now, bounded_skew_ms-FitsColumn (now -ℤ at)),
    )
  ]

  -- A capture is refused only if a text was sent that is no date; otherwise the time that is stored
  -- is at most a day after and at most seven days before the server's, and the skew that is reported
  -- fits its column.
  pub resolve_captured_at-Resolution : (value : Option (List ℕ)) → Resolution parse value now
  unfolding resolve_captured_at
  resolve_captured_at-Resolution value = elim (Option-cases (sent value)) [
    | inl absent ↦ inl (
      record { at = now; discarded_skew_ms = none },
      rw (resolve_captured_at, absent) refl,
      (now_InWindow now, tt),
    )
    | inr (v, e) ↦ elim (Option-cases (parse v)) [
      | inl invalid ↦ inr (rw (resolve_captured_at, e, invalid) refl, (v, e, invalid))
      | inr (at, valid) ↦
          let (r, done, may) = captured_at-MayStore at in
          inl (r, rw (resolve_captured_at, e, valid) done, may)
    ]
  ]
