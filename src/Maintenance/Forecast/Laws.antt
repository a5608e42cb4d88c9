-- ===== src/Maintenance/Forecast/Laws.antt =====
-- Which day `forecastMaintenance` suggests for a maintenance.
use smi_backend.Prelude.{
  ℕ, zero, suc, ◌+◌, ◌-◌, ◌≤◌, ◌<◌, ◌≡◌, ◌⊎◌, refl, sym, ap, subst, ◌∙◌, inl, inr, false, Option,
  none, some, arith, ◌==◌, ltb, Bool-cases,
}
use smi_backend.Maintenance.Forecast.{
  max_forecast_days, suggestion_window_days, UsageRate, Forecast, days_to, use_on, is_better,
  suggest, estimated, forecast_maintenance,
}

-- A day with less use than another one, or with as much use and not before it.
abbrev pub IsBetter : (ℕ → ℕ) → ℕ → ℕ → Type 0
IsBetter profile s i =
    (use_on profile s < use_on profile i) ⊎ ((use_on profile s ≡ use_on profile i) × (i ≤ s))

-- The best day so far stands in the loop, or is better than the one that replaces it.
IsBetter-later :
    (profile : ℕ → ℕ) (s i j : ℕ)
    → IsBetter profile s i
    → use_on profile i ≤ use_on profile j
    → j ≤ i
    → i ≤ s
    → IsBetter profile s j
IsBetter-later profile s i j (inl less) le back ahead = inl (omega (arith, less, le))
IsBetter-later profile s i j (inr (same, at)) le back ahead =
    elim (Bool-cases (ltb (use_on profile i) (use_on profile j))) [
      | inl less ↦ inl (ground (arith, less, same))
      | inr even ↦ inr (ground (arith, even, same, le), omega (arith, back, ahead))
    ]

suggest-keeps :
    (profile : ℕ → ℕ) (n dia b s : ℕ)
    → b < dia
    → suggest profile n dia (some b) ≡ some s
    → IsBetter profile s b × (b ≤ s) × (s < dia + n)
suggest-keeps profile zero dia b s h e =
    let is : b ≡ s = ground (arith, e) in
    (inr (ap (use_on profile) (sym is), omega (arith, is)), omega (arith, is), omega (arith, is, h))
suggest-keeps profile (suc n) dia b s h e = elim (Bool-cases (is_better profile dia (some b))) [
  | inr stays ↦
      let (better, from, to) =
        suggest-keeps profile n (dia + 1) b s (omega (arith, h)) (simp stays at e) in
      (better, from, omega (arith, to))
  | inl moves ↦
      let (better, from, to) =
        suggest-keeps profile n (dia + 1) dia s (omega arith) (simp moves at e) in
      (
        IsBetter-later profile s dia b better (ground (arith, moves)) (omega (arith, h)) from,
        omega (arith, from, h),
        omega (arith, to),
      )
]

-- The day so far is before the days that are left.
abbrev IsBefore : Option ℕ → ℕ → Type 0
IsBefore none dia = Unit
IsBefore (some b) dia = b < dia

IsBetter-trans :
    (profile : ℕ → ℕ) (s b i : ℕ)
    → IsBetter profile s b
    → IsBetter profile b i
    → IsBetter profile s i
IsBetter-trans profile s b i (inl h) (inl k) = inl (omega (arith, h, k))
IsBetter-trans profile s b i (inl h) (inr (same, at)) = inl (omega (arith, h, same))
IsBetter-trans profile s b i (inr (same, at)) (inl k) = inl (omega (arith, same, k))
IsBetter-trans profile s b i (inr (same, at)) (inr (same', at')) =
    inr (same ∙ same', omega (arith, at, at'))

-- The best day after one turn of the loop.
abbrev Turn : (ℕ → ℕ) → ℕ → ℕ → ℕ → Type 0
Turn profile n dia s =
    (b : ℕ) × (b < dia + 1)
    × (suggest profile n (dia + 1) (some b) ≡ some s)
    × IsBetter profile b dia

suggest-Turn :
    (profile : ℕ → ℕ) (n dia : ℕ) (best : Option ℕ) (s : ℕ)
    → IsBefore best dia
    → suggest profile (suc n) dia best ≡ some s
    → Turn profile n dia s
suggest-Turn profile n dia none s h e = (dia, omega arith, e, inr (refl, omega arith))
suggest-Turn profile n dia (some b) s h e = elim (Bool-cases (is_better profile dia (some b))) [
  | inl moves ↦ (dia, omega arith, simp moves at e, inr (refl, omega arith))
  | inr stays ↦ (b, omega (arith, h), simp stays at e, inl (ground (arith, stays)))
]

suggest-IsBetter :
    (profile : ℕ → ℕ) (n dia : ℕ) (best : Option ℕ) (s i : ℕ)
    → IsBefore best dia
    → suggest profile n dia best ≡ some s
    → dia ≤ i
    → i < dia + n
    → IsBetter profile s i
suggest-IsBetter profile zero dia best s i h e from to = absurd (omega (arith, from, to))
suggest-IsBetter profile (suc n) dia best s i h e from to =
    let (b, before, rest, better) = suggest-Turn profile n dia best s h e in
    elim (Bool-cases (i == dia)) [
      | inl first ↦
          let (keeps, _, _) = suggest-keeps profile n (dia + 1) b s before rest in
          subst (IsBetter profile s) (ground (arith, first))
            (IsBetter-trans profile s b dia keeps better)
      | inr later ↦
          suggest-IsBetter profile n (dia + 1) (some b) s i before rest
            (ground (arith, later, from)) (omega (arith, to))
    ]

suggest-within :
    (profile : ℕ → ℕ) (n dia s : ℕ)
    → suggest profile (suc n) dia none ≡ some s
    → (dia ≤ s) × (s < dia + suc n)
suggest-within profile n dia s e =
    let (_, from, to) = suggest-keeps profile n (dia + 1) dia s (omega arith) e in
    (from, omega (arith, to))

-- The days of a forecast that is estimated.
pub record Estimated (profile : ℕ → ℕ) (today s i : ℕ) (f : Forecast) : Type 0 where
  pub week_start : ℕ
  pub week_start_is : f.week_start ≡ some week_start
  pub estimated_date : ℕ
  pub estimated_date_is : f.estimated_date ≡ some estimated_date
  pub from_today : today ≤ week_start
  pub one_week : estimated_date < week_start + suggestion_window_days
  pub not_early : week_start ≤ s
  pub not_late : s ≤ estimated_date
  pub best : (i < week_start) ⊎ (estimated_date < i) ⊎ IsBetter profile s i

suggest-some : (profile : ℕ → ℕ) (n dia b : ℕ) → (s : ℕ) × (suggest profile n dia (some b) ≡ some s)
suggest-some profile zero dia b = (b, refl)
suggest-some profile (suc n) dia b = elim (Bool-cases (is_better profile dia (some b))) [
  | inl moves ↦ let (s, e) = suggest-some profile n (dia + 1) dia in (s, simp moves e)
  | inr stays ↦ let (s, e) = suggest-some profile n (dia + 1) b in (s, simp stays e)
]

estimated-Estimated :
    (profile : ℕ → ℕ) (r : UsageRate) (today dias i : ℕ)
    → (s : ℕ) × ((estimated (some profile) r today dias).suggested_date ≡ some s)
      × Estimated profile today s i (estimated (some profile) r today dias)
estimated-Estimated profile r today dias i =
    let first = today + (dias - 6) in
    let length : suc (today + dias - first) ≡ today + dias + 1 - first = omega arith in
    let (s, e) = suggest-some profile (today + dias - first) (first + 1) first in
    let (from, to) = suggest-within profile (today + dias - first) first s e in
    (
      s,
      subst (λ n. suggest profile n first none ≡ some s) length e,
      record {
        week_start = first;
        week_start_is = refl;
        estimated_date = today + dias;
        estimated_date_is = refl;
        from_today = omega arith;
        one_week = omega arith;
        not_early = from;
        not_late = omega (arith, to);
        best = best_day first s e;
      },
    )
  where
    best_day :
        (first s : ℕ)
        → suggest profile (suc (today + dias - first)) first none ≡ some s
        → (i < first) ⊎ (today + dias < i) ⊎ IsBetter profile s i
    best_day first s e = elim (Bool-cases (ltb i first)) [
      | inl early ↦ inl (ground (arith, early))
      | inr from ↦ elim (Bool-cases (ltb (today + dias) i)) [
        | inl late ↦ inr (inl (ground (arith, late)))
        | inr to ↦
            let not_before : first ≤ i = ground (arith, from) in
            let not_after : i ≤ today + dias = ground (arith, to) in
            inr (
              inr (
                suggest-IsBetter profile (suc (today + dias - first)) first none s i tt e not_before
                  (omega (arith, not_before, not_after))))
      ]
    ]

-- With a profile, an equipment that is used and a maintenance that is left within a year, a day is
-- suggested: it is one of at most seven, none before today and the last of them the estimated day,
-- and no other of them has less use, nor as much use and comes later.
pub forecast_maintenance-Estimated :
    (remaining today i : ℕ) (r : UsageRate) (profile : ℕ → ℕ)
    → 1 ≤ remaining
    → 1 ≤ r.used
    → days_to remaining r ≤ max_forecast_days
    → (s : ℕ) × ((forecast_maintenance remaining (some r) (some profile) today).suggested_date
        ≡ some s)
      × Estimated profile today s i (forecast_maintenance remaining (some r) (some profile) today)
unfolding forecast_maintenance
forecast_maintenance-Estimated remaining today i r profile left used near =
    let some_left : (remaining == 0) ≡ false = ground (arith, left) in
    let some_use : (r.used == 0) ≡ false = ground (arith, used) in
    let not_far : ltb max_forecast_days (days_to remaining r) ≡ false = ground (arith, near) in
    rw (forecast_maintenance, some_left)
      (rw some_use (rw not_far (estimated-Estimated profile r today (days_to remaining r) i)))
