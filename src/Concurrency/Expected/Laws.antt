-- ===== src/Concurrency/Expected/Laws.antt =====
-- What the precondition per field guarantees.
use smi_backend.Prelude.{
  ℕ, ◌≡◌, refl, sym, ap, ◌⊎◌, inl, inr, ◌↔◌, true, false, Option, some, List, [], ◌∷◌, arith,
  or_default, filter, All, Bool-cases, Option-cases, none, subst,
}
use smi_backend.Prelude.Int.{eq_of_parts}
use smi_backend.Prelude.Result.{ok}
use smi_backend.Concurrency.Expected.{
  Value, Comparable, missing, text, number, truth, normalize_comparable, text_eq, comparable_eq,
  Fields, own, is_stale, report_stale, assert_expected, write_fields,
}

text_eq_sound : (s t : List ℕ) → text_eq s t ≡ true → s ≡ t
text_eq_sound [] [] h = refl
text_eq_sound [] (d ∷ ds) h = cc
text_eq_sound (c ∷ cs) [] h = cc
text_eq_sound (c ∷ cs) (d ∷ ds) h = ground (arith, text_eq_sound cs ds)

text_eq_refl : (s : List ℕ) → text_eq s s ≡ true
text_eq_refl [] = refl
text_eq_refl (c ∷ cs) = ground (arith, text_eq_refl cs)

pub comparable_eq_sound : (a b : Comparable) → comparable_eq a b ≡ true → a ≡ b
comparable_eq_sound missing missing h = refl
comparable_eq_sound (text s) (text t) h = ap text (text_eq_sound s t h)
comparable_eq_sound (number a) (number b) h = ap number (eq_of_parts a b (ground arith))
comparable_eq_sound (truth a) (truth b) h = ground arith
comparable_eq_sound _ _ h = cc

pub comparable_eq_refl : (a : Comparable) → comparable_eq a a ≡ true
comparable_eq_refl missing = refl
comparable_eq_refl (text s) = text_eq_refl s
comparable_eq_refl (number a) = ground arith
comparable_eq_refl (truth a) = ground arith

-- A stored value, if there is one, means the same as the base or as what the request leaves.
abbrev pub FitsValue : Fields → ℕ → Value → Option Value → Type 0
FitsValue desired field base none = Unit
FitsValue desired field base (some v) =
    (normalize_comparable v ≡ normalize_comparable base)
    ⊎ (normalize_comparable v ≡ normalize_comparable (or_default (own field desired) v))

-- One key of the precondition holds of a row, given what the request wants to leave.
abbrev pub Fits : Fields → Fields → ℕ × Value → Type 0
Fits current desired (field, base) = FitsValue desired field base (own field current)

fits_some :
    (current desired : Fields) (f : ℕ) (base v : Value)
    → is_stale current desired (f, base) ≡ false
    → own f current ≡ some v
    → FitsValue desired f base (some v)
unfolding is_stale
fits_some current desired f base v h o = ground (
  arith,
  comparable_eq_sound (normalize_comparable v) (normalize_comparable base),
  comparable_eq_sound (normalize_comparable v)
      (normalize_comparable (or_default (own f desired) v)),
)

is_stale-Fits :
    (current desired : Fields) (e : ℕ × Value)
    → is_stale current desired e ≡ false
    → Fits current desired e
is_stale-Fits current desired (f, base) h = elim (Option-cases (own f current)) [
  | inl absent ↦ rw absent tt
  | inr (v, o) ↦ rw o (fits_some current desired f base v h o)
]

Fits-is_stale :
    (current desired : Fields) (e : ℕ × Value)
    → Fits current desired e
    → is_stale current desired e ≡ false
unfolding is_stale
Fits-is_stale current desired (f, base) h = elim (Option-cases (own f current)) [
  | inl absent ↦ rw (absent, is_stale)
  | inr (v, o) ↦ elim (subst (FitsValue desired f base) o h) [
    | inl same ↦ ground (arith, o, same, comparable_eq_refl (normalize_comparable base))
    | inr wanted ↦
        ground (
          arith,
          o,
          wanted,
          comparable_eq_refl (normalize_comparable (or_default (own f desired) v)),
        )
  ]
]

filter-nil→All :
    (current desired expected : Fields)
    → filter (is_stale current desired) expected ≡ []
    → All (Fits current desired) expected
filter-nil→All current desired [] h = tt
filter-nil→All current desired (e ∷ es) h = elim (Bool-cases (is_stale current desired e)) [
  | inl stale ↦ absurd (ground arith)
  | inr fresh ↦
      (is_stale-Fits current desired e fresh, filter-nil→All current desired es (rw fresh at h))
]

All→filter-nil :
    (current desired expected : Fields)
    → All (Fits current desired) expected
    → filter (is_stale current desired) expected ≡ []
All→filter-nil current desired [] h = refl
All→filter-nil current desired (e ∷ es) h =
    rw (Fits-is_stale current desired e h.0) (All→filter-nil current desired es h.1)

report_stale-nil : (labels : ℕ → Option ℕ) (fs : Fields) → report_stale labels fs ≡ ok tt → fs ≡ []
report_stale-nil labels [] h = refl
report_stale-nil labels (f ∷ fs) h = cc

-- A precondition passes exactly when, for each of its fields that the row has, the stored value
-- means the same as the base value that the client saw or as the value that the request leaves.
pub assert_expected_iff :
    (current expected desired : Fields) (labels : ℕ → Option ℕ)
    → (assert_expected current (some expected) desired labels ≡ ok tt)
      ↔ All (Fits current desired) expected
unfolding assert_expected
assert_expected_iff current expected desired labels = (
  λ h.
      filter-nil→All current desired expected
        (report_stale-nil labels (filter (is_stale current desired) expected) h),
  λ h. rw (All→filter-nil current desired expected h),
)

own-write_fields :
    (desired row : Fields) (f : ℕ) (v : Value)
    → own f (write_fields desired row) ≡ some v
    → or_default (own f desired) v ≡ v
unfolding write_fields
own-write_fields desired [] f v h = cc
own-write_fields desired ((g, w) ∷ row) f v h = ground (arith, own-write_fields desired row f v)

written-Fits :
    (row desired : Fields) (expected : Fields)
    → All (Fits (write_fields desired row) desired) expected
written-Fits row desired [] = tt
written-Fits row desired ((f, base) ∷ es) = (
  elim (Option-cases (own f (write_fields desired row))) [
    | inl absent ↦ rw absent tt
    | inr (v, o) ↦ rw o (inr (ap normalize_comparable (sym (own-write_fields desired row f v o))))
  ],
  written-Fits row desired es,
)

-- Once a request's values are written, the same request passes again whatever its precondition
-- says: the retry of an edit whose answer was lost is no conflict.
pub assert_expected-retry :
    (row expected desired : Fields) (labels : ℕ → Option ℕ)
    → assert_expected (write_fields desired row) (some expected) desired labels ≡ ok tt
assert_expected-retry row expected desired labels =
    (assert_expected_iff (write_fields desired row) expected desired labels).1
      (written-Fits row desired expected)
