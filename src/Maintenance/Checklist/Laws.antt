-- ===== src/Maintenance/Checklist/Laws.antt =====
-- When a daily checklist may be sent.
use smi_backend.Prelude.{
  ℕ, ◌≤◌, ◌≡◌, refl, ◌⊎◌, inl, inr, true, false, Option, none, some, List, [], ◌∷◌, ◌++◌, map,
  arith, Bool-cases, Option-cases, length, includes, or_default,
}
use smi_backend.Prelude.Int.{ℤ}
use smi_backend.Concurrency.Expected.{trim}
use smi_backend.Maintenance.Checklist.{
  EntryStatus, maintained, checked, not_checked, RuleItem, RuleEntry, item_of, Scan, scan_item,
  entry_problems, photo_missing, twice, is_declared, undescribed_in, supplies_misplaced,
  temperature_missing, scan_known,
}

-- What an entry of an item needs, by its status.
abbrev pub Fits : RuleItem → RuleEntry → EntryStatus → Type 0
Fits item e maintained =
    (3 ≤ length (trim (or_default e.description [])))
    × ((item.requires_photo ≡ false) ⊎ (1 ≤ e.photo_count))
    × ((item.requires_temperature ≡ false) ⊎ ((v : ℤ) × (e.temperature ≡ some v)))
Fits item e checked =
    (e.supply_count ≡ 0)
    × ((item.requires_temperature ≡ false) ⊎ ((v : ℤ) × (e.temperature ≡ some v)))
Fits item e not_checked = e.supply_count ≡ 0

abbrev pub IsFilled : List RuleItem → RuleEntry → Type 0
IsFilled catalog e =
    (item : RuleItem) × (item_of catalog e.item_id ≡ some item) × Fits item e e.status

-- Entries that are filled in, none for an item of `seen` or of an earlier entry.
abbrev pub AreFilled : List RuleItem → List ℕ → List RuleEntry → Type 0
AreFilled catalog seen [] = Unit
AreFilled catalog seen (e ∷ es) =
    IsFilled catalog e × (includes seen e.item_id ≡ false) × AreFilled catalog (e.item_id ∷ seen) es

abbrev pub ids : List RuleEntry → List ℕ
ids = map (λ (e : RuleEntry). e.item_id)

pub append_nil-left : {A : Type 0} (xs ys : List A) → xs ++ ys ≡ [] → xs ≡ []
append_nil-left [] ys h = refl
append_nil-left (x ∷ xs) ys h = absurd (cc)

pub append_nil-right : {A : Type 0} (xs ys : List A) → xs ++ ys ≡ [] → ys ≡ []
append_nil-right [] ys h = h
append_nil-right (x ∷ xs) ys h = absurd (cc)

abbrev pub Clean : Scan → Type 0
Clean s = (s.problemas ≡ []) × (s.sin_foto ≡ [])

needed_photo :
    (item : RuleItem) (e : RuleEntry)
    → photo_missing item e ≡ false
    → e.status ≡ maintained
    → (item.requires_photo ≡ false) ⊎ (1 ≤ e.photo_count)
needed_photo item e p is = elim (Bool-cases item.requires_photo) [
  | inr free ↦ inl free
  | inl needed ↦ inr (ground arith)
]

needed_temperature :
    (item : RuleItem) (e : RuleEntry)
    → temperature_missing item e ≡ false
    → is_declared e.status ≡ true
    → (item.requires_temperature ≡ false) ⊎ ((v : ℤ) × (e.temperature ≡ some v))
needed_temperature item e p is = elim (Bool-cases item.requires_temperature) [
  | inr free ↦ inl free
  | inl needed ↦ elim (Option-cases e.temperature) [
    | inr (v, known) ↦ inr (v, known)
    | inl unknown ↦ absurd (ground arith)
  ]
]

-- An entry has no problem exactly when it fits its item.
Fits-of :
    (item : RuleItem) (e : RuleEntry) (status : EntryStatus)
    → e.status ≡ status
    → undescribed_in e ≡ false
    → supplies_misplaced e ≡ false
    → temperature_missing item e ≡ false
    → photo_missing item e ≡ false
    → Fits item e status
Fits-of item e maintained is d m t p =
    (ground arith, needed_photo item e p is, needed_temperature item e t (ground arith))
Fits-of item e checked is d m t p = (ground arith, needed_temperature item e t (ground arith))
Fits-of item e not_checked is d m t p = ground arith

-- The four tests of an entry find nothing.
abbrev NoProblem : RuleItem → RuleEntry → Type 0
NoProblem item e =
    (undescribed_in e ≡ false)
    × (supplies_misplaced e ≡ false)
    × (temperature_missing item e ≡ false)
    × (photo_missing item e ≡ false)

of-Fits :
    (item : RuleItem) (e : RuleEntry) (status : EntryStatus)
    → e.status ≡ status
    → Fits item e status
    → NoProblem item e
of-Fits item e maintained is (d, p, t) =
    (ground arith, ground arith, ground (arith, t), ground (arith, p))
of-Fits item e checked is (m, t) = (ground arith, ground arith, ground (arith, t), ground arith)
of-Fits item e not_checked is m = (ground arith, ground arith, ground arith, ground arith)

NoProblem-of :
    (item : RuleItem) (e : RuleEntry) (s : Scan)
    → Clean (scan_known item e s)
    → Clean s × NoProblem item e
NoProblem-of item e s (h, k) = (
  (append_nil-left s.problemas _ h, append_nil-left s.sin_foto _ k),
  (
    ground (arith, append_nil-right s.problemas (entry_problems item e) h),
    ground (arith, append_nil-right s.problemas (entry_problems item e) h),
    ground (arith, append_nil-right s.problemas (entry_problems item e) h),
    ground (arith, append_nil-right s.sin_foto _ k),
  ),
)

of-NoProblem :
    (item : RuleItem) (e : RuleEntry) (s : Scan)
    → Clean s
    → NoProblem item e
    → Clean (scan_known item e s)
of-NoProblem item e s (h, k) (d, m, t, p) = (ground (arith, h), ground (arith, k))

-- One entry that has been scanned with nothing to report.
abbrev pub StepFits : Option RuleItem → RuleEntry → List ℕ → Type 0
StepFits o e seen =
    ((item : RuleItem) × (o ≡ some item) × Fits item e e.status) × (includes seen e.item_id ≡ false)

pub step-Clean :
    (o : Option RuleItem) (e : RuleEntry) (s : Scan)
    → Clean (scan_item o e s)
    → Clean s × StepFits o e s.vistos
step-Clean none e s (h, k) = absurd (ground (arith, append_nil-right s.problemas _ h))
step-Clean (some item) e s c = elim (Bool-cases (includes s.vistos e.item_id)) [
  | inl seen ↦ absurd (ground (arith, append_nil-right s.problemas (twice item.name ∷ []), c, seen))
  | inr fresh ↦
      let (d, f) = NoProblem-of item e s (simp fresh at c) in
      let (u, m, t, p) = f in (d, ((item, refl, Fits-of item e e.status refl u m t p), fresh))
]

pub Clean-step :
    (o : Option RuleItem) (e : RuleEntry) (s : Scan)
    → Clean s
    → StepFits o e s.vistos
    → Clean (scan_item o e s) × ((scan_item o e s).vistos ≡ e.item_id ∷ s.vistos)
Clean-step o e s c ((item, found, f), fresh) =
    rw (found, fresh) (of-NoProblem item e s c (of-Fits item e e.status refl f), refl)
