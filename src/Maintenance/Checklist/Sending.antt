-- ===== src/Maintenance/Checklist/Sending.antt =====
-- `checklistProblems` against a description of the checklists that may be sent.
use smi_backend.Prelude.{
  ℕ, ◌≤◌, ◌≡◌, refl, sym, ◌∙◌, ap, subst, ◌↔◌, inl, inr, String, Bool, true, false, not, ◌||◌, List,
  [], ◌∷◌, ◌++◌, ◌==◌, arith, Bool-cases, All, filter, includes,
}
use smi_backend.Maintenance.Checklist.{
  RuleItem, RuleEntry, tally, item_of, Scan, scan, scan_item, checklist_problems, report,
  photo_problems, item_problems, nothing_declared, closing_problems, no_scan,
}
use smi_backend.Maintenance.Checklist.Laws.{
  AreFilled, Clean, step-Clean, Clean-step, append_nil-left, append_nil-right, ids,
}

module _ (catalog : List RuleItem) where
  scan-Clean :
      (es : List RuleEntry) (s : Scan)
      → Clean (scan catalog es s)
      → Clean s × AreFilled catalog s.vistos es
  scan-Clean [] s c = (c, tt)
  scan-Clean (e ∷ es) s c =
      let (d, filled) = scan-Clean es (scan_item (item_of catalog e.item_id) e s) c in
      let (c', f) = step-Clean (item_of catalog e.item_id) e s d in
      let (_, seen) = Clean-step (item_of catalog e.item_id) e s c' f in
      let (known, fresh) = f in
      (c', (known, fresh, subst (λ v. AreFilled catalog v es) seen filled))

  Clean-scan :
      (es : List RuleEntry) (s : Scan)
      → Clean s
      → AreFilled catalog s.vistos es
      → Clean (scan catalog es s)
  Clean-scan [] s c tt = c
  Clean-scan (e ∷ es) s c (known, fresh, filled) =
      let (d, seen) = Clean-step (item_of catalog e.item_id) e s c (known, fresh) in
      Clean-scan es (scan_item (item_of catalog e.item_id) e s) d
        (subst (λ v. AreFilled catalog v es) (sym seen) filled)

  scan-vistos :
      (es : List RuleEntry) (s : Scan) (a : ℕ)
      → Clean (scan catalog es s)
      → includes (scan catalog es s).vistos a ≡ (includes s.vistos a || includes (ids es) a)
  scan-vistos [] s a c = ground arith
  scan-vistos (e ∷ es) s a c =
      let (d, _) = scan-Clean es (scan_item (item_of catalog e.item_id) e s) c in
      let (c', f) = step-Clean (item_of catalog e.item_id) e s d in
      let (_, seen) = Clean-step (item_of catalog e.item_id) e s c' f in
      let rest = scan-vistos es (scan_item (item_of catalog e.item_id) e s) a c in
      rest
      ∙ ap (λ v. includes v a || includes (ids es) a) seen
      ∙ shuffle (e.item_id == a) (includes s.vistos a) (includes (ids es) a)
    where
      shuffle : (x y z : Bool) → ((x || y) || z) ≡ (y || (x || z))
      shuffle true true z = refl
      shuffle true false z = refl
      shuffle false y z = refl

-- Every item of the catalog has an entry.
abbrev pub Covers : List RuleItem → List RuleEntry → Type 0
Covers catalog es = All (λ (i : RuleItem). includes (ids es) i.id ≡ true) catalog

-- A checklist that may be sent: every entry is filled in for an item of the catalog that no earlier
-- entry has, every item has an entry, and something is declared.
pub record CanSend (catalog : List RuleItem) (entries : List RuleEntry) : Type 0 where
  pub filled : AreFilled catalog [] entries
  pub covered : Covers catalog entries
  pub declared : 1 ≤ (tally entries).declared

no_missing :
    (p : RuleItem → Bool) (catalog : List RuleItem)
    → item_problems (filter (λ i. not (p i)) catalog) ≡ []
    → All (λ i. p i ≡ true) catalog
no_missing p [] h = tt
no_missing p (i ∷ is) h = elim (Bool-cases (p i)) [
  | inl there ↦ (there, no_missing p is (simp there at h))
  | inr absent ↦ absurd (ground (arith, absent, h))
]

missing_none :
    (p : RuleItem → Bool) (catalog : List RuleItem)
    → All (λ i. p i ≡ true) catalog
    → item_problems (filter (λ i. not (p i)) catalog) ≡ []
missing_none p [] h = refl
missing_none p (i ∷ is) (there, h) = simp there (missing_none p is h)

no_photo : (l : List String) → photo_problems l ≡ [] → l ≡ []
no_photo [] h = refl
no_photo (n ∷ ns) h = absurd (cc)

declared_some : (n : ℕ) → report (n == 0) nothing_declared ≡ [] → 1 ≤ n
declared_some n h = ground arith

-- The three parts of what is added after the loop.
closing_none :
    (catalog : List RuleItem) (es : List RuleEntry) (s : Scan)
    → closing_problems catalog es s ≡ []
    → (s.sin_foto ≡ [])
      × All (λ (i : RuleItem). includes s.vistos i.id ≡ true) catalog
      × (1 ≤ (tally es).declared)
closing_none catalog es s h =
    let missing = item_problems (filter (λ i. not (includes s.vistos i.id)) catalog) in
    let rest =
      append_nil-right (photo_problems s.sin_foto)
        (missing ++ report ((tally es).declared == 0) nothing_declared) h in
    (
      no_photo s.sin_foto (append_nil-left (photo_problems s.sin_foto) _ h),
      no_missing (λ i. includes s.vistos i.id) catalog (append_nil-left missing _ rest),
      declared_some (tally es).declared (append_nil-right missing _ rest),
    )

none_closing :
    (catalog : List RuleItem) (es : List RuleEntry) (s : Scan)
    → s.sin_foto ≡ []
    → All (λ (i : RuleItem). includes s.vistos i.id ≡ true) catalog
    → 1 ≤ (tally es).declared
    → closing_problems catalog es s ≡ []
none_closing catalog es s photos there declared =
    rw (photos, missing_none (λ i. includes s.vistos i.id) catalog there) (ground (arith, declared))

All-same :
    (p q : ℕ → Bool) (catalog : List RuleItem)
    → ((a : ℕ) → p a ≡ q a)
    → All (λ (i : RuleItem). p i.id ≡ true) catalog
    → All (λ (i : RuleItem). q i.id ≡ true) catalog
All-same p q [] same h = tt
All-same p q (i ∷ is) same (there, h) = (sym (same i.id) ∙ there, All-same p q is same h)

may_send :
    (catalog : List RuleItem) (es : List RuleEntry)
    → checklist_problems catalog es ≡ []
    → CanSend catalog es
unfolding checklist_problems
may_send catalog es h =
    let s = scan catalog es no_scan in
    let (photos, there, declared) =
      closing_none catalog es s (append_nil-right s.problemas (closing_problems catalog es s) h) in
    let clean : Clean s = (append_nil-left s.problemas (closing_problems catalog es s) h, photos) in
    record {
      filled = (scan-Clean catalog es no_scan clean).1;
      covered =
          All-same (includes s.vistos) (includes (ids es)) catalog
            (λ a. scan-vistos catalog es no_scan a clean) there;
      declared = declared;
    }

sends :
    (catalog : List RuleItem) (es : List RuleEntry)
    → CanSend catalog es
    → checklist_problems catalog es ≡ []
unfolding checklist_problems
sends catalog es c =
    let clean = Clean-scan catalog es no_scan (refl, refl) c.filled in
    let (none_found, photos) = clean in
    let there =
      All-same (includes (ids es)) (includes (scan catalog es no_scan).vistos) catalog
        (λ a. sym (scan-vistos catalog es no_scan a clean)) c.covered in
    rw none_found (none_closing catalog es (scan catalog es no_scan) photos there c.declared)

-- The rules report nothing exactly for a checklist that may be sent.
pub checklist_problems-CanSend :
    (catalog : List RuleItem) (entries : List RuleEntry)
    → (checklist_problems catalog entries ≡ []) ↔ CanSend catalog entries
checklist_problems-CanSend catalog entries = (may_send catalog entries, sends catalog entries)
