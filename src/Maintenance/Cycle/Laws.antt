-- ===== src/Maintenance/Cycle/Laws.antt =====
-- The order in which the maintenances of a cycle are marked, and the cycle that a counter is in.
use smi_backend.Prelude.{
  ℕ, zero, suc, ◌%◌, ◌+◌, ◌-◌, ◌*◌, ◌≤◌, ◌<◌, ◌≡◌, ◌⊎◌, inl, inr, true, false, ◌&&◌, ◌||◌, some,
  List, [], ◌∷◌, ◌++◌, arith, ◌==◌, every, Bool-cases, All,
}
use smi_backend.Prelude.Int.{pos}
use smi_backend.Maintenance.Status.{hundredths}
use smi_backend.Maintenance.Cycle.{
  cerrado, CycleColumn, Column, columnas, CycleParams, flagged, flag_columns, cycle_columns,
  current_cycle, cycles_up,
}
use native.Mathlib.Nat.{mod-lt, div-add-mod, mul-suc}

-- The maintenances of a cycle are done in order: a column can be marked only if every earlier one
-- can be and is closed, and unmarked only if no later one has an operation done.
abbrev pub InOrder : List CycleColumn → Type 0
InOrder [] = Unit
InOrder (c ∷ cs) =
    All
      (λ (d : CycleColumn).
        (d.unlocked ≡ false) ⊎ ((c.unlocked ≡ true) × (cerrado c.column ≡ true)))
      cs
    × ((c.can_undo ≡ false) ⊎ All (λ (d : CycleColumn). d.column.done ≡ 0) cs)
    × InOrder cs

every-append :
    (xs : List Column) (c : Column) → every cerrado (xs ++ c ∷ []) ≡ (every cerrado xs && cerrado c)
every-append [] c = ground arith
every-append (x ∷ xs) c = ground (arith, every-append xs c)

All-map :
    {P Q : CycleColumn → Type 0} (ds : List CycleColumn)
    → ((d : CycleColumn) → P d → Q d)
    → All P ds
    → All Q ds
All-map [] f all = tt
All-map (d ∷ ds) f (h, all) = (f d h, All-map ds f all)

-- A column is locked, or the columns before are closed.
abbrev LockedOr : List Column → CycleColumn → Type 0
LockedOr before d = (d.unlocked ≡ false) ⊎ (every cerrado before ≡ true)

weaken :
    (before : List Column) (c : Column) (d : CycleColumn)
    → LockedOr (before ++ c ∷ []) d
    → LockedOr before d
weaken before c d (inl locked) = inl locked
weaken before c d (inr closed) = inr (ground (arith, closed, every-append before c))

locked_or : (before cs : List Column) → All (LockedOr before) (flag_columns before cs)
locked_or before [] = tt
locked_or before (c ∷ cs) = (
  elim (Bool-cases (every cerrado before)) [
    | inl closed ↦ inr closed
    | inr unclosed ↦ inl unclosed
  ],
  All-map (flag_columns (before ++ c ∷ []) cs) (weaken before c) (locked_or (before ++ c ∷ []) cs),
)

both :
    (before : List Column) (c : Column) (d : CycleColumn)
    → LockedOr (before ++ c ∷ []) d
    → (d.unlocked ≡ false) ⊎ ((every cerrado before ≡ true) × (cerrado c ≡ true))
both before c d (inl locked) = inl locked
both before c d (inr closed) = inr (ground (arith, closed, every-append before c))

undone :
    (before cs : List Column)
    → every (λ (d : Column). d.done == 0) cs ≡ true
    → All (λ (d : CycleColumn). d.column.done ≡ 0) (flag_columns before cs)
undone before [] h = tt
undone before (c ∷ cs) h = (ground (arith, h), undone (before ++ c ∷ []) cs (ground (arith, h)))

flag_columns-InOrder : (before cs : List Column) → InOrder (flag_columns before cs)
flag_columns-InOrder before [] = tt
flag_columns-InOrder before (c ∷ cs) = (
  All-map (flag_columns (before ++ c ∷ []) cs) (both before c) (locked_or (before ++ c ∷ []) cs),
  undoable,
  flag_columns-InOrder (before ++ c ∷ []) cs,
)
  where
    undoable :
        ((flagged before c cs).can_undo ≡ false)
        ⊎ All (λ (d : CycleColumn). d.column.done ≡ 0) (flag_columns (before ++ c ∷ []) cs)
    undoable = elim (Bool-cases (every (λ (d : Column). d.done == 0) cs)) [
      | inl all_undone ↦ inr (undone (before ++ c ∷ []) cs all_undone)
      | inr some_done ↦ inl (ground (arith, some_done))
    ]

-- Among the columns of a cycle, one that can be marked has only closed columns, which can be marked
-- too, before it, and one that can be unmarked has none with an operation done after it.
pub cycle_columns-InOrder : (p : CycleParams) → InOrder (cycle_columns p)
unfolding cycle_columns
cycle_columns-InOrder p = flag_columns-InOrder [] (columnas p)

ceil_bounds :
    (c h q r : ℕ)
    → h * q + r ≡ c + (h - 1)
    → r < h
    → 1 ≤ c
    → (h * (q - 1) < c) × (c ≤ h * q) × (1 ≤ q)
ceil_bounds c h zero r e lt positive = absurd (omega (arith, e, lt, positive))
ceil_bounds c h (suc q) r e lt positive =
    let grows = mul-suc h q in
    let same : suc q - 1 ≡ q = omega arith in
    (
      rw same (omega (arith, e, lt, positive, grows)),
      omega (arith, e, lt, positive, grows),
      omega arith,
    )

-- The cycle of an equipment with a counter is the one in which the counter lies: past the end of the
-- cycle before it and at most at its own end.
pub current_cycle-bounds :
    (c l : ℕ)
    → 1 ≤ c
    → 1 ≤ l
    → (hundredths l * (current_cycle (some (pos c)) l - 1) < c)
      × (c ≤ hundredths l * current_cycle (some (pos c)) l)
      × (1 ≤ current_cycle (some (pos c)) l)
current_cycle-bounds c l positive long =
    let ran : ((c == 0) || (l == 0)) ≡ false = ground (arith, positive, long) in
    let h = hundredths l in
    rw ran (
      ceil_bounds c h (cycles_up c h) ((c + (h - 1)) % h) (div-add-mod (c + (h - 1)) h)
        (mod-lt (c + (h - 1)) (omega (arith, long))) positive)
