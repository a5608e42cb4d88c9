-- ===== src/Maintenance/Status/Laws.antt =====
-- Which maintenance `computeMaintenanceStatus` finds for an equipment.
use smi_backend.Prelude.{
  ℕ, suc, ◌+◌, ◌-◌, ◌/◌, ◌%◌, ◌≤◌, ◌<◌, ◌≡◌, ◌⊎◌, refl, ap, ◌∙◌, Bool, false, inl, inr, none, some,
  List, [], ◌∷◌, arith, ◌==◌, leb, ltb, find, Bool-cases, All,
}
use native.Mathlib.Nat.{mod-lt, div-add-mod, mul_assoc}
use smi_backend.Prelude.Int.{pos}
use smi_backend.Maintenance.Status.{
  Plan, NextMaintenance, MaintenanceStatus, hundredths, decima, insert_sorted, sort, last, items_of,
  milestone_after, compute_maintenance_status, empty_status, in_cycle,
}

abbrev pub IsSorted : List ℕ → Type 0
IsSorted [] = Unit
IsSorted (m ∷ ms) = All (λ n. m ≤ n) ms × IsSorted ms

All-le_insert :
    (a m : ℕ) (ms : List ℕ) → a ≤ m → All (λ n. a ≤ n) ms → All (λ n. a ≤ n) (insert_sorted m ms)
All-le_insert a m [] h all = (h, tt)
All-le_insert a m (n ∷ ns) h (k, all) = elim (Bool-cases (leb m n)) [
  | inl before ↦ rw before (h, (k, all))
  | inr after ↦ rw after (k, All-le_insert a m ns h all)
]

All-le_trans : (a m : ℕ) (ms : List ℕ) → a ≤ m → All (λ n. m ≤ n) ms → All (λ n. a ≤ n) ms
All-le_trans a m [] h all = tt
All-le_trans a m (n ∷ ns) h (k, all) = (omega (arith, h, k), All-le_trans a m ns h all)

insert_sorted-IsSorted : (m : ℕ) (ms : List ℕ) → IsSorted ms → IsSorted (insert_sorted m ms)
insert_sorted-IsSorted m [] s = (tt, tt)
insert_sorted-IsSorted m (n ∷ ns) (all, s) = elim (Bool-cases (leb m n)) [
  | inl before ↦
      let le : m ≤ n = ground (arith, before) in
      rw before ((le, All-le_trans m n ns le all), (all, s))
  | inr after ↦
      rw after (All-le_insert n m ns (ground (arith, after)) all, insert_sorted-IsSorted m ns s)
]

sort-IsSorted : (ms : List ℕ) → IsSorted (sort ms)
sort-IsSorted [] = tt
sort-IsSorted (m ∷ ms) = insert_sorted-IsSorted m (sort ms) (sort-IsSorted ms)

last-max : (ms : List ℕ) (l : ℕ) → IsSorted ms → last ms ≡ some l → All (λ m. m ≤ l) ms
last-max [] l s h = tt
last-max (m ∷ []) l s h = (ground arith, tt)
last-max (m ∷ n ∷ ns) l ((h, all), s) e =
    let rest = last-max (n ∷ ns) l s e in let (k, _) = rest in (omega (arith, h, k), rest)

-- No milestone is past a position at or after the end of the cycle.
find-past :
    (p l : ℕ) (ms : List ℕ)
    → hundredths l ≤ p
    → All (λ m. m ≤ l) ms
    → find (λ m. ltb p (hundredths m)) ms ≡ none
find-past p l [] h all = refl
find-past p l (m ∷ ms) h (k, all) = ground (arith, find-past p l ms h all)

-- What the source answers where it finds no milestone.
abbrev pub nowhere : NextMaintenance
nowhere = record {
  milestone = none;
  first_time_only = false;
  remaining = none;
  due_at = none;
  items = [];
}

decima-up :
    (ties : ℕ → Bool) (x l : ℕ)
    → x < hundredths l
    → hundredths l < x + 5
    → decima ties x ≡ hundredths l
decima-up ties x l h k = ground (arith, h, k)

decima-tenth : (ties : ℕ → Bool) (x : ℕ) → x % 10 ≡ 0 → decima ties x ≡ x
decima-tenth ties x h = ground (arith, h)

-- The first milestone past a position before the end of the cycle.
pub record FirstPast (p m : ℕ) (ms : List ℕ) : Type 0 where
  pub past : p < hundredths m
  pub first : All (λ n. (hundredths n ≤ p) ⊎ (m ≤ n)) ms

at_least :
    (p m : ℕ) (ms : List ℕ) → All (λ n. m ≤ n) ms → All (λ n. (hundredths n ≤ p) ⊎ (m ≤ n)) ms
at_least p m [] all = tt
at_least p m (n ∷ ns) (h, all) = (inr h, at_least p m ns all)

find-FirstPast :
    (p l : ℕ) (ms : List ℕ)
    → p < hundredths l
    → IsSorted ms
    → last ms ≡ some l
    → (m : ℕ) × (find (λ m. ltb p (hundredths m)) ms ≡ some m) × FirstPast p m ms
find-FirstPast p l [] h s e = absurd (cc)
find-FirstPast p l (m ∷ []) h s e =
    let is : m ≡ l = ground arith in
    (
      m,
      ground (arith, h, is),
      record { past = omega (arith, h, is); first = (inr (omega arith), tt) },
    )
find-FirstPast p l (m ∷ n ∷ ns) h (all, s) e = elim (Bool-cases (ltb p (hundredths m))) [
  | inl past ↦ (
    m,
    rw past refl,
    record { past = ground (arith, past); first = (inr (omega arith), at_least p m (n ∷ ns) all) },
  )
  | inr before ↦
      let (k, found, f) = find-FirstPast p l (n ∷ ns) h s e in
      (
        k,
        rw before found,
        record { past = f.past; first = (inl (ground (arith, before)), f.first) },
      )
]

module _ (ties : ℕ → Bool) (plan : Plan) (l : ℕ) (c : ℕ) where
  -- A plan without an initial service, at a position inside the cycle.
  inside :
      plan.initial_milestone ≡ none
      → last (sort plan.milestones) ≡ some (suc l)
      → 1 ≤ decima ties (c % hundredths (suc l))
      → compute_maintenance_status ties (some plan) (some (pos c))
        ≡ in_cycle ties
            (milestone_after (sort plan.milestones) (some (decima ties (c % hundredths (suc l)))))
            (some (decima ties (c % hundredths (suc l))))
            c
            plan.items
            (empty_status (some (pos c)) (some (suc l)))
  unfolding compute_maintenance_status
  inside first cycle far =
      let not_end : (decima ties (c % hundredths (suc l)) == 0) ≡ false = ground (arith, far) in
      rw (compute_maintenance_status, first, cycle) (rw not_end refl)

  place-lt : c % hundredths (suc l) < hundredths (suc l)
  place-lt = mod-lt c (omega arith)

  -- In a plan without an initial service, less than five hundredths before the end of a cycle the
  -- position is rounded to the whole cycle, and then no milestone is found, nor what is left to it,
  -- nor the counter at which it is due.
  pub compute_maintenance_status-nowhere :
      plan.initial_milestone ≡ none
      → last (sort plan.milestones) ≡ some (suc l)
      → hundredths (suc l) < c % hundredths (suc l) + 5
      → (compute_maintenance_status ties (some plan) (some (pos c))).next ≡ some nowhere
  compute_maintenance_status-nowhere first cycle near =
      let whole = decima-up ties (c % hundredths (suc l)) (suc l) place-lt near in
      let none_found =
        find-past (decima ties (c % hundredths (suc l))) (suc l) (sort plan.milestones)
          (omega (arith, whole))
          (last-max (sort plan.milestones) (suc l) (sort-IsSorted plan.milestones) cycle) in
      ap (λ (s : MaintenanceStatus). s.next) (inside first cycle (omega (arith, whole)))
      ∙ rw none_found refl

  tenths : c % 10 ≡ 0 → (c % hundredths (suc l)) % 10 ≡ 0
  tenths h =
      omega (
        arith,
        h,
        div-add-mod c (hundredths (suc l)),
        mul_assoc 100 (suc l) (c / hundredths (suc l)),
      )

  -- What the source answers for a maintenance of milestone `m`, from a position in the cycle.
  abbrev pub due_in : ℕ → NextMaintenance
  due_in m = record {
    milestone = some m;
    first_time_only = false;
    remaining = some (hundredths m - c % hundredths (suc l));
    due_at = some (c + (hundredths m - c % hundredths (suc l)));
    items = items_of plan.items (some m);
  }

  -- In a plan without an initial service, with a counter in whole tenths that is not at the end of a
  -- cycle, the next maintenance is the first milestone past the position in the cycle, and it is due
  -- when the counter gets there.
  pub compute_maintenance_status-first :
      plan.initial_milestone ≡ none
      → last (sort plan.milestones) ≡ some (suc l)
      → c % 10 ≡ 0
      → 1 ≤ c % hundredths (suc l)
      → (m : ℕ) × ((compute_maintenance_status ties (some plan) (some (pos c))).next
          ≡ some (due_in m))
        × FirstPast (c % hundredths (suc l)) m (sort plan.milestones)
  compute_maintenance_status-first first cycle whole far =
      let x = c % hundredths (suc l) in
      let part = tenths whole in
      let same : decima ties x ≡ x = decima-tenth ties x part in
      let (m, found, f) =
        find-FirstPast x (suc l) (sort plan.milestones) place-lt (sort-IsSorted plan.milestones)
          cycle in
      (
        m,
        ap (λ (s : MaintenanceStatus). s.next) (inside first cycle (omega (arith, same, far)))
            ∙ rw (same, found) (due m part),
        f,
      )
    where
      due :
          (m : ℕ)
          → (c % hundredths (suc l)) % 10 ≡ 0
          → (in_cycle ties
              (some m)
              (some (c % hundredths (suc l)))
              c
              plan.items
              (empty_status (some (pos c)) (some (suc l)))).next
            ≡ some (due_in m)
      due m h =
          let left : decima ties (hundredths m - c % hundredths (suc l))
              ≡ hundredths m - c % hundredths (suc l) =
            decima-tenth ties (hundredths m - c % hundredths (suc l)) (omega (arith, h)) in
          let at : decima ties (c + (hundredths m - c % hundredths (suc l)))
              ≡ c + (hundredths m - c % hundredths (suc l)) =
            decima-tenth ties (c + (hundredths m - c % hundredths (suc l)))
              (omega (arith, h, whole)) in
          rw left (rw at refl)
