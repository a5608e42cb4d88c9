-- ===== src/Shifts/Invariant.antt =====
-- The invariant of the tables of cards and fuel records, and what the writes of single rows do to it.
pub mod Pending
use smi_backend.Prelude.{
  find, subst, ℕ, ◌≡◌, refl, sym, ◌∙◌, ap, Bool, true, false, not, ◌&&◌, ◌||◌, Option, none, some,
  List, [], ◌∷◌, arith, ◌==◌, ltb, if◌then◌else◌, or_default, is_some, opt_eq, any, every, map,
  Bool-cases, inl, inr, ==_iff,
}
use smi_backend.Prelude.Result.{Result, ok, err}
use smi_backend.Prelude.Handler.{Keeps}
use smi_backend.Equipment.Counter.{
  Equipment, Table, CounterError, reconcile_equipment_counter, warn,
}
use smi_backend.Shifts.Calendar.{ShiftType}
use smi_backend.Shifts.Types.{Shift, Card, FuelRecord, Db}
use smi_backend.Shifts.Queries.{
  Env, upserted, upsert_shift, has_key, reconcile, reconciled, collides, has_id, is_open, find_card,
  update_row, update_card, same_key,
}
use smi_backend.Shifts.Close.{set_fuel}

-- No two cards that the unique indexes do not allow together.
unfoldable pub are_distinct : List Card → Bool
are_distinct [] = true
are_distinct (c ∷ cs) = not (any (collides c) cs) && are_distinct cs

-- The fuel record of a card says its litres, and is there exactly if there are any.
abbrev pub fuel_matches : ℕ → Option FuelRecord → Bool
fuel_matches liters none = liters == 0
fuel_matches liters (some f) = ltb 0 liters && (f.litros == liters)

-- A card has its fuel record, and no litres before it is closed.
unfoldable pub card_ok : (ℕ → Option FuelRecord) → Card → Bool
card_ok fuel c =
    fuel_matches (or_default c.fuel_liters 0) (fuel c.id)
    && (is_some c.valor_final || not (is_some c.fuel_liters))

pub record IsValid (s : Db) : Type 0 where
  pub distinct : are_distinct s.cards ≡ true
  pub cards_ok : every (card_ok s.fuel) s.cards ≡ true
  pub fuel_owned : (id : ℕ) → any (has_id id) s.cards ≡ false → s.fuel id ≡ none

module _ {A : Type 0} where
  pub any-map :
      (p q b : A → Bool) (u : A → A) (xs : List A)
      → ((x : A) → p x ≡ false → b x ≡ false → q (u x) ≡ false)
      → any p xs ≡ false
      → any b xs ≡ false
      → any q (map u xs) ≡ false
  any-map p q b u [] step h k = refl
  any-map p q b u (x ∷ xs) step h k = ground (arith, step x, any-map p q b u xs step)

  pub every-map :
      (p q : A → Bool) (u : A → A) (xs : List A)
      → ((x : A) → p x ≡ true → q (u x) ≡ true)
      → every p xs ≡ true
      → every q (map u xs) ≡ true
  every-map p q u [] step h = refl
  every-map p q u (x ∷ xs) step h = ground (arith, step x, every-map p q u xs step)

  pub every_mapped :
      (q : A → Bool) (u : A → A) (xs : List A)
      → ((x : A) → q (u x) ≡ true)
      → every q (map u xs) ≡ true
  every_mapped q u [] step = refl
  every_mapped q u (x ∷ xs) step = ground (arith, step x, every_mapped q u xs step)

  pub every_weaken :
      (p q : A → Bool) (xs : List A)
      → ((x : A) → p x ≡ true → q x ≡ true)
      → every p xs ≡ true
      → every q xs ≡ true
  every_weaken p q [] step h = refl
  every_weaken p q (x ∷ xs) step h = ground (arith, step x, every_weaken p q xs step)

  pub every-any_not :
      (p q : A → Bool) (b : A → Bool) (xs : List A)
      → ((x : A) → p x ≡ true → b x ≡ false → q x ≡ true)
      → any b xs ≡ false
      → every p xs ≡ true
      → every q xs ≡ true
  every-any_not p q b [] step k h = refl
  every-any_not p q b (x ∷ xs) step k h = ground (arith, step x, every-any_not p q b xs step)

-- A change of the rows that makes no two of them collide keeps the cards distinct.
pub are_distinct-map :
    (u : Card → Card) (blocked : Card → Bool) (cs : List Card)
    → ((c d : Card)
        → collides c d ≡ false
        → blocked c ≡ false
        → blocked d ≡ false
        → collides (u c) (u d) ≡ false)
    → any blocked cs ≡ false
    → are_distinct cs ≡ true
    → are_distinct (map u cs) ≡ true
unfolding are_distinct
are_distinct-map u blocked [] step k h = refl
are_distinct-map u blocked (c ∷ cs) step k h = ground (
  arith,
  are_distinct-map u blocked cs step,
  any-map (collides c) (collides (u c)) blocked u cs
      (λ d free kd. step c d free (ground (arith, k)) kd),
)

pub any-has_id-map :
    (u : Card → Card) (i : ℕ) (cs : List Card)
    → ((c : Card) → (u c).id ≡ c.id)
    → any (has_id i) (map u cs) ≡ any (has_id i) cs
any-has_id-map u i [] ids = refl
any-has_id-map u i (c ∷ cs) ids = rw (ids c, any-has_id-map u i cs ids) refl

pub any-false : {A : Type 0} (xs : List A) → any (λ _. false) xs ≡ false
any-false [] = refl
any-false (x ∷ xs) = any-false xs

pub IsValid-tables : (s s' : Db) → IsValid s → s'.cards ≡ s.cards → s'.fuel ≡ s.fuel → IsValid s'
IsValid-tables s s' h cards fuel = record {
  distinct = rw cards h.distinct;
  cards_ok = rw (cards, fuel) h.cards_ok;
  fuel_owned = λ i k. rw fuel (h.fuel_owned i (rw cards at k));
}

upserted-IsValid :
    (env : Env) (user date : ℕ) (type : ShiftType) (o : Option Shift) (s : Db)
    → IsValid s
    → IsValid (upserted env user date type o s).1
upserted-IsValid env user date type none s h = IsValid-tables s _ h refl refl
upserted-IsValid env user date type (some shift) s h = h

pub upsert_shift-Keeps :
    (env : Env) (user date : ℕ) (type : ShiftType) → Keeps IsValid (upsert_shift env user date type)
unfolding upsert_shift
upsert_shift-Keeps env user date type = record {
  held = λ s. upserted-IsValid env user date type (find (has_key user date type) s.shifts) s;
}

reconciled-IsValid :
    (s : Db) (r : Result CounterError Bool × Table) → IsValid s → IsValid (reconciled r s).1
reconciled-IsValid s (ok below, table) h = IsValid-tables s _ h refl refl
reconciled-IsValid s (err e, table) h = h

pub reconcile-Keeps : (id : ℕ) (e : Equipment) (value : ℕ) → Keeps IsValid (reconcile id e value)
unfolding reconcile
reconcile-Keeps id e value = record {
  held = λ s. reconciled-IsValid s (reconcile_equipment_counter id e value warn s.counters);
}

pub no_collision-id :
    (c : Card) (cs : List Card) → any (collides c) cs ≡ false → any (has_id c.id) cs ≡ false
no_collision-id c [] h = refl
no_collision-id c (d ∷ ds) h = ground (arith, no_collision-id c ds)

none_with_id :
    (id : ℕ) (q : Card → Bool) (cs : List Card)
    → any (has_id id) cs ≡ false
    → any (λ c. has_id id c && q c) cs ≡ false
none_with_id id q [] h = refl
none_with_id id q (c ∷ cs) h = ground (arith, none_with_id id q cs)

-- What does not hold of the card that is found by an id holds of no card with the id.
pub found_only :
    (id : ℕ) (a : Card) (q : Card → Bool) (cs : List Card)
    → are_distinct cs ≡ true
    → find (has_id id) cs ≡ some a
    → q a ≡ false
    → any (λ c. has_id id c && q c) cs ≡ false
unfolding are_distinct
found_only id a q [] h k n = refl
found_only id a q (c ∷ cs) h k n = elim (Bool-cases (has_id id c)) [
  | inl this ↦
      let same : c ≡ a = some-inj c a (rw this at k) in
      let alone : any (has_id c.id) cs ≡ false = no_collision-id c cs (ground (arith, h)) in
      ground (
        arith,
        n,
        ap q same,
        none_with_id id q cs
            (subst (λ i. any (has_id i) cs ≡ false) ((==_iff c.id id).0 this) alone),
      )
  | inr other ↦ ground (arith, other, found_only id a q cs (ground (arith, h)) (rw other at k) n)
]
  where
    some-inj : (x y : Card) → some x ≡ some y → x ≡ y
    some-inj x y e = cc
