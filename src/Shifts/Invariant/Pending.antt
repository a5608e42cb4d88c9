-- ===== src/Shifts/Invariant/Pending.antt =====
-- The state between the write of a card's litres and that of its fuel record.
use smi_backend.Prelude.{
  ℕ, ◌≡◌, refl, sym, ◌∙◌, Bool, true, false, not, ◌&&◌, ◌||◌, Option, none, arith, ◌==◌,
  if◌then◌else◌, or_default, is_some, any, every, map, Bool-cases, inl, inr, ==_iff,
}
use smi_backend.Shifts.Types.{Card, FuelRecord, Db}
use smi_backend.Shifts.Queries.{collides, has_id, update_row, update_card}
use smi_backend.Shifts.Invariant.{
  are_distinct, are_distinct-map, card_ok, fuel_matches, IsValid, every-map, every_weaken,
  any-has_id-map, any-false,
}

-- While the fuel record of a closed card is still that of its old litres, the other cards have
-- theirs.
abbrev pub card_pending : (ℕ → Option FuelRecord) → ℕ → ℕ → Card → Bool
card_pending fuel id new c =
    if c.id == id
    then (or_default c.fuel_liters 0 == new)
      && (is_some c.valor_final || not (is_some c.fuel_liters))
    else card_ok fuel c

pub record IsPending (id old new : ℕ) (s : Db) : Type 0 where
  pub distinct : are_distinct s.cards ≡ true
  pub cards_pending : every (card_pending s.fuel id new) s.cards ≡ true
  pub fuel_owned : (i : ℕ) → any (has_id i) s.cards ≡ false → s.fuel i ≡ none
  pub exists : any (has_id id) s.cards ≡ true
  pub old_matches : fuel_matches old (s.fuel id) ≡ true

settle_card :
    (fuel fuel' : ℕ → Option FuelRecord) (id new : ℕ)
    → ((j : ℕ) → (j == id) ≡ false → fuel' j ≡ fuel j)
    → fuel_matches new (fuel' id) ≡ true
    → (c : Card) → card_pending fuel id new c ≡ true
    → card_ok fuel' c ≡ true
unfolding card_ok
settle_card fuel fuel' id new same fits c h = elim (Bool-cases (c.id == id)) [
  | inl this ↦ ground (arith, fits)
  | inr other ↦ ground (arith, same c.id other)
]

-- Once the record of the pending card fits its litres, all is well.
pub fuel_settled :
    (id old new : ℕ) (s s' : Db)
    → IsPending id old new s
    → s'.cards ≡ s.cards
    → ((j : ℕ) → (j == id) ≡ false → s'.fuel j ≡ s.fuel j)
    → fuel_matches new (s'.fuel id) ≡ true
    → IsValid s'
fuel_settled id old new s s' h cards same fits = record {
  distinct = rw cards h.distinct;
  cards_ok = rw cards (
      every_weaken (card_pending s.fuel id new) (card_ok s'.fuel) s.cards
        (settle_card s.fuel s'.fuel id new same fits) h.cards_pending);
  fuel_owned = λ i none_has. elim (Bool-cases (i == id)) [
    | inr other ↦ same i other ∙ h.fuel_owned i (rw cards at none_has)
    | inl this ↦ absurd (ground (arith, this, cards, none_has, h.exists, ==_iff i id))
  ];
}

pending_row :
    (fuel : ℕ → Option FuelRecord) (f : Card → Card) (id new : ℕ)
    → ((c : Card) → (f c).id ≡ c.id)
    → ((c : Card) → or_default (f c).fuel_liters 0 ≡ new)
    → ((c : Card) → (is_some (f c).valor_final || not (is_some (f c).fuel_liters)) ≡ true)
    → (c : Card) → card_ok fuel c ≡ true
    → card_pending fuel id new (update_row id f c) ≡ true
unfolding card_ok
pending_row fuel f id new ids liters closes c h = elim (Bool-cases (c.id == id)) [
  | inl this ↦ ground (arith, ids c, liters c, closes c)
  | inr other ↦ ground (arith, other, h)
]

-- A row is written whose litres are no longer those of its fuel record.
pub update-IsPending :
    (id old new : ℕ) (f : Card → Card) (s : Db)
    → IsValid s
    → ((c : Card) → (f c).id ≡ c.id)
    → ((c : Card) → or_default (f c).fuel_liters 0 ≡ new)
    → ((c : Card) → (is_some (f c).valor_final || not (is_some (f c).fuel_liters)) ≡ true)
    → are_distinct (map (update_row id f) s.cards) ≡ true
    → any (has_id id) s.cards ≡ true
    → fuel_matches old (s.fuel id) ≡ true
    → IsPending id old new (update_card id f s)
update-IsPending id old new f s h ids liters closes distinct exists matches = record {
  distinct = distinct;
  cards_pending =
      every-map (card_ok s.fuel) (card_pending s.fuel id new) (update_row id f) s.cards
        (pending_row s.fuel f id new ids liters closes) h.cards_ok;
  fuel_owned = λ i none_has.
      h.fuel_owned i (sym (any-has_id-map (update_row id f) i s.cards (row_id)) ∙ none_has);
  exists = any-has_id-map (update_row id f) id s.cards (row_id) ∙ exists;
  old_matches = matches;
}
  where
    row_id : (c : Card) → (update_row id f c).id ≡ c.id
    row_id c = elim (Bool-cases (c.id == id)) [
      | inl this ↦ rw this (ids c)
      | inr other ↦ rw other refl
    ]

-- What a pending state keeps when only other tables change.
pub IsPending-tables :
    (id old new : ℕ) (s s' : Db)
    → IsPending id old new s
    → s'.cards ≡ s.cards
    → s'.fuel ≡ s.fuel
    → IsPending id old new s'
IsPending-tables id old new s s' h cards fuel = record {
  distinct = rw cards h.distinct;
  cards_pending = rw (cards, fuel) h.cards_pending;
  fuel_owned = λ i k. rw fuel (h.fuel_owned i (rw cards at k));
  exists = rw cards h.exists;
  old_matches = rw fuel h.old_matches;
}

-- The mark of a reading below the counter.
abbrev pub mark_below : Card → Card
mark_below c = record c { below_previous_reading = true }

mark_step :
    (id : ℕ) (c d : Card)
    → collides c d ≡ false
    → collides (update_row id mark_below c) (update_row id mark_below d) ≡ false
mark_step id c d free = elim (Bool-cases (c.id == id)) [
  | inl this ↦ elim (Bool-cases (d.id == id)) [
    | inl same ↦ rw (this, same) free
    | inr other ↦ rw (this, other) free
  ]
  | inr that ↦ elim (Bool-cases (d.id == id)) [
    | inl same ↦ rw (that, same) free
    | inr other ↦ rw (that, other) free
  ]
]

mark_pending :
    (fuel : ℕ → Option FuelRecord) (id new : ℕ) (c : Card)
    → card_pending fuel id new c ≡ true
    → card_pending fuel id new (update_row id mark_below c) ≡ true
unfolding card_ok
mark_pending fuel id new c h = elim (Bool-cases (c.id == id)) [
  | inl this ↦ ground (arith, this, h)
  | inr other ↦ ground (arith, other, h)
]

mark_id : (id : ℕ) (c : Card) → (update_row id mark_below c).id ≡ c.id
mark_id id c = elim (Bool-cases (c.id == id)) [
  | inl this ↦ rw this refl
  | inr other ↦ rw other refl
]

pub mark-IsPending :
    (id old new : ℕ) (s : Db)
    → IsPending id old new s
    → IsPending id old new (update_card id mark_below s)
mark-IsPending id old new s h = record {
  distinct =
      are_distinct-map (update_row id mark_below) (λ _. false) s.cards
        (λ c d free _ _. mark_step id c d free) (any-false s.cards) h.distinct;
  cards_pending =
      every-map (card_pending s.fuel id new) (card_pending s.fuel id new) (update_row id mark_below)
        s.cards (mark_pending s.fuel id new) h.cards_pending;
  fuel_owned = λ i k.
      h.fuel_owned i (sym (any-has_id-map (update_row id mark_below) i s.cards (mark_id id)) ∙ k);
  exists = any-has_id-map (update_row id mark_below) id s.cards (mark_id id) ∙ h.exists;
  old_matches = h.old_matches;
}
