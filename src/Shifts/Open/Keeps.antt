-- ===== src/Shifts/Open/Keeps.antt =====
-- The invariant of the tables and the opening of a card.
use smi_backend.Prelude.{
  ℕ, ◌≡◌, refl, Bool, false, Option, none, some, ◌∷◌, arith, any, Bool-cases, inl, inr,
}
use smi_backend.Prelude.Handler.{
  atomic, Keeps, Ensures, OnOk, Ensures-bind, Ensures-Keeps, Keeps-transaction, Keeps-bind,
  Keeps-reads, Keeps-throw, Keeps-modify, Keeps-catch,
}
use smi_backend.Equipment.Counter.{Equipment}
use smi_backend.Shifts.Types.{Card, Db, Session, OpenShiftCardDto, ShiftError, id_race}
use smi_backend.Shifts.Queries.{Env, collides, has_id, find_card, insert_card, upsert_shift}
use smi_backend.Shifts.Open.{
  new_card, created, open_writes, open_found, open_tx, resolve_open_race, on_open_error, open_card,
}
use smi_backend.Shifts.Open.Checks.{Opening}
use smi_backend.Shifts.Invariant.{
  no_collision-id, are_distinct, card_ok, IsValid, upsert_shift-Keeps, reconcile-Keeps,
}

owned_cons :
    (c : Card) (s : Db) (i : ℕ) → IsValid s → any (has_id i) (c ∷ s.cards) ≡ false → s.fuel i ≡ none
owned_cons c s i h k = h.fuel_owned i (ground (arith, k))

-- A new card that is open and has no litres.
insert-IsValid :
    (c : Card) (s : Db)
    → c.valor_final ≡ none
    → c.fuel_liters ≡ none
    → any (collides c) s.cards ≡ false
    → IsValid s
    → IsValid (record s { cards = c ∷ s.cards })
unfolding are_distinct card_ok
insert-IsValid c s is_open no_liters free h = record {
  distinct = ground (arith, free, h.distinct);
  cards_ok =
      ground
        (arith, is_open, no_liters, h.cards_ok, h.fuel_owned c.id (no_collision-id c s.cards free));
  fuel_owned = λ i k. owned_cons c s i h k;
}

module _ (env : Env) (session : Session) (dto : OpenShiftCardDto) where
  created-IsValid :
      (opening : Opening) (shift : ℕ) (below : Bool) (s : Db)
      → IsValid s
      → OnOk
          (λ _. IsValid)
          (created env session dto
            (new_card env session dto opening shift below)
            (insert_card (new_card env session dto opening shift below) s)
            s)
  created-IsValid opening shift below s h =
      elim (Bool-cases (any (collides (new_card env session dto opening shift below)) s.cards)) [
        | inl race ↦ rw race tt
        | inr free ↦
            rw free
              (insert-IsValid (new_card env session dto opening shift below) s refl refl free h)
      ]

  pub open_writes-IsValid :
      (opening : Opening) (shift : ℕ) (equipo : Equipment)
      → Ensures IsValid (λ _. IsValid) (open_writes env session dto opening shift equipo)
  unfolding open_writes
  open_writes-IsValid opening shift equipo =
      Ensures-bind (Ensures-Keeps (reconcile-Keeps dto.equipo_id equipo dto.valor_inicial))
        (λ below. record { held = created-IsValid opening shift below })

  -- An opening keeps a property that the shifts do not touch and that its transaction and the others
  -- keep.
  module _ {P : Db → Type 0} (inside : Db → Db) (inside_keeps : (s : Db) → P s → P (inside s))
      (shifts_keep : Keeps P (upsert_shift env session.user_id dto.shift_date dto.shift_type))
      (writes_keep : (opening : Opening) (shift : ℕ) (equipo : Equipment)
        → Keeps P (atomic (open_writes env session dto opening shift equipo))) where
    open_found-Keeps :
        (opening : Opening) (shift : ℕ) (o : Option Card)
        → Keeps P (open_found env session dto opening shift inside o)
    open_found-Keeps opening shift (some c) = Keeps-reads
    open_found-Keeps opening shift none =
        Keeps-bind Keeps-reads
          (λ equipo. Keeps-bind (Keeps-modify inside_keeps) (λ _. writes_keep opening shift equipo))

    open_tx-Keeps :
        (opening : Opening) (shift : ℕ) → Keeps P (open_tx env session dto opening shift inside)
    unfolding open_tx
    open_tx-Keeps opening shift = record {
      held = λ s. (open_found-Keeps opening shift (find_card dto.id s.cards)).held s;
    }

    on_open_error-Keeps : (e : ShiftError) → Keeps P (on_open_error env session dto e)
    unfolding resolve_open_race
    on_open_error-Keeps id_race = Keeps-reads
    on_open_error-Keeps _ = Keeps-throw

    pub open_card-Keeps_all :
        (before : Db → Db)
        → ((s : Db) → P s → P (before s))
        → Keeps P (open_card env session dto before inside)
    unfolding open_card
    open_card-Keeps_all before before_keeps = Keeps-bind Keeps-reads (λ opening.
        Keeps-bind shifts_keep (λ shift.
          Keeps-bind (Keeps-modify before_keeps)
            (λ _. Keeps-catch (open_tx-Keeps opening shift) on_open_error-Keeps)))

  -- Whatever is sent to open a card, and whatever valid changes others commit meanwhile, the tables
  -- stay valid.
  pub open_card-Keeps :
      (inside : Db → Db)
      → ((s : Db) → IsValid s → IsValid (inside s))
      → (before : Db → Db) → ((s : Db) → IsValid s → IsValid (before s))
      → Keeps IsValid (open_card env session dto before inside)
  open_card-Keeps inside inside_keeps =
      open_card-Keeps_all inside inside_keeps
        (upsert_shift-Keeps env session.user_id dto.shift_date dto.shift_type)
        (λ opening shift equipo. Keeps-transaction (open_writes-IsValid opening shift equipo))
