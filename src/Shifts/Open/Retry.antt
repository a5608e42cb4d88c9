-- ===== src/Shifts/Open/Retry.antt =====
-- The opening of a card that is sent again.
use smi_backend.Prelude.{
  ℕ, ◌≡◌, refl, Bool, true, Option, none, some, arith, any, Bool-cases, inl, inr, find,
}
use smi_backend.Prelude.Result.{ok}
use smi_backend.Prelude.Handler.{
  continued, OnOk, OnOk-eq, Answers, Answers-atomic, Answers-catch, Answers-bind, Answers-throw,
  modify, catch, ◌>>=◌,
}
use smi_backend.Equipment.Counter.{Equipment}
use smi_backend.Shifts.Types.{Shift, Card, Db, Session, OpenShiftCardDto, ShiftError, id_race}
use smi_backend.Shifts.Queries.{
  Env, collides, find_card, has_key, is_same_request, insert_card, upserted, upsert_shift,
}
use smi_backend.Shifts.Open.Checks.{Opening, prepare}
use smi_backend.Shifts.Open.{
  new_card, created, open_writes, answer_existing, open_found, open_tx, winner, resolve_open_race,
  on_open_error, open_card,
}

module _ (env : Env) (session : Session) (dto : OpenShiftCardDto) where
  -- The answer is the stored card with the id of the request, and is of its user and equipment.
  abbrev IsMine : Card → Db → Type 0
  IsMine c s =
      (find_card dto.id s.cards ≡ some c) × (is_same_request session.user_id dto.equipo_id c ≡ true)

  written-IsMine :
      (opening : Opening) (shift : ℕ) (below : Bool) (s : Db)
      → OnOk IsMine (
          created env session dto
            (new_card env session dto opening shift below)
            (insert_card (new_card env session dto opening shift below) s)
            s)
  unfolding find_card
  written-IsMine opening shift below s =
      elim (Bool-cases (any (collides (new_card env session dto opening shift below)) s.cards)) [
        | inl race ↦ rw race tt
        | inr free ↦ rw free (ground arith, ground arith)
      ]

  open_writes-answer :
      (opening : Opening) (shift : ℕ) (equipo : Equipment)
      → Answers IsMine (open_writes env session dto opening shift equipo)
  unfolding open_writes
  open_writes-answer opening shift equipo =
      Answers-bind _ (λ below. record { held = λ s h. written-IsMine opening shift below s })

  existing-IsMine :
      (s : Db) (c : Card)
      → find_card dto.id s.cards ≡ some c
      → OnOk IsMine (answer_existing env session dto c, s)
  existing-IsMine s c e = elim (Bool-cases (is_same_request session.user_id dto.equipo_id c)) [
    | inl mine ↦ rw mine (e, mine)
    | inr foreign ↦ rw foreign tt
  ]

  won :
      (s : Db) (o : Option Card)
      → find_card dto.id s.cards ≡ o
      → OnOk IsMine (winner env session dto o, s)
  won s none e = tt
  won s (some c) e = elim (Bool-cases (is_same_request session.user_id dto.equipo_id c)) [
    | inl mine ↦ rw mine (e, mine)
    | inr foreign ↦ rw foreign tt
  ]

  race_answer : Answers IsMine (resolve_open_race env session dto)
  unfolding resolve_open_race
  race_answer = record { held = λ s h. won s (find_card dto.id s.cards) refl }

  error_answer : (e : ShiftError) → Answers IsMine (on_open_error env session dto e)
  error_answer id_race = race_answer
  error_answer _ = Answers-throw

  open_tx-answer :
      (opening : Opening) (shift : ℕ) (inside : Db → Db)
      → Answers IsMine (open_tx env session dto opening shift inside)
  unfolding open_tx
  open_tx-answer opening shift inside = record {
    held = λ s h. from_found s (find_card dto.id s.cards) refl;
  }
    where
      from_found :
          (s : Db) (o : Option Card)
          → find_card dto.id s.cards ≡ o
          → OnOk IsMine (open_found env session dto opening shift inside o s)
      from_found s (some c) e = existing-IsMine s c e
      from_found s none e = fresh.held s tt
        where
          fresh : Answers IsMine (open_found env session dto opening shift inside none)
          fresh = Answers-bind _ (λ equipo.
              Answers-bind _ (λ _. Answers-atomic (open_writes-answer opening shift equipo)))

  open_card-answer :
      (before inside : Db → Db) → Answers IsMine (open_card env session dto before inside)
  unfolding open_card
  open_card-answer before inside = Answers-bind _ (λ opening. Answers-bind _ (λ shift.
      Answers-bind _ (λ _. Answers-catch (open_tx-answer opening shift inside) error_answer)))

-- An opening that is sent again after it was answered gets the same card and creates none, where its
-- checks before the transaction still pass; it only finds or creates the shift once more.
pub open_card-retry :
    (env env' : Env) (session : Session) (dto : OpenShiftCardDto) (before inside inside' : Db → Db)
    (s s' : Db) (c : Card) (opening : Opening)
    → open_card env session dto before inside s ≡ (ok c, s')
    → prepare env' session dto s' ≡ ok opening
    → open_card env' session dto (λ t. t) inside' s'
      ≡ (ok c, (upsert_shift env' session.user_id dto.shift_date dto.shift_type s').1)
unfolding open_card open_tx catch upsert_shift ◌>>=◌
open_card-retry env env' session dto before inside inside' s s' c opening first passes =
    let (found, mine) =
      OnOk-eq _ _ c s' first ((open_card-answer env session dto before inside).held s tt) in
    rw passes (
      with_shift found mine
        (find (has_key session.user_id dto.shift_date dto.shift_type) s'.shifts))
  where
    with_shift :
        find_card dto.id s'.cards ≡ some c
        → is_same_request session.user_id dto.equipo_id c ≡ true
        → (o : Option Shift)
        → continued (upserted env' session.user_id dto.shift_date dto.shift_type o s') (λ shift.
          modify (λ t. t) >>= λ _.
          catch (open_tx env' session dto opening shift inside') (on_open_error env' session dto))
          ≡ (ok c, (upserted env' session.user_id dto.shift_date dto.shift_type o s').1)
    with_shift found mine none = rw (found, mine) refl
    with_shift found mine (some shift) = rw (found, mine) refl
