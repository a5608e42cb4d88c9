-- ===== src/Shifts/Close/Checks.antt =====
-- What `closeCard` of src/shifts/shifts.service.ts checks before it writes: who may close a card, and
-- whether it is closed already.
use smi_backend.Prelude.{
  ℕ, Bool, not, ◌&&◌, ◌||◌, some, List, [], ◌∷◌, ltb, if◌then◌else◌, or_default, is_some, opt_eq,
}
use smi_backend.Prelude.Result.{Result, ok, err, ◌>>=◌, ◌>>◌, throw_if, or_throw}
use smi_backend.Concurrency.Expected.{trim}
use smi_backend.Shifts.Types.{
  Card, Db, Session, CloseShiftCardDto, ShiftError, card_not_found, not_owner, already_closed,
  hourmeter_below_initial,
}
use smi_backend.Shifts.Queries.{is_light, find_card, is_open, is_owner_or_admin}

-- What the first queries of a close answer: a card that this close has closed before, or an open
-- card and whether it is that of a light vehicle.
pub data Closing : Type 0 where
  replay : Card → Closing
  may_close : Card → Bool → Closing

-- `session.user.name?.trim() || session.user.email`
abbrev pub nonempty_or : List ℕ → List ℕ → List ℕ
nonempty_or [] fallback = fallback
nonempty_or (c ∷ cs) fallback = c ∷ cs

abbrev pub display_name : Session → List ℕ
display_name session = nonempty_or (trim (or_default session.name [])) session.email

-- The row of the equipment is of a light vehicle.
abbrev pub is_light_row : ℕ → Db → Bool
is_light_row id s = is_some (s.counters id) && is_light (s.machines id).equipment_class

-- The session may close a card, if it is open.
abbrev pub may_close_card : Session → Card → Db → Bool
may_close_card session c s = is_owner_or_admin session c || is_light_row c.equipo_id s

module _ (session : Session) (id : ℕ) (dto : CloseShiftCardDto) where
  -- The answer for a card that is already closed.
  abbrev pub answer_closed : Card → Result ShiftError Closing
  answer_closed c =
      if opt_eq c.close_client_id (some dto.close_client_id)
      then ok (replay c)
      else err already_closed

  abbrev pub answer_open : Card → Db → Result ShiftError Closing
  answer_open c s =
      if ltb dto.valor_final c.valor_inicial
      then err hourmeter_below_initial
      else ok (may_close c (is_light_row c.equipo_id s))

  -- The part of `closeCard` up to the comparison of the readings.
  unfoldable pub check_close : Db → Result ShiftError Closing
  check_close s = do
    card ← or_throw (find_card id s.cards) card_not_found
    throw_if (not (may_close_card session card s)) not_owner
    if is_open card then answer_open card s else answer_closed card
