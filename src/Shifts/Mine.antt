-- ===== src/Shifts/Mine.antt =====
-- `mine` of src/shifts/shifts.service.ts: the cards that a session sees. `cutoff` is the time 48 hours
-- ago. The order and the form of the answer are not modelled.
use smi_backend.Prelude.{
  ℕ, ◌≡◌, refl, ◌↔◌, Bool, true, false, ◌&&◌, ◌||◌, Option, none, some, List, arith, opt_eq, filter,
  Bool-cases, inl, inr,
}
use smi_backend.Prelude.Int.{ℤ, leb_ℤ}
use smi_backend.Prelude.Result.{err}
use smi_backend.Auth.Roles.{admin, session_has_role}
use smi_backend.Shifts.Types.{Card, Db, Session, CloseShiftCardDto, not_owner}
use smi_backend.Shifts.Queries.{is_open, find_card}
use smi_backend.Shifts.Close.Checks.{is_light_row, may_close_card, check_close, answer_open}

-- `visibles`: all cards for an administrator, and else the own ones, and those of light vehicles that
-- are open or that the session has closed.
abbrev pub is_visible : Session → Db → Card → Bool
is_visible session s c =
    session_has_role session.role admin
    || (opt_eq c.supervisor_id (some session.user_id)
        || (is_light_row c.equipo_id s
            && (is_open c || opt_eq c.closed_by_id (some session.user_id))))

abbrev pub closed_since : ℤ → Option ℤ → Bool
closed_since cutoff none = false
closed_since cutoff (some at) = leb_ℤ cutoff at

abbrev pub is_mine : Session → ℤ → Db → Card → Bool
is_mine session cutoff s c =
    is_visible session s c && (is_open c || closed_since cutoff c.closed_at)

unfoldable pub mine : Session → ℤ → Db → List Card
mine session cutoff s = filter (is_mine session cutoff s) s.cards

open_is_mine :
    (session : Session) (cutoff : ℤ) (s : Db) (c : Card)
    → is_open c ≡ true
    → is_mine session cutoff s c ≡ may_close_card session c s
open_is_mine session cutoff s c h = ground (arith, h)

refused_only :
    (session : Session) (id : ℕ) (dto : CloseShiftCardDto) (c : Card) (s : Db)
    → answer_open session id dto c s ≡ err not_owner
    → ⊥
refused_only session id dto c s h = ground (arith, h)

-- The closing of an open card is refused for lack of rights exactly if the list of the session's cards
-- leaves it out.
pub check_close-not_owner_iff :
    (session : Session) (cutoff : ℤ) (id : ℕ) (dto : CloseShiftCardDto) (s : Db) (c : Card)
    → find_card id s.cards ≡ some c
    → is_open c ≡ true
    → (check_close session id dto s ≡ err not_owner) ↔ (is_mine session cutoff s c ≡ false)
unfolding check_close
check_close-not_owner_iff session cutoff id dto s c found still =
    elim (Bool-cases (may_close_card session c s)) [
      | inl may ↦ (
        λ refused.
            absurd
              (refused_only session id dto c s (rw (check_close, found, may, still) at refused)),
        λ left_out. absurd (ground (arith, open_is_mine session cutoff s c still, may, left_out)),
      )
      | inr may_not ↦ (
        λ refused. ground (arith, open_is_mine session cutoff s c still, may_not),
        λ left_out. rw (check_close, found, may_not) refl,
      )
    ]
