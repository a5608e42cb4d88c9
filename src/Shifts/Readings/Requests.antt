-- ===== src/Shifts/Readings/Requests.antt =====
-- The readings of the cards after sequences of requests.
use smi_backend.Prelude.{◌≡◌, refl, Bool, true, false, ◌&&◌, arith}
use smi_backend.Prelude.Handler.{Keeps-both, Keeps-transaction}
use smi_backend.Shifts.Types.{Db}
use smi_backend.Shifts.Open.Keeps.{open_card-Keeps_all, open_writes-IsValid}
use smi_backend.Shifts.Close.Keeps.{close_card-Keeps}
use smi_backend.Shifts.Edit.Keeps.{update_shift_card-Keeps_all, apply_edit-IsValid}
use smi_backend.Shifts.Invariant.{IsValid, IsValid-tables, upsert_shift-Keeps}
use smi_backend.Shifts.Interleavings.{
  Request, open_request, close_request, update_request, Requests, done, and_then, serve, serve_all,
}
use smi_backend.Shifts.Readings.{HasOrdered, shifts-Ordered, open_writes-Ordered}
use smi_backend.Shifts.Readings.Close.{close_card-HasOrdered}
use smi_backend.Shifts.Readings.Edit.{apply_edit-Ordered}

abbrev is_done : Requests → Bool
is_done done = true
is_done (and_then r rs) = false

-- Nobody else commits during a close.
unfoldable mutual
  pub closes_alone : Request → Bool
  closes_alone (open_request env session dto before inside) =
      all_close_alone before && all_close_alone inside
  closes_alone (close_request env session id dto inside) = is_done inside
  closes_alone (update_request env session id dto expected inside) = all_close_alone inside

  pub all_close_alone : Requests → Bool
  all_close_alone done = true
  all_close_alone (and_then r rs) = closes_alone r && all_close_alone rs

-- The tables are valid and no card has a final reading below its initial one.
abbrev pub InOrder : Db → Type 0
InOrder s = IsValid s × HasOrdered s

mutual
  unfolding serve closes_alone

  serve-InOrder : (r : Request) → closes_alone r ≡ true → (s : Db) → InOrder s → InOrder (serve r s)
  serve-InOrder (open_request env session dto before inside) alone s h =
      (open_card-Keeps_all env session dto (λ t. serve_all inside t)
          (λ t o. serve_all_ordered inside (ground (arith, alone)) t o)
          (Keeps-both (upsert_shift-Keeps env session.user_id dto.shift_date dto.shift_type)
            (shifts-Ordered env session.user_id dto.shift_date dto.shift_type))
          (λ opening shift equipo.
            Keeps-both
              (Keeps-transaction (open_writes-IsValid env session dto opening shift equipo))
              (open_writes-Ordered env session dto opening shift equipo))
          (λ t. serve_all before t)
          (λ t o. serve_all_ordered before (ground (arith, alone)) t o)).held
        s h
  serve-InOrder (close_request env session id dto done) alone s (valid, ordered) = (
    (close_card-Keeps env session id dto (λ t. t) (λ t v. v)).held s valid,
    close_card-HasOrdered env session id dto s valid ordered,
  )
  serve-InOrder (close_request env session id dto (and_then r rs)) alone s h = cc
  serve-InOrder (update_request env session id dto expected inside) alone s h =
      (update_shift_card-Keeps_all env session id dto
          (λ t events o. (IsValid-tables t _ o.0 refl refl, o.1))
          (λ before x.
            Keeps-both (Keeps-transaction (apply_edit-IsValid env session id dto before x))
              (apply_edit-Ordered env session id dto before x))
          expected (λ t. serve_all inside t) (λ t o. serve_all_ordered inside alone t o)).held
        s h

  serve_all_ordered :
      (rs : Requests) → all_close_alone rs ≡ true → (s : Db) → InOrder s → InOrder (serve_all rs s)
  serve_all_ordered done alone s h = h
  serve_all_ordered (and_then r rs) alone s h =
      serve_all_ordered rs (ground (arith, alone)) (serve r s)
        (serve-InOrder r (ground (arith, alone)) s h)

-- However requests to open, close and correct cards interleave, but for the closes, during which
-- nobody else commits, no card ever has a final reading below its initial one, if the tables were
-- valid and had none before.
pub serve_all-InOrder :
    (rs : Requests) (s : Db)
    → all_close_alone rs ≡ true
    → IsValid s
    → HasOrdered s
    → InOrder (serve_all rs s)
serve_all-InOrder rs s alone valid ordered = serve_all_ordered rs alone s (valid, ordered)
