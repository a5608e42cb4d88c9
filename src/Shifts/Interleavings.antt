-- ===== src/Shifts/Interleavings.antt =====
-- Sequences of requests on cards, each with what others commit while it runs, as far down as one
-- likes: a request lets others in at the points that `openCard`, `closeCard` and `update` name.
use smi_backend.Prelude.{ℕ, Option}
use smi_backend.Concurrency.Expected.{Fields}
use smi_backend.Shifts.Types.{Db, Session, OpenShiftCardDto, CloseShiftCardDto, UpdateShiftCardDto}
use smi_backend.Shifts.Queries.{Env}
use smi_backend.Shifts.Open.{open_card}
use smi_backend.Shifts.Open.Keeps.{open_card-Keeps}
use smi_backend.Shifts.Close.{close_card}
use smi_backend.Shifts.Close.Keeps.{close_card-Keeps}
use smi_backend.Shifts.Edit.{update_shift_card}
use smi_backend.Shifts.Edit.Keeps.{update_shift_card-Keeps}
use smi_backend.Shifts.Invariant.{IsValid}

mutual
  pub data Request : Type 0 where
    open_request : Env → Session → OpenShiftCardDto → Requests → Requests → Request
    close_request : Env → Session → ℕ → CloseShiftCardDto → Requests → Request
    update_request : Env → Session → ℕ → UpdateShiftCardDto → Option Fields → Requests → Request

  pub data Requests : Type 0 where
    done : Requests
    and_then : Request → Requests → Requests

-- What a request leaves in the tables, and a sequence of them.
unfoldable mutual
  pub serve : Request → Db → Db
  serve (open_request env session dto before inside) s =
      (open_card env session dto (λ t. serve_all before t) (λ t. serve_all inside t) s).1
  serve (close_request env session id dto inside) s =
      (close_card env session id dto (λ t. serve_all inside t) s).1
  serve (update_request env session id dto expected inside) s =
      (update_shift_card env session id dto expected (λ t. serve_all inside t) s).1

  pub serve_all : Requests → Db → Db
  serve_all done s = s
  serve_all (and_then r rs) s = serve_all rs (serve r s)

mutual
  unfolding serve

  serve-IsValid : (r : Request) (s : Db) → IsValid s → IsValid (serve r s)
  serve-IsValid (open_request env session dto before inside) s h =
      (open_card-Keeps env session dto (λ t. serve_all inside t)
          (λ t v. serve_all-IsValid' inside t v) (λ t. serve_all before t)
          (λ t v. serve_all-IsValid' before t v)).held
        s h
  serve-IsValid (close_request env session id dto inside) s h =
      (close_card-Keeps env session id dto (λ t. serve_all inside t)
          (λ t v. serve_all-IsValid' inside t v)).held
        s h
  serve-IsValid (update_request env session id dto expected inside) s h =
      (update_shift_card-Keeps env session id dto expected (λ t. serve_all inside t)
          (λ t v. serve_all-IsValid' inside t v)).held
        s h

  serve_all-IsValid' : (rs : Requests) (s : Db) → IsValid s → IsValid (serve_all rs s)
  serve_all-IsValid' done s h = h
  serve_all-IsValid' (and_then r rs) s h = serve_all-IsValid' rs (serve r s) (serve-IsValid r s h)

-- However requests to open, close and correct cards interleave, valid tables stay valid: no two
-- cards have one id, one equipment in use or one id of the close, an open card has no litres, and a
-- fuel record is there exactly for the cards with litres and has the same litres.
pub serve_all-IsValid : (rs : Requests) (s : Db) → IsValid s → IsValid (serve_all rs s)
serve_all-IsValid = serve_all-IsValid'
