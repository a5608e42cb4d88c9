-- ===== src/Shifts/Close/Steps.antt =====
-- What a close does around its transaction, for properties that the shifts and the photos do not
-- touch.
use smi_backend.Prelude.{ℕ, Bool, true, false, Option, none, some, List, ◌∷◌}
use smi_backend.Prelude.Handler.{
  Keeps-throw_if, Keeps-throw, Keeps-reads, Keeps-catch, Keeps, atomic, Keeps-pure, Keeps-bind,
  Keeps-modify,
}
use smi_backend.Shifts.Calendar.{ShiftType}
use smi_backend.Shifts.Close.Checks.{Closing, replay, may_close}
use smi_backend.Shifts.Types.{
  close_race, unique_violation, Card, Db, Session, CloseShiftCardDto, ShiftError,
}
use smi_backend.Shifts.Queries.{Env, upsert_shift}
use smi_backend.Shifts.Close.{
  Settled, close_tx, shift_sent, closed_shift, claimed, settle_close, on_close_error,
  resolve_close_race, close_open, close_checked, close_card,
}

module _ {P : Db → Type 0} (env : Env) (session : Session) (id : ℕ) (dto : CloseShiftCardDto)
    (shifts_keep : (date : ℕ) (type : ShiftType)
      → Keeps P (upsert_shift env session.user_id date type))
    (bucket_keeps : (s : Db) (keys : List ℕ) → P s → P (record s { bucket = keys })) where
  shift_sent-Keeps :
      (date : Option ℕ) (type : Option ShiftType)
      → Keeps P (shift_sent env session id dto date type)
  shift_sent-Keeps (some date) (some type) =
      Keeps-bind (Keeps-throw_if _ _) (λ _. shifts_keep date type)
  shift_sent-Keeps none type = Keeps-throw
  shift_sent-Keeps (some date) none = Keeps-throw

  closed_shift-Keeps : (b : Bool) → Keeps P (closed_shift env session id dto b)
  closed_shift-Keeps false = Keeps-pure
  closed_shift-Keeps true =
      Keeps-bind (shift_sent-Keeps dto.shift_date dto.shift_type) (λ shift. Keeps-pure)

  claimed-keeps : (o : Option ℕ) (s : Db) → P s → P (claimed env session id dto o s).1
  claimed-keeps none s h = h
  claimed-keeps (some key) s h = bucket_keeps s (key ∷ s.bucket) h

  pub settle_close-Keeps : (c : Card) (b : Bool) → Keeps P (settle_close env session id dto c b)
  settle_close-Keeps c b = Keeps-bind (closed_shift-Keeps b) (λ shift.
      Keeps-bind Keeps-reads (λ captured.
        Keeps-bind
          (record {
            held = λ s. claimed-keeps (env.claim_tmp dto.tmp_photo_key session.user_id s.bucket) s;
          })
          (λ photo. Keeps-pure)))

  pub on_close_error-Keeps : (e : ShiftError) → Keeps P (on_close_error env session id dto e)
  unfolding resolve_close_race
  on_close_error-Keeps close_race = Keeps-reads
  on_close_error-Keeps unique_violation = Keeps-reads
  on_close_error-Keeps _ = Keeps-throw

-- A close keeps a property that its transaction and the others keep too.
module _ {P : Db → Type 0} (env : Env) (session : Session) (id : ℕ) (dto : CloseShiftCardDto)
    (inside : Db → Db) (inside_keeps : (s : Db) → P s → P (inside s))
    (shifts_keep : (date : ℕ) (type : ShiftType)
      → Keeps P (upsert_shift env session.user_id date type))
    (bucket_keeps : (s : Db) (keys : List ℕ) → P s → P (record s { bucket = keys }))
    (tx_keeps : (p : Settled) → Keeps P (atomic (close_tx env session id dto p))) where
  close_open-Keeps : (c : Card) (b : Bool) → Keeps P (close_open env session id dto inside c b)
  unfolding close_open
  close_open-Keeps c b =
      Keeps-bind (settle_close-Keeps env session id dto shifts_keep bucket_keeps c b) (λ p.
        Keeps-bind (Keeps-modify inside_keeps) (λ _. Keeps-catch (tx_keeps p) (λ e.
          Keeps-bind (Keeps-modify (λ s h. bucket_keeps s _ h))
            (λ _. on_close_error-Keeps env session id dto shifts_keep bucket_keeps e))))

  pub close_card-Keeps_all : Keeps P (close_card env session id dto inside)
  unfolding close_card
  close_card-Keeps_all = Keeps-bind Keeps-reads (λ closing. checked closing)
    where
      checked : (closing : Closing) → Keeps P (close_checked env session id dto inside closing)
      checked (replay c) = Keeps-pure
      checked (may_close c b) = close_open-Keeps c b
