-- ===== src/Concurrency/CreateOrReturn/Laws.antt =====
-- What a client that retries can rely on.
use smi_backend.Prelude.{ℕ, ◌≡◌, ◌≢◌, refl, false, true, Option, none, some, arith, opt_eq}
use smi_backend.Prelude.Result.{Result, ok, err}
use smi_backend.Concurrency.CreateOrReturn.{
  ExistingRecord, create_or_winner, resume, create_or_return,
}

pub opt_eq_refl : (a : ℕ) → opt_eq (some a) (some a) ≡ true
opt_eq_refl a = ground arith

pub opt_eq-ne : (a : Option ℕ) (b : ℕ) → a ≢ some b → opt_eq a (some b) ≡ false
opt_eq-ne none b h = refl
opt_eq-ne (some a) b h = ground arith

module _ {S E T : Type 0} (find : ℕ → S → Result E (Option (ExistingRecord S E T)))
    (create : S → Result E T × S) (id : ℕ) (meanwhile : S → S) where
  -- The request meets a row with its id: on the first lookup, or when its own create failed, with
  -- any error, and the row is there afterwards.
  pub data Meets (s s' : S) (row : ExistingRecord S E T) : Type 0 where
    at_once : find id s ≡ ok (some row) → s ≡ s' → Meets s s' row
    after_race :
        (e : E)
        → find id s ≡ ok none
        → create (meanwhile s) ≡ (err e, s')
        → find id s' ≡ ok (some row)
        → Meets s s' row

  module _ (user : ℕ) (conflict : E) where
    -- A row of another user, or of none, is never delivered: the answer is the conflict, and no
    -- state is added to the one that the row was met in.
    pub create_or_return-foreign :
        (s s' : S) (row : ExistingRecord S E T)
        → Meets s s' row
        → row.owner_id ≢ some user
        → create_or_return find create (some id) user conflict meanwhile s ≡ (err conflict, s')
    unfolding create_or_return
    create_or_return-foreign s s' row (at_once found same) ne =
        rw (found, create_or_return) (rw (opt_eq-ne row.owner_id user ne) (rw same))
    create_or_return-foreign s s' row (after_race e absent failed winner) ne =
        rw (absent, create_or_return) (rw failed (rw winner (rw (opt_eq-ne row.owner_id user ne))))

    -- The owner of the row that the request meets gets that row's own answer, and nothing more is
    -- written: so for a retry, and for the loser of two concurrent creates, whatever error its own
    -- create failed with.
    pub create_or_return-own :
        (s s' : S) (row : ExistingRecord S E T)
        → Meets s s' row
        → row.owner_id ≡ some user
        → create_or_return find create (some id) user conflict meanwhile s ≡ (row.result s', s')
    unfolding create_or_return
    create_or_return-own s s' row (at_once found same) own =
        rw (found, create_or_return) (rw own (rw (opt_eq_refl user) (rw same)))
    create_or_return-own s s' row (after_race e absent failed winner) own =
        rw (absent, create_or_return) (rw failed (rw winner (rw own (rw (opt_eq_refl user)))))

create_or_winner-keeps :
    {S E T : Type 0} (P : S → Type 0) (find : ℕ → S → Result E (Option (ExistingRecord S E T)))
    (id user : ℕ) (conflict : E) (r : Result E T × S)
    → P r.1
    → P (create_or_winner find id user conflict r).1
unfolding create_or_winner
create_or_winner-keeps P find id user conflict (ok t, s) h = h
create_or_winner-keeps P find id user conflict (err e, s) h = h

-- What the create and the other requests keep, the idempotent create keeps.
pub create_or_return-keeps :
    {S E T : Type 0} (P : S → Type 0) (find : ℕ → S → Result E (Option (ExistingRecord S E T)))
    (create : S → Result E T × S) (id : Option ℕ) (user : ℕ) (conflict : E) (meanwhile : S → S)
    (s : S)
    → ((t : S) → P t → P (create t).1)
    → ((t : S) → P t → P (meanwhile t))
    → P s
    → P (create_or_return find create id user conflict meanwhile s).1
unfolding create_or_return
create_or_return-keeps P find create none user conflict meanwhile s kc km h =
    kc (meanwhile s) (km s h)
create_or_return-keeps {S} {E} {T} P find create (some id) user conflict meanwhile s kc km h =
    go (find id s)
  where
    go :
        (r : Result E (Option (ExistingRecord S E T)))
        → P (resume find create id user conflict meanwhile r s).1
    go (err e) = h
    go (ok none) =
        create_or_winner-keeps P find id user conflict (create (meanwhile s))
          (kc (meanwhile s) (km s h))
    go (ok (some x)) = h
