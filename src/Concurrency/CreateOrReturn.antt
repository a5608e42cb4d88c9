-- ===== src/Concurrency/CreateOrReturn.antt =====
-- src/common/idempotency/create-or-return.ts: a create that a client may retry under an id of its
-- own. `S` is the committed state; `find` and `create` are the callbacks, `meanwhile` is what other
-- requests commit between the lookup and the create. A `create` that throws has rolled its own
-- transaction back, so it returns the state that it leaves.
pub mod Laws
use smi_backend.Prelude.{ℕ, Bool, Option, none, some, opt_eq, if◌then◌else◌}
use smi_backend.Prelude.Result.{Result, ok, err}

-- `ExistingRecord`: its owner, and its answer, which is read only for the owner.
pub record ExistingRecord (S E T : Type 0) : Type 0 where
  pub owner_id : Option ℕ
  pub result : S → Result E T

module _ {S E T : Type 0} where
  -- `resolveExisting`; `conflict` is the 409 `ID_CONFLICT` with the caller's message.
  unfoldable pub resolve_existing : ExistingRecord S E T → ℕ → E → S → Result E T
  resolve_existing existing user conflict s =
      if opt_eq existing.owner_id (some user) then existing.result s else err conflict

  -- `findWinner` and the answer that follows it: the row is read again after a failed create, and
  -- a failed reading gives way to the original error.
  unfoldable pub find_winner : Result E (Option (ExistingRecord S E T)) → ℕ → E → E → S → Result E T
  unfolding resolve_existing
  find_winner (err _) user conflict original s = err original
  find_winner (ok none) user conflict original s = err original
  find_winner (ok (some winner)) user conflict original s = resolve_existing winner user conflict s

  -- The `try` around `create`.
  unfoldable pub create_or_winner :
      (ℕ → S → Result E (Option (ExistingRecord S E T)))
      → ℕ
      → ℕ
      → E
      → Result E T × S
      → Result E T × S
  unfolding find_winner
  create_or_winner find id user conflict (ok t, s) = (ok t, s)
  create_or_winner find id user conflict (err e, s) = (find_winner (find id s) user conflict e s, s)

  -- What is done once the first lookup has answered.
  unfoldable pub resume :
      (ℕ → S → Result E (Option (ExistingRecord S E T)))
      → (S → Result E T × S)
      → ℕ
      → ℕ
      → E
      → (S → S)
      → Result E (Option (ExistingRecord S E T))
      → S
      → Result E T × S
  unfolding create_or_winner
  resume find create id user conflict meanwhile (err e) s = (err e, s)
  resume find create id user conflict meanwhile (ok none) s =
      create_or_winner find id user conflict (create (meanwhile s))
  resume find create id user conflict meanwhile (ok (some existing)) s =
      (resolve_existing existing user conflict s, s)

  -- `createOrReturn`
  unfoldable pub create_or_return :
      (ℕ → S → Result E (Option (ExistingRecord S E T)))
      → (S → Result E T × S)
      → Option ℕ
      → ℕ
      → E
      → (S → S)
      → S
      → Result E T × S
  unfolding resume
  create_or_return find create none user conflict meanwhile s = create (meanwhile s)
  create_or_return find create (some id) user conflict meanwhile s =
      resume find create id user conflict meanwhile (find id s) s
