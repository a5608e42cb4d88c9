-- ===== src/Prelude/Handler/Monad.antt =====
-- The state monad of request handlers, with transactions and `try`.
use mathlib.Core.Bool.{Bool, true, false}
use mathlib.Core.Option.{Option, none, some}
use smi_backend.Prelude.Result.{Result, ok, err}

module _ {S E : Type 0} where
  -- What follows a handler that has answered.
  abbrev pub continued : {A B : Type 0} → Result E A × S → (A → S → Result E B × S) → Result E B × S
  continued (ok a, s) f = f a s
  continued (err e, s) f = (err e, s)

  infixl 5 ◌>>=◌ ◌>>◌
  unfoldable pub ◌>>=◌ :
      {A B : Type 0} → (S → Result E A × S) → (A → S → Result E B × S) → S → Result E B × S
  ◌>>=◌ m f s = continued (m s) f

  abbrev pub ◌>>◌ :
      {A B : Type 0} → (S → Result E A × S) → (S → Result E B × S) → S → Result E B × S
  m >> k = m >>= λ _. k

  abbrev pub pure : {A : Type 0} → A → S → Result E A × S
  pure a s = (ok a, s)

  abbrev pub throw : {A : Type 0} → E → S → Result E A × S
  throw e s = (err e, s)

  -- A query.
  abbrev pub gets : {A : Type 0} → (S → A) → S → Result E A × S
  gets f s = (ok (f s), s)

  abbrev pub modify : (S → S) → S → Result E (Unit {0}) × S
  modify f s = (ok tt, f s)

  -- Queries that may throw.
  abbrev pub reads : {A : Type 0} → (S → Result E A) → S → Result E A × S
  reads f s = (f s, s)

  unfoldable pub throw_if : Bool → E → S → Result E (Unit {0}) × S
  throw_if true e s = (err e, s)
  throw_if false e s = (ok tt, s)

  unfoldable pub or_throw : {A : Type 0} → Option A → E → S → Result E A × S
  or_throw none e s = (err e, s)
  or_throw (some a) e s = (ok a, s)

  -- A condition on the state under which the handler throws.
  unfoldable pub throw_where : (S → Bool) → E → S → Result E (Unit {0}) × S
  unfolding throw_if
  throw_where c e s = throw_if (c s) e s

  -- What a transaction leaves that started in a state.
  abbrev pub settled : {A : Type 0} → S → Result E A × S → Result E A × S
  settled s (ok a, s') = (ok a, s')
  settled s (err e, s') = (err e, s)

  -- A block that writes all that it wants to, or nothing.
  unfoldable pub atomic : {A : Type 0} → (S → Result E A × S) → S → Result E A × S
  atomic m s = settled s (m s)

  abbrev pub caught : {A : Type 0} → Result E A × S → (E → S → Result E A × S) → Result E A × S
  caught (ok a, s) h = (ok a, s)
  caught (err e, s) h = h e s

  -- `try` and `catch`
  unfoldable pub catch :
      {A : Type 0} → (S → Result E A × S) → (E → S → Result E A × S) → S → Result E A × S
  catch m h s = caught (m s) h
