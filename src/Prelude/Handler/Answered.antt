-- ===== src/Prelude/Handler/Answered.antt =====
-- The rules on what a handler answers, whatever the state is.
use smi_backend.Prelude.Result.{Result, ok, err}
use smi_backend.Prelude.Handler.Monad.{◌>>=◌, throw, atomic, catch}
use smi_backend.Prelude.Handler.Ensured.{OnOk, Ensures, Ensures-bind, Ensures-atomic, Ensures-catch}

module _ {S E : Type 0} where
  -- Whatever the state, the answer and the state that it leaves have a property.
  abbrev pub Answers : {A : Type 0} → (A → S → Type 0) → (S → Result E A × S) → Type 0
  Answers Q m = Ensures (λ _. Unit {0}) Q m

  pub Answers-atomic :
      {A : Type 0} {Q : A → S → Type 0} {m : S → Result E A × S}
      → Answers Q m
      → Answers Q (atomic m)
  Answers-atomic = Ensures-atomic

  pub Answers-catch :
      {A : Type 0} {Q : A → S → Type 0} {m : S → Result E A × S} {g : E → S → Result E A × S}
      → Answers Q m
      → ((e : E) → Answers Q (g e))
      → Answers Q (catch m g)
  Answers-catch = Ensures-catch

  pub Answers-bind :
      {A B : Type 0} {Q : B → S → Type 0} (m : S → Result E A × S) {f : A → S → Result E B × S}
      → ((a : A) → Answers Q (f a))
      → Answers Q (m >>= f)
  Answers-bind m h = Ensures-bind (record { held = λ s p. always (m s) }) h
    where
      always : {C : Type 0} (r : Result E C × S) → OnOk (λ _ _. Unit {0}) r
      always (ok a, s) = tt
      always (err e, s) = tt

  pub Answers-throw : {A : Type 0} {Q : A → S → Type 0} {e : E} → Answers Q (throw e)
  Answers-throw = record { held = λ s p. tt }
