-- ===== src/Prelude/Handler/Settling.antt =====
-- The rules on what a handler leaves if it answers, and what it leaves if it throws.
use smi_backend.Prelude.Result.{Result, ok, err}
use smi_backend.Prelude.Handler.Monad.{continued, ◌>>=◌, pure, modify, settled, atomic}
use smi_backend.Prelude.Handler.Kept.{Keeps}
use smi_backend.Prelude.Handler.Ensured.{OnOk, Ensures}

-- A property of the answer and the state, or of the state in which the handler has thrown.
abbrev pub Outcome : {S E A : Type 0} → (A → S → Type 0) → (S → Type 0) → Result E A × S → Type 0
Outcome Q W (ok a, s) = Q a s
Outcome Q W (err e, s) = W s

pub record Settles {S E A : Type 0} (P : S → Type 0) (Q : A → S → Type 0) (W : S → Type 0)
    (m : S → Result E A × S) : Type 0 where
  pub held : (s : S) → P s → Outcome Q W (m s)

module _ {S E : Type 0} where
  Settles-after :
      {A B : Type 0} {Q : A → S → Type 0} {R : B → S → Type 0} {W : S → Type 0}
      (f : A → S → Result E B × S)
      → ((a : A) → Settles (Q a) R W (f a))
      → (r : Result E A × S) → Outcome Q W r
      → Outcome R W (continued r f)
  Settles-after f hf (ok a, s) q = (hf a).held s q
  Settles-after f hf (err e, s) w = w

  pub Settles-bind :
      {A B : Type 0} {P : S → Type 0} {Q : A → S → Type 0} {R : B → S → Type 0} {W : S → Type 0}
      {m : S → Result E A × S} {f : A → S → Result E B × S}
      → Settles P Q W m
      → ((a : A) → Settles (Q a) R W (f a))
      → Settles P R W (m >>= f)
  unfolding ◌>>=◌
  Settles-bind {m = m} {f = f} hm hf = record {
    held = λ s h. Settles-after f hf (m s) (hm.held s h);
  }

  pub Settles-modify :
      {P Q W : S → Type 0} {f : S → S}
      → ((s : S) → P s → Q (f s))
      → Settles {E = E} P (λ _. Q) W (modify f)
  Settles-modify h = record { held = h }

  pub Settles-pure :
      {A : Type 0} {P W : S → Type 0} {Q : A → S → Type 0} (a : A)
      → ((s : S) → P s → Q a s)
      → Settles {E = E} P Q W (pure a)
  Settles-pure a h = record { held = h }

  both :
      {A : Type 0} (Q : A → S → Type 0) (W : S → Type 0) (r : Result E A × S)
      → OnOk Q r
      → W r.1
      → Outcome Q W r
  both Q W (ok a, s) q w = q
  both Q W (err e, s) q w = w

  -- A handler that writes nothing that matters to what is left after an error.
  pub Settles-Keeps :
      {A : Type 0} {P : S → Type 0} {Q : A → S → Type 0} {W : S → Type 0} {m : S → Result E A × S}
      → Ensures P Q m
      → Keeps W m
      → ((s : S) → P s → W s)
      → Settles P Q W m
  Settles-Keeps {Q = Q} {W = W} {m = m} h k i = record {
    held = λ s p. both Q W (m s) (h.held s p) (k.held s (i s p));
  }

  rolled_back :
      {A : Type 0} (Q : A → S → Type 0) (W : S → Type 0) (s : S) (r : Result E A × S)
      → OnOk Q r
      → W s
      → Outcome Q W (settled s r)
  rolled_back Q W s (ok a, t) q w = q
  rolled_back Q W s (err e, t) q w = w

  pub Settles-atomic :
      {A : Type 0} {P : S → Type 0} {Q : A → S → Type 0} {W : S → Type 0} {m : S → Result E A × S}
      → Ensures P Q m
      → ((s : S) → P s → W s)
      → Settles P Q W (atomic m)
  unfolding atomic
  Settles-atomic {Q = Q} {W = W} {m = m} h i = record {
    held = λ s p. rolled_back Q W s (m s) (h.held s p) (i s p);
  }

  pub Outcome-weaken :
      {A : Type 0} {Q R : A → S → Type 0} (W : S → Type 0) (r : Result E A × S)
      → ((a : A) (s : S) → Q a s → R a s)
      → Outcome Q W r
      → Outcome R W r
  Outcome-weaken W (ok a, s) h q = h a s q
  Outcome-weaken W (err e, s) h w = w

  on_ok :
      {A : Type 0} (Q : A → S → Type 0) (W : S → Type 0) (r : Result E A × S)
      → Outcome Q W r
      → OnOk Q r
  on_ok Q W (ok a, s) q = q
  on_ok Q W (err e, s) w = tt

  pub Ensures-Settles :
      {A : Type 0} {P : S → Type 0} {Q : A → S → Type 0} {W : S → Type 0} {m : S → Result E A × S}
      → Settles P Q W m
      → Ensures P Q m
  Ensures-Settles {Q = Q} {W = W} {m = m} h = record { held = λ s p. on_ok Q W (m s) (h.held s p) }

  pub OnOk-weaken :
      {A : Type 0} {Q R : A → S → Type 0} (r : Result E A × S)
      → ((a : A) (s : S) → Q a s → R a s)
      → OnOk Q r
      → OnOk R r
  OnOk-weaken (ok a, s) h q = h a s q
  OnOk-weaken (err e, s) h q = tt
