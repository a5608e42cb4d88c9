-- ===== src/Prelude/Handler/Left.antt =====
-- The rules on what a handler leaves, whether it answers or throws.
use smi_backend.Prelude.Result.{Result, ok, err}
use smi_backend.Prelude.Handler.Monad.{continued, ◌>>=◌, settled, atomic, caught, catch}
use smi_backend.Prelude.Handler.Kept.{Keeps}
use smi_backend.Prelude.Handler.Ensured.{OnOk, Ensures}

-- From states with one property a handler leaves states with another, whatever it answers.
pub record Leaves {S E A : Type 0} (P Q : S → Type 0) (m : S → Result E A × S) : Type 0 where
  pub held : (s : S) → P s → Q (m s).1

module _ {S E : Type 0} {P Q : S → Type 0} where
  left_continued :
      {A B : Type 0} (f : A → S → Result E B × S)
      → ((s : S) → P s → Q s)
      → ((a : A) → Leaves P Q (f a))
      → (r : Result E A × S) → P r.1
      → Q (continued r f).1
  left_continued f weak hf (ok a, s) p = (hf a).held s p
  left_continued f weak hf (err e, s) p = weak s p

  pub Leaves-bind :
      {A B : Type 0} {m : S → Result E A × S} {f : A → S → Result E B × S}
      → ((s : S) → P s → Q s)
      → Keeps P m
      → ((a : A) → Leaves P Q (f a))
      → Leaves P Q (m >>= f)
  unfolding ◌>>=◌
  Leaves-bind {m = m} {f = f} weak hm hf = record {
    held = λ s h. left_continued f weak hf (m s) (hm.held s h);
  }

  left_caught :
      {A : Type 0} (g : E → S → Result E A × S)
      → ((s : S) → P s → Q s)
      → ((e : E) → Keeps Q (g e))
      → (s : S) (r : Result E A × S) → P s
      → OnOk (λ _. Q) r
      → Q (caught (settled s r) g).1
  left_caught g weak hg s (ok a, s') p q = q
  left_caught g weak hg s (err e, s') p q = (hg e).held s (weak s p)

  -- A transaction whose errors are caught.
  pub Leaves-caught :
      {A : Type 0} {m : S → Result E A × S} {g : E → S → Result E A × S}
      → ((s : S) → P s → Q s)
      → Ensures P (λ _. Q) m
      → ((e : E) → Keeps Q (g e))
      → Leaves P Q (catch (atomic m) g)
  unfolding catch atomic
  Leaves-caught {m = m} {g = g} weak hm hg = record {
    held = λ s p. left_caught g weak hg s (m s) p (hm.held s p);
  }
