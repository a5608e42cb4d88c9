-- ===== src/Prelude/Handler/Kept.antt =====
-- The rules by which a handler keeps a property of the state.
use mathlib.Core.Bool.{Bool, true, false}
use mathlib.Core.Option.{Option, none, some}
use smi_backend.Prelude.Result.{Result, ok, err}
use smi_backend.Prelude.Handler.Monad.{
  continued, ◌>>=◌, pure, throw, gets, modify, reads, throw_if, throw_where, or_throw, settled,
  atomic, caught, catch,
}

-- A handler keeps a property of the state, whatever it answers.
pub record Keeps {S E A : Type 0} (P : S → Type 0) (m : S → Result E A × S) : Type 0 where
  pub held : (s : S) → P s → P (m s).1

keeps_settled :
    {S E A : Type 0} (P : S → Type 0) (s : S) (r : Result E A × S) → P s → P r.1 → P (settled s r).1
keeps_settled P s (ok a, s') h p = p
keeps_settled P s (err e, s') h p = h

module _ {S E : Type 0} {P : S → Type 0} where
  pub Keeps-pure : {A : Type 0} {a : A} → Keeps {E = E} P (pure a)
  Keeps-pure = record { held = λ s h. h }

  pub Keeps-gets : {A : Type 0} {f : S → A} → Keeps {E = E} P (gets f)
  Keeps-gets = record { held = λ s h. h }

  pub Keeps-both :
      {Q : S → Type 0} {A : Type 0} {m : S → Result E A × S}
      → Keeps P m
      → Keeps Q m
      → Keeps (λ s. P s × Q s) m
  Keeps-both hp hq = record { held = λ s h. (hp.held s h.0, hq.held s h.1) }

  pub Keeps-reads : {A : Type 0} {f : S → Result E A} → Keeps P (reads f)
  Keeps-reads = record { held = λ s h. h }

  pub Keeps-modify : {f : S → S} → ((s : S) → P s → P (f s)) → Keeps {E = E} P (modify f)
  Keeps-modify h = record { held = h }

  pub Keeps-throw : {A : Type 0} {e : E} → Keeps {A = A} P (throw e)
  Keeps-throw = record { held = λ s h. h }

  pub Keeps-throw_if : (b : Bool) (e : E) → Keeps P (throw_if b e)
  unfolding throw_if
  Keeps-throw_if true e = record { held = λ s h. h }
  Keeps-throw_if false e = record { held = λ s h. h }

  pub Keeps-throw_where : (c : S → Bool) (e : E) → Keeps P (throw_where c e)
  unfolding throw_where
  Keeps-throw_where c e = record { held = λ s h. (Keeps-throw_if (c s) e).held s h }

  pub Keeps-or_throw : {A : Type 0} (o : Option A) (e : E) → Keeps P (or_throw o e)
  unfolding or_throw
  Keeps-or_throw none e = record { held = λ s h. h }
  Keeps-or_throw (some a) e = record { held = λ s h. h }

  keeps_continued :
      {A B : Type 0} (f : A → S → Result E B × S)
      → ((a : A) → Keeps P (f a))
      → (r : Result E A × S) → P r.1
      → P (continued r f).1
  keeps_continued f hf (ok a, s) p = (hf a).held s p
  keeps_continued f hf (err e, s) p = p

  pub Keeps-bind :
      {A B : Type 0} {m : S → Result E A × S} {f : A → S → Result E B × S}
      → Keeps P m
      → ((a : A) → Keeps P (f a))
      → Keeps P (m >>= f)
  unfolding ◌>>=◌
  Keeps-bind {m = m} {f = f} hm hf = record {
    held = λ s h. keeps_continued f hf (m s) (hm.held s h);
  }

  pub Keeps-atomic : {A : Type 0} {m : S → Result E A × S} → Keeps P m → Keeps P (atomic m)
  unfolding atomic
  Keeps-atomic {m = m} hm = record { held = λ s h. keeps_settled P s (m s) h (hm.held s h) }

  keeps_caught :
      {A : Type 0} (g : E → S → Result E A × S)
      → ((e : E) → Keeps P (g e))
      → (r : Result E A × S) → P r.1
      → P (caught r g).1
  keeps_caught g hg (ok a, s) p = p
  keeps_caught g hg (err e, s) p = (hg e).held s p

  pub Keeps-catch :
      {A : Type 0} {m : S → Result E A × S} {g : E → S → Result E A × S}
      → Keeps P m
      → ((e : E) → Keeps P (g e))
      → Keeps P (catch m g)
  unfolding catch
  Keeps-catch {m = m} {g = g} hm hg = record { held = λ s h. keeps_caught g hg (m s) (hm.held s h) }
