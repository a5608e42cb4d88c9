-- ===== src/Prelude/Handler/Delivering.antt =====
-- The rules by which a handler answers, without throwing.
use mathlib.Core.Path.{◌≡◌, refl, ◌∙◌, ap}
use mathlib.Core.Bool.{Bool, true, false}
use mathlib.Core.Option.{Option, none, some}
use smi_backend.Prelude.Result.{Result, ok}
use smi_backend.Prelude.Handler.Monad.{
  continued, ◌>>=◌, pure, gets, modify, throw_if, throw_where, or_throw, settled, atomic, caught,
  catch,
}
use smi_backend.Prelude.Handler.Ensured.{OnOk-eq, Ensures}

-- An answer with a property of it and of the state that it leaves.
pub record Delivered {S E A : Type 0} (Q : A → S → Type 0) (r : Result E A × S) : Type 0 where
  pub answer : A
  pub state : S
  pub answered : r ≡ (ok answer, state)
  pub holds : Q answer state

-- From states with one property a handler answers in states with another.
pub record Delivers {S E A : Type 0} (P : S → Type 0) (Q : A → S → Type 0) (m : S → Result E A × S)
    : Type 0 where
  pub held : (s : S) → P s → Delivered Q (m s)

module _ {S E : Type 0} where
  pub Delivers-bind :
      {A B : Type 0} {P : S → Type 0} {Q : A → S → Type 0} {R : B → S → Type 0}
      {m : S → Result E A × S} {f : A → S → Result E B × S}
      → Delivers P Q m
      → ((a : A) → Delivers (Q a) R (f a))
      → Delivers P R (m >>= f)
  unfolding ◌>>=◌
  Delivers-bind {f = f} hm hf = record {
    held = λ s h.
        let d = hm.held s h in
        let e = (hf d.answer).held d.state d.holds in
        record {
          answer = e.answer;
          state = e.state;
          answered = ap (λ r. continued r f) d.answered ∙ e.answered;
          holds = e.holds;
        };
  }

  pub Delivers-pure :
      {A : Type 0} {P : S → Type 0} {Q : A → S → Type 0} (a : A)
      → ((s : S) → P s → Q a s)
      → Delivers {E = E} P Q (pure a)
  Delivers-pure a h = record {
    held = λ s p. record { answer = a; state = s; answered = refl; holds = h s p };
  }

  pub Delivers-gets :
      {A : Type 0} {P : S → Type 0} {f : S → A}
      → Delivers {E = E} P (λ a s. P s × (f s ≡ a)) (gets f)
  Delivers-gets {f = f} = record {
    held = λ s p. record { answer = f s; state = s; answered = refl; holds = (p, refl) };
  }

  pub Delivers-modify :
      {P Q : S → Type 0} {f : S → S}
      → ((s : S) → P s → Q (f s))
      → Delivers {E = E} P (λ _. Q) (modify f)
  Delivers-modify {f = f} h = record {
    held = λ s p. record { answer = tt; state = f s; answered = refl; holds = h s p };
  }

  pub Delivers-or_throw :
      {A : Type 0} {P : S → Type 0} (o : Option A) (e : E)
      → ((s : S) → P s → (a : A) × (o ≡ some a))
      → Delivers P (λ a s. P s × (o ≡ some a)) (or_throw o e)
  unfolding or_throw
  Delivers-or_throw none e h = record { held = λ s p. absurd (absent (h s p)) }
    where
      absent : {A : Type 0} → (a : A) × (none ≡ some a) → ⊥
      absent (a, k) = cc
  Delivers-or_throw (some a) e h = record {
    held = λ s p. record { answer = a; state = s; answered = refl; holds = (p, refl) };
  }

  pub Delivers-throw_if :
      {P : S → Type 0} (b : Bool) (e : E) → b ≡ false → Delivers P (λ _. P) (throw_if b e)
  unfolding throw_if
  Delivers-throw_if true e h = absurd (cc)
  Delivers-throw_if false e h = record {
    held = λ s p. record { answer = tt; state = s; answered = refl; holds = p };
  }

  pub Delivers-throw_where :
      {P : S → Type 0} (c : S → Bool) (e : E)
      → ((s : S) → P s → c s ≡ false)
      → Delivers P (λ _. P) (throw_where c e)
  unfolding throw_where
  Delivers-throw_where c e h = record { held = λ s p. (Delivers-throw_if (c s) e (h s p)).held s p }

  pub Delivers-atomic :
      {A : Type 0} {P : S → Type 0} {Q : A → S → Type 0} {m : S → Result E A × S}
      → Delivers P Q m
      → Delivers P Q (atomic m)
  unfolding atomic
  Delivers-atomic h = record {
    held = λ s p.
        let d = h.held s p in
        record {
          answer = d.answer;
          state = d.state;
          answered = ap (settled s) d.answered;
          holds = d.holds;
        };
  }

  pub Delivers-catch :
      {A : Type 0} {P : S → Type 0} {Q : A → S → Type 0} {m : S → Result E A × S}
      (g : E → S → Result E A × S)
      → Delivers P Q m
      → Delivers P Q (catch m g)
  unfolding catch
  Delivers-catch g h = record {
    held = λ s p.
        let d = h.held s p in
        record {
          answer = d.answer;
          state = d.state;
          answered = ap (λ r. caught r g) d.answered;
          holds = d.holds;
        };
  }

  -- A handler that answers, with what it ensures if it does.
  pub Delivers-Ensures :
      {A : Type 0} {P : S → Type 0} {Q R : A → S → Type 0} {m : S → Result E A × S}
      → Delivers P R m
      → Ensures P Q m
      → Delivers P Q m
  Delivers-Ensures {Q = Q} {m = m} h k = record {
    held = λ s p.
        let d = h.held s p in
        record {
          answer = d.answer;
          state = d.state;
          answered = d.answered;
          holds = OnOk-eq Q (m s) d.answer d.state d.answered (k.held s p);
        };
  }
