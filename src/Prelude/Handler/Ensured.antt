-- ===== src/Prelude/Handler/Ensured.antt =====
-- The rules on what a handler that does not throw, or any handler, leaves.
use mathlib.Core.Bool.{Bool, true, false}
use mathlib.Core.Option.{Option, none, some}
use mathlib.Core.Path.{◌≡◌, refl, subst}
use smi_backend.Prelude.Result.{Result, ok, err}
use smi_backend.Prelude.Handler.Monad.{
  continued, ◌>>=◌, pure, gets, modify, reads, throw_if, throw_where, or_throw, settled, atomic,
  caught, catch,
}
use smi_backend.Prelude.Handler.Kept.{Keeps}

-- A property of the answer and the state that an answer leaves, if there is one.
abbrev pub OnOk : {S E A : Type 0} → (A → S → Type 0) → Result E A × S → Type 0
OnOk Q (ok a, s) = Q a s
OnOk Q (err e, s) = Unit

-- From states with one property a handler answers in states with another, or throws.
pub record Ensures {S E A : Type 0} (P : S → Type 0) (Q : A → S → Type 0) (m : S → Result E A × S)
    : Type 0 where
  pub held : (s : S) → P s → OnOk Q (m s)

ensured_after :
    {S E A B : Type 0} {Q : A → S → Type 0} {R : B → S → Type 0} (f : A → S → Result E B × S)
    → ((a : A) → Ensures (Q a) R (f a))
    → (r : Result E A × S) → OnOk Q r
    → OnOk R (continued r f)
ensured_after f hf (ok a, s) q = (hf a).held s q
ensured_after f hf (err e, s) q = tt

settled_ok :
    {S E A : Type 0} (P : S → Type 0) (s : S) (r : Result E A × S)
    → P s
    → OnOk (λ _. P) r
    → P (settled s r).1
settled_ok P s (ok a, s') h q = q
settled_ok P s (err e, s') h q = h

module _ {S E : Type 0} {P : S → Type 0} where
  pub Ensures-bind :
      {A B : Type 0} {Q : A → S → Type 0} {R : B → S → Type 0} {m : S → Result E A × S}
      {f : A → S → Result E B × S}
      → Ensures P Q m
      → ((a : A) → Ensures (Q a) R (f a))
      → Ensures P R (m >>= f)
  unfolding ◌>>=◌
  Ensures-bind {m = m} {f = f} hm hf = record {
    held = λ s h. ensured_after f hf (m s) (hm.held s h);
  }

  pub Ensures-throw_where :
      (c : S → Bool) (e : E) → Ensures P (λ _ s. P s × (c s ≡ false)) (throw_where c e)
  unfolding throw_where throw_if
  Ensures-throw_where c e = record { held = λ s h. by_cases s (c s) refl h }
    where
      by_cases :
          (s : S) (b : Bool)
          → c s ≡ b
          → P s
          → OnOk {E = E} (λ _ s'. P s' × (c s' ≡ false)) (throw_if b e s)
      by_cases s true k h = tt
      by_cases s false k h = (h, k)

  pub Keeps-transaction :
      {A : Type 0} {m : S → Result E A × S} → Ensures P (λ _. P) m → Keeps P (atomic m)
  unfolding atomic
  Keeps-transaction {m = m} hm = record { held = λ s h. settled_ok P s (m s) h (hm.held s h) }

module _ {S E : Type 0} where
  ok_of : {A : Type 0} (P : S → Type 0) (r : Result E A × S) → P r.1 → OnOk (λ _. P) r
  ok_of P (ok a, s) h = h
  ok_of P (err e, s) h = tt

  pub Ensures-Keeps :
      {A : Type 0} {P : S → Type 0} {m : S → Result E A × S} → Keeps P m → Ensures P (λ _. P) m
  Ensures-Keeps {P = P} {m = m} h = record { held = λ s p. ok_of P (m s) (h.held s p) }

  pub Ensures-modify :
      {P Q : S → Type 0} {f : S → S}
      → ((s : S) → P s → Q (f s))
      → Ensures {E = E} P (λ _. Q) (modify f)
  Ensures-modify h = record { held = h }

  pub Ensures-reads :
      {A : Type 0} {P : S → Type 0} {f : S → Result E A}
      → Ensures P (λ a s. P s × (f s ≡ ok a)) (reads f)
  Ensures-reads {A = A} {P = P} {f = f} = record { held = λ s h. read s (f s) refl h }
    where
      read :
          (s : S) (r : Result E A)
          → f s ≡ r
          → P s
          → OnOk {E = E} (λ a s'. P s' × (f s' ≡ ok a)) (r, s)
      read s (ok a) e h = (h, e)
      read s (err e') e h = tt

  pub Ensures-gets :
      {A : Type 0} {P : S → Type 0} {f : S → A}
      → Ensures {E = E} P (λ a s. P s × (f s ≡ a)) (gets f)
  Ensures-gets = record { held = λ s h. (h, refl) }

  pub Ensures-or_throw :
      {A : Type 0} {P : S → Type 0} (o : Option A) (e : E)
      → Ensures P (λ a s. P s × (o ≡ some a)) (or_throw o e)
  unfolding or_throw
  Ensures-or_throw none e = record { held = λ s h. tt }
  Ensures-or_throw (some a) e = record { held = λ s h. (h, refl) }

  pub Ensures-throw_if :
      {P : S → Type 0} (b : Bool) (e : E) → Ensures P (λ _ s. P s × (b ≡ false)) (throw_if b e)
  unfolding throw_if
  Ensures-throw_if true e = record { held = λ s h. tt }
  Ensures-throw_if false e = record { held = λ s h. (h, refl) }

  pub Ensures-pure :
      {A : Type 0} {P : S → Type 0} {Q : A → S → Type 0} (a : A)
      → ((s : S) → P s → Q a s)
      → Ensures {E = E} P Q (pure a)
  Ensures-pure a h = record { held = h }

  answered_settled :
      {A : Type 0} (Q : A → S → Type 0) (s : S) (r : Result E A × S)
      → OnOk Q r
      → OnOk Q (settled s r)
  answered_settled Q s (ok a, s') q = q
  answered_settled Q s (err e, s') q = tt

  pub Ensures-atomic :
      {A : Type 0} {P : S → Type 0} {Q : A → S → Type 0} {m : S → Result E A × S}
      → Ensures P Q m
      → Ensures P Q (atomic m)
  unfolding atomic
  Ensures-atomic {Q = Q} {m = m} h = record {
    held = λ s p. answered_settled Q s (m s) (h.held s p);
  }

  answered_caught :
      {A : Type 0} (Q : A → S → Type 0) (g : E → S → Result E A × S)
      → ((e : E) → Ensures (λ _. Unit {0}) Q (g e))
      → (r : Result E A × S) → OnOk Q r
      → OnOk Q (caught r g)
  answered_caught Q g hg (ok a, s) q = q
  answered_caught Q g hg (err e, s) q = (hg e).held s tt

  pub Ensures-catch :
      {A : Type 0} {P : S → Type 0} {Q : A → S → Type 0} {m : S → Result E A × S}
      {g : E → S → Result E A × S}
      → Ensures P Q m
      → ((e : E) → Ensures (λ _. Unit {0}) Q (g e))
      → Ensures P Q (catch m g)
  unfolding catch
  Ensures-catch {Q = Q} {m = m} {g = g} h hg = record {
    held = λ s p. answered_caught Q g hg (m s) (h.held s p);
  }

  ok_with :
      {A : Type 0} (Q : A → S → Type 0) (K : Type 0) (r : Result E A × S)
      → K
      → OnOk Q r
      → OnOk (λ a s. Q a s × K) r
  ok_with Q K (ok a, s) k q = (q, k)
  ok_with Q K (err e, s) k q = tt

  -- A fact that is not about the state.
  pub Ensures-given :
      {A : Type 0} {P : S → Type 0} {Q : A → S → Type 0} {K : Type 0} {m : S → Result E A × S}
      → (K → Ensures P Q m)
      → Ensures (λ s. P s × K) (λ a s. Q a s × K) m
  Ensures-given {Q = Q} {K = K} {m = m} h = record {
    held = λ s p. ok_with Q K (m s) p.1 ((h p.1).held s p.0);
  }

  pub OnOk-eq :
      {A : Type 0} (Q : A → S → Type 0) (r : Result E A × S) (a : A) (s : S)
      → r ≡ (ok a, s)
      → OnOk Q r
      → Q a s
  OnOk-eq Q r a s e q = subst (OnOk Q) e q
