-- ===== src/Prelude/Result.antt =====
-- Outcomes of code that may throw: a value or an error.
use mathlib.Core.Path.{◌≡◌, refl}
use mathlib.Core.Bool.{Bool, true, false}
use mathlib.Core.Option.{Option, none, some}

pub data Result (E A : Type 0) : Type 0 where
  ok : A → Result E A
  err : E → Result E A

abbrev pub Succeeds : {E A : Type 0} → Result E A → Type 0
Succeeds {E} {A} r = (a : A) × (r ≡ ok a)

module _ {E A B : Type 0} where
  infixl 5 ◌>>=◌
  abbrev pub ◌>>=◌ : Result E A → (A → Result E B) → Result E B
  ok a >>= f = f a
  err e >>= f = err e

  infixl 5 ◌>>◌
  abbrev pub ◌>>◌ : Result E A → Result E B → Result E B
  r >> k = r >>= λ _. k

module _ {E : Type 0} where
  abbrev pub throw_if : Bool → E → Result E (Unit {0})
  throw_if true e = err e
  throw_if false e = ok tt

  abbrev pub or_throw : {A : Type 0} → Option A → E → Result E A
  or_throw none e = err e
  or_throw (some a) e = ok a

-- What a chain that succeeds has gone through.
pub >>=-eq-ok :
    {E A B : Type 0} (r : Result E A) (f : A → Result E B) (b : B)
    → (r >>= f) ≡ ok b
    → (a : A) × (r ≡ ok a) × (f a ≡ ok b)
>>=-eq-ok (ok a) f b h = (a, refl, h)
>>=-eq-ok (err e) f b h = cc

pub throw_if-eq-ok :
    {E : Type 0} (c : Bool) (e : E) (u : Unit {0}) → throw_if c e ≡ ok u → c ≡ false
throw_if-eq-ok true e u h = cc
throw_if-eq-ok false e u h = refl

pub or_throw-eq-ok :
    {E A : Type 0} (o : Option A) (e : E) (a : A) → or_throw o e ≡ ok a → o ≡ some a
or_throw-eq-ok none e a h = cc
or_throw-eq-ok (some b) e a h = cc

pub ok-inj : {E A : Type 0} (a b : A) (r : Result E A) → r ≡ ok a → r ≡ ok b → a ≡ b
ok-inj a b r h k = cc
