-- ===== src/Prelude/Lists.antt =====
-- Lists measured by native numbers, and the list methods of the source's language by recursion.
use Prim.Native.Nat.{ℕ, suc, ◌+◌}
use mathlib.Core.Path.{◌≡◌, subst}
use mathlib.Core.Logic.{inl, inr}
use mathlib.Core.Bool.{Bool, true, false, ◌&&◌, ◌||◌}
use mathlib.Core.Option.{Option, none, some}
use mathlib.Core.List.{List, [], ◌∷◌, ◌++◌}
use native.Mathlib.Omega.{arith}
use smi_backend.Prelude.Tests.{if◌then◌else◌, ◌==◌, Bool-cases}

module _ {ℓ} {A : Type ℓ} where
  abbrev pub length : List A → ℕ
  length [] = 0
  length (x ∷ xs) = suc (length xs)

  -- `Array.prototype.filter`
  abbrev pub filter : (A → Bool) → List A → List A
  filter p [] = []
  filter p (x ∷ xs) = let rest = filter p xs in if p x then x ∷ rest else rest

  -- `Array.prototype.find`
  abbrev pub find : (A → Bool) → List A → Option A
  find p [] = none
  find p (x ∷ xs) = let rest = find p xs in if p x then some x else rest

  -- `Array.prototype.every`
  abbrev pub every : (A → Bool) → List A → Bool
  every p [] = true
  every p (x ∷ xs) = p x && every p xs

  -- `Array.prototype.some`
  abbrev pub any : (A → Bool) → List A → Bool
  any p [] = false
  any p (x ∷ xs) = p x || any p xs

  pub length-append : (xs ys : List A) → length (xs ++ ys) ≡ length xs + length ys
  length-append [] ys = omega arith
  length-append (x ∷ xs) ys = omega (arith, length-append xs ys)

-- A predicate on every member.
abbrev pub All {ℓ κ} : {A : Type ℓ} → (A → Type κ) → List A → Type κ
All P [] = Unit
All P (x ∷ xs) = P x × All P xs

-- `Array.prototype.includes` on numbers
abbrev pub includes : List ℕ → ℕ → Bool
includes [] a = false
includes (x ∷ xs) a = (x == a) || includes xs a

module _ {ℓ} {A : Type ℓ} where
  -- A member that is found passes the test.
  pub find_holds : (p : A → Bool) (xs : List A) (a : A) → find p xs ≡ some a → p a ≡ true
  find_holds p [] a h = cc
  find_holds p (x ∷ xs) a h = elim (Bool-cases (p x)) [
    | inl here ↦ subst (λ y. p y ≡ true) (some-inj x a (rw here at h)) here
    | inr later ↦ find_holds p xs a (rw later at h)
  ]
    where
      some-inj : (x y : A) → some x ≡ some y → x ≡ y
      some-inj x y e = cc

  pub find-every :
      (p q : A → Bool) (xs : List A) (a : A) → find p xs ≡ some a → every q xs ≡ true → q a ≡ true
  find-every p q [] a h k = cc
  find-every p q (x ∷ xs) a h k = elim (Bool-cases (p x)) [
    | inl here ↦ subst (λ y. q y ≡ true) (some-inj x a (rw here at h)) (ground (arith, k))
    | inr later ↦ find-every p q xs a (rw later at h) (ground (arith, k))
  ]
    where
      some-inj : (x y : A) → some x ≡ some y → x ≡ y
      some-inj x y e = cc

  pub find-any : (p : A → Bool) (xs : List A) (a : A) → find p xs ≡ some a → any p xs ≡ true
  find-any p [] a h = cc
  find-any p (x ∷ xs) a h = elim (Bool-cases (p x)) [
    | inl here ↦ ground (arith, here)
    | inr later ↦ ground (arith, later, find-any p xs a (rw later at h))
  ]
