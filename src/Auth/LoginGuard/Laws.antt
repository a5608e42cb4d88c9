-- ===== src/Auth/LoginGuard/Laws.antt =====
-- What the lock of an account promises, over any requests of any clients.
use smi_backend.Prelude.{
  ℕ, ◌≡◌, refl, ap, ◌∙◌, inl, inr, true, Option, none, some, List, [], ◌∷◌, ◌==◌, if◌then◌else◌,
  arith, Bool-cases, Option-cases,
}
use smi_backend.Concurrency.Expected.{text_eq}
use smi_backend.Auth.LoginGuard.{
  Registro, Email, Cuentas, kept, failed, Request, Returned, api_error, answered, clave, after,
  set_cuenta, limpiar_vencidos, after_sign_in,
}

text_eq_refl : (k : List ℕ) → text_eq k k ≡ true
text_eq_refl [] = refl
text_eq_refl (c ∷ cs) = ground (arith, text_eq_refl cs)

text_eq→≡ : (a b : List ℕ) → text_eq a b ≡ true → a ≡ b
text_eq→≡ [] [] h = refl
text_eq→≡ [] (b ∷ bs) h = absurd (cc)
text_eq→≡ (a ∷ as') [] h = absurd (cc)
text_eq→≡ (a ∷ as') (b ∷ bs) h = ground (arith, text_eq→≡ as' bs)

-- What a request tells the guard of an account.
pub data Verdict : Type 0 where
  fails succeeds : List ℕ → Verdict
  silent : Verdict

abbrev failing : Option (List ℕ) → Verdict
failing none = silent
failing (some k) = fails k

abbrev succeeding : Option (List ℕ) → Verdict
succeeding none = silent
succeeding (some k) = succeeds k

abbrev returning : Returned → Option (List ℕ) → Verdict
returning answered k = succeeding k
returning (api_error status) k = if status == 401 then failing k else silent

abbrev tell : Verdict → ℕ → Cuentas → Cuentas
tell (fails k) t g = set_cuenta k (some (failed t (kept t (g k)))) (limpiar_vencidos t g)
tell (succeeds k) t g = set_cuenta k none g
tell silent t g = g

-- The record of one account after a request.
abbrev pub told : List ℕ → Verdict → ℕ → Option Registro → Option Registro
told a (fails k) t o = if text_eq a k then some (failed t (kept t o)) else kept t o
told a (succeeds k) t o = if text_eq a k then none else o
told a silent t o = o

tell-told : (a : List ℕ) (v : Verdict) (t : ℕ) (g : Cuentas) → tell v t g a ≡ told a v t (g a)
tell-told a (fails k) t g = elim (Bool-cases (text_eq a k)) [
  | inl same ↦ rw (same, text_eq→≡ a k same) refl
  | inr other ↦ rw other refl
]
tell-told a (succeeds k) t g = refl
tell-told a silent t g = refl

module _ (lower_case : List ℕ → List ℕ) where
  abbrev pub verdict : Request → Verdict
  verdict q = if q.is_sign_in then returning q.returned (clave lower_case q.email) else silent

  after_sign_in-tell :
      (r : Returned) (email : Email) (t : ℕ) (g : Cuentas)
      → after_sign_in lower_case r email t g ≡ tell (returning r (clave lower_case email)) t g
  after_sign_in-tell answered email t g = elim (Option-cases (clave lower_case email)) [
    | inl absent ↦ rw absent refl
    | inr (k, e) ↦ rw e refl
  ]
  after_sign_in-tell (api_error status) email t g = elim (Bool-cases (status == 401)) [
    | inr other ↦ rw other refl
    | inl unauthorized ↦ rw unauthorized (elim (Option-cases (clave lower_case email)) [
      | inl absent ↦ rw absent refl
      | inr (k, e) ↦ rw e refl
    ])
  ]

  pub after-told :
      (q : Request) (g : Cuentas) (a : List ℕ)
      → after lower_case q g a ≡ told a (verdict q) q.at (g a)
  unfolding after
  after-told q g a = elim (Bool-cases q.is_sign_in) [
    | inr other ↦ rw other refl
    | inl sign_in ↦ rw sign_in (
        ap (λ c. c a) (after_sign_in-tell q.returned q.email q.at g)
        ∙ tell-told a (returning q.returned (clave lower_case q.email)) q.at g)
  ]
