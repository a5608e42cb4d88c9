-- ===== src/Auth/LoginGuard/Streaks.antt =====
-- The lock of an account: when five failures cause it, what never does, and what other accounts do to
-- it.
use smi_backend.Prelude.{
  ℕ, ◌+◌, ◌≤◌, ◌<◌, ◌≡◌, refl, sym, ap, subst, ◌∙◌, inl, inr, Bool, true, false, Option, none, some,
  List, [], ◌∷◌, if◌then◌else◌, arith, Bool-cases, All, ltb, ◌&&◌,
}
use smi_backend.Prelude.Result.{ok, err}
use smi_backend.Concurrency.Expected.{text_eq}
use smi_backend.Auth.LoginGuard.{
  Registro, Email, Cuentas, kept, lock_until, fallos_vigentes, remaining, Request, locked_error,
  clave, restante, before, after, after_all, bloqueo_ms, vencido,
}
use smi_backend.Auth.LoginGuard.Laws.{Verdict, fails, succeeds, silent, told, verdict, after-told}

abbrev pub fails_for : List ℕ → Verdict → Bool
fails_for a (fails k) = text_eq a k
fails_for a (succeeds k) = false
fails_for a silent = false

abbrev pub succeeds_for : List ℕ → Verdict → Bool
succeeds_for a (fails k) = false
succeeds_for a (succeeds k) = text_eq a k
succeeds_for a silent = false

-- A record that counts `n` failures, all at or after `t0`.
abbrev Counts : ℕ → ℕ → Option Registro → Type 0
Counts t0 n none = n ≡ 0
Counts t0 n (some r) =
    (1 ≤ n)
    × (r.fallos ≡ n)
    × (t0 ≤ r.ultimo_fallo)
    × (r.bloqueada_hasta ≡ lock_until n r.ultimo_fallo)

abbrev one_if : Bool → ℕ
one_if b = if b then 1 else 0

kept-Counts :
    (t0 t n : ℕ) (o : Option Registro) → t0 ≤ t → t < t0 + bloqueo_ms → Counts t0 n o → kept t o ≡ o
kept-Counts t0 t n none from to c = refl
kept-Counts t0 t n (some r) from to c =
    let (_, _, e, _) = c in let lives : vencido t r ≡ false = ground (arith, e) in rw lives refl

fallos_vigentes-Counts :
    (t0 t n : ℕ) (o : Option Registro)
    → t0 ≤ t
    → t < t0 + bloqueo_ms
    → Counts t0 n o
    → fallos_vigentes t o ≡ n
fallos_vigentes-Counts t0 t n none from to c = sym c
fallos_vigentes-Counts t0 t n (some r) from to c =
    let (_, counted, e, until) = c in ground (arith, counted, e, until)

told-Counts :
    (a : List ℕ) (v : Verdict) (t0 t n : ℕ) (o : Option Registro)
    → t0 ≤ t
    → t < t0 + bloqueo_ms
    → succeeds_for a v ≡ false
    → Counts t0 n o
    → Counts t0 (n + one_if (fails_for a v)) (told a v t o)
told-Counts a (fails k) t0 t n o from to spared c =
    let same_record = kept-Counts t0 t n o from to c in
    elim (Bool-cases (text_eq a k)) [
      | inr other ↦ rw (other, same_record) (ground (arith, c))
      | inl same ↦
          rw (same, same_record)
            (rw (fallos_vigentes-Counts t0 t n o from to c) (omega arith, refl, from, refl))
    ]
told-Counts a (succeeds k) t0 t n o from to spared c = rw spared (ground (arith, c))
told-Counts a silent t0 t n o from to spared c = ground (arith, c)

-- A later request with no success of the account, less than `BLOQUEO_MS` after `t0`.
abbrev pub IsAdverse : (List ℕ → List ℕ) → List ℕ → ℕ → Request → Type 0
IsAdverse lower_case a t0 q =
    (t0 ≤ q.at) × (q.at < t0 + bloqueo_ms) × (succeeds_for a (verdict lower_case q) ≡ false)

-- How many of the requests are failures of the account.
abbrev pub failures : (List ℕ → List ℕ) → List ℕ → List Request → ℕ
failures lower_case a [] = 0
failures lower_case a (q ∷ qs) =
    one_if (fails_for a (verdict lower_case q)) + failures lower_case a qs

module _ (lower_case : List ℕ → List ℕ) (a : List ℕ) (t0 : ℕ) where
  after_all-Counts :
      (qs : List Request) (n : ℕ) (g : Cuentas)
      → All (IsAdverse lower_case a t0) qs
      → Counts t0 n (g a)
      → Counts t0 (n + failures lower_case a qs) (after_all lower_case qs g a)
  after_all-Counts [] n g all c = subst (λ m. Counts t0 m (g a)) (omega arith) c
  after_all-Counts (q ∷ qs) n g ((from, to, spared), all) c =
      subst (λ m. Counts t0 m (after_all lower_case qs (after lower_case q g) a)) (omega arith)
        (after_all-Counts qs (n + one_if (fails_for a (verdict lower_case q)))
          (after lower_case q g) all
          (rw (after-told lower_case q g a)
            (told-Counts a (verdict lower_case q) t0 q.at n (g a) from to spared c)))

  remaining-Counts :
      (t n : ℕ) (o : Option Registro)
      → t < t0 + bloqueo_ms
      → 5 ≤ n
      → Counts t0 n o
      → 1 ≤ remaining t o
  remaining-Counts t n none to many c = ground arith
  remaining-Counts t n (some r) to many c = let (_, _, e, until) = c in ground (arith, e, until)

  -- After five failures in less than fifteen minutes, with no success between them and whatever else
  -- happens, an account that had no record is refused for the rest of those fifteen minutes, even
  -- with its right password.
  pub five_failures-before :
      (email : Email) (qs : List Request) (g : Cuentas) (t : ℕ)
      → clave lower_case email ≡ some a
      → g a ≡ none
      → All (IsAdverse lower_case a t0) qs
      → 5 ≤ failures lower_case a qs
      → t < t0 + bloqueo_ms
      → before lower_case true email t (after_all lower_case qs g)
        ≡ err (locked_error (restante lower_case email t (after_all lower_case qs g)))
  unfolding before restante
  five_failures-before email qs g t keyed fresh all many to =
      let counted = after_all-Counts qs 0 g all (subst (Counts t0 0) (sym fresh) refl) in
      let left =
        remaining-Counts t (0 + failures lower_case a qs) (after_all lower_case qs g a) to
          (omega (arith, many)) counted in
      ground (arith, left, keyed)

-- A request that is neither a failure nor a success of the account, up to a time.
abbrev pub IsOther : (List ℕ → List ℕ) → List ℕ → ℕ → Request → Type 0
IsOther lower_case a t q =
    (q.at ≤ t)
    × (fails_for a (verdict lower_case q) ≡ false)
    × (succeeds_for a (verdict lower_case q) ≡ false)

remaining-kept : (t t' : ℕ) (o : Option Registro) → t' ≤ t → remaining t (kept t' o) ≡ remaining t o
remaining-kept t t' none past = refl
remaining-kept t t' (some r) past = ground arith

remaining-told :
    (a : List ℕ) (v : Verdict) (t t' : ℕ) (o : Option Registro)
    → t' ≤ t
    → fails_for a v ≡ false
    → succeeds_for a v ≡ false
    → remaining t (told a v t' o) ≡ remaining t o
remaining-told a (fails k) t t' o past h h' = rw h (remaining-kept t t' o past)
remaining-told a (succeeds k) t t' o past h h' = rw h' refl
remaining-told a silent t t' o past h h' = refl

module _ (lower_case : List ℕ → List ℕ) (a : List ℕ) (t : ℕ) where
  after_all-remaining :
      (qs : List Request) (g : Cuentas)
      → All (IsOther lower_case a t) qs
      → remaining t (after_all lower_case qs g a) ≡ remaining t (g a)
  after_all-remaining [] g all = refl
  after_all-remaining (q ∷ qs) g ((past, h, h'), all) =
      after_all-remaining qs (after lower_case q g) all
      ∙ ap (remaining t) (after-told lower_case q g a)
      ∙ remaining-told a (verdict lower_case q) t q.at (g a) past h h'

  -- What other accounts do neither locks an account nor shortens its lock.
  pub after_all-restante :
      (email : Email) (qs : List Request) (g : Cuentas)
      → clave lower_case email ≡ some a
      → All (IsOther lower_case a t) qs
      → restante lower_case email t (after_all lower_case qs g) ≡ restante lower_case email t g
  unfolding restante
  after_all-restante email qs g keyed all = rw (keyed, restante) (after_all-remaining qs g all)

-- How many failures of the account have come in a row, with no success of it between them.
abbrev pub streak : List ℕ → Verdict → ℕ → ℕ
streak a v n = if fails_for a v then n + 1 else (if succeeds_for a v then 0 else n)

-- At no time do five failures of the account come in a row, where `n` have come before.
abbrev pub stays_below_five : (List ℕ → List ℕ) → List ℕ → ℕ → List Request → Bool
stays_below_five lower_case a n [] = true
stays_below_five lower_case a n (q ∷ qs) =
    let m = streak a (verdict lower_case q) n in ltb m 5 && stays_below_five lower_case a m qs

-- A record that counts at most `n` failures and is not locked.
abbrev IsOpen : ℕ → Option Registro → Type 0
IsOpen n none = Unit
IsOpen n (some r) = (r.fallos ≤ n) × (r.bloqueada_hasta ≡ 0)

kept-IsOpen : (t n : ℕ) (o : Option Registro) → IsOpen n o → IsOpen n (kept t o)
kept-IsOpen t n none h = tt
kept-IsOpen t n (some r) h = elim (Bool-cases (vencido t r)) [
  | inl over ↦ rw over tt
  | inr lives ↦ rw lives h
]

fallos_vigentes-IsOpen : (t n : ℕ) (o : Option Registro) → IsOpen n o → fallos_vigentes t o ≤ n
fallos_vigentes-IsOpen t n none h = omega arith
fallos_vigentes-IsOpen t n (some r) (few, free) = ground (arith, few, free)

told-IsOpen :
    (a : List ℕ) (v : Verdict) (t n : ℕ) (o : Option Registro)
    → streak a v n < 5
    → IsOpen n o
    → IsOpen (streak a v n) (told a v t o)
told-IsOpen a (fails k) t n o below h = elim (Bool-cases (text_eq a k)) [
  | inl same ↦
      let few = fallos_vigentes-IsOpen t n (kept t o) (kept-IsOpen t n o h) in
      let most : n + 1 < 5 = rw same at below in
      rw same (omega (arith, few), ground (arith, few, most))
  | inr other ↦ rw other (kept-IsOpen t n o h)
]
told-IsOpen a (succeeds k) t n o below h = elim (Bool-cases (text_eq a k)) [
  | inl same ↦ rw same tt
  | inr other ↦ rw other h
]
told-IsOpen a silent t n o below h = h

module _ (lower_case : List ℕ → List ℕ) (a : List ℕ) where
  after_all-IsOpen :
      (qs : List Request) (n : ℕ) (g : Cuentas)
      → stays_below_five lower_case a n qs ≡ true
      → IsOpen n (g a)
      → (m : ℕ) × IsOpen m (after_all lower_case qs g a)
  after_all-IsOpen [] n g h o = (n, o)
  after_all-IsOpen (q ∷ qs) n g h o =
      after_all-IsOpen qs (streak a (verdict lower_case q) n) (after lower_case q g)
        (ground (arith, h))
        (rw (after-told lower_case q g a)
          (told-IsOpen a (verdict lower_case q) q.at n (g a) (ground (arith, h)) o))

  remaining-IsOpen : (t n : ℕ) (o : Option Registro) → IsOpen n o → remaining t o ≡ 0
  remaining-IsOpen t n none h = refl
  remaining-IsOpen t n (some r) (few, free) = omega (arith, free)

  -- The lock lets the sign-ins of an account that had no record pass at all times, whatever else
  -- happens, as long as no five failures of it come in a row without a success between them.
  pub below_five-before :
      (email : Email) (qs : List Request) (g : Cuentas) (t : ℕ)
      → clave lower_case email ≡ some a
      → g a ≡ none
      → stays_below_five lower_case a 0 qs ≡ true
      → before lower_case true email t (after_all lower_case qs g) ≡ ok tt
  unfolding before restante
  below_five-before email qs g t keyed fresh below =
      let (m, o) = after_all-IsOpen qs 0 g below (subst (IsOpen 0) (sym fresh) tt) in
      ground (arith, keyed, remaining-IsOpen t m (after_all lower_case qs g a) o)
