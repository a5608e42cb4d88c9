-- ===== src/Auth/LoginGuard.antt =====
-- src/auth/login-guard.ts: the lock of an account after failed sign-ins. A text is the list of its
-- code points and a time a number of milliseconds; `Map.get` finds a record by its key, so the map
-- is a function. `lower_case` is `String.prototype.toLowerCase`, which the source calls.
pub mod Laws
pub mod Streaks
use smi_backend.Prelude.{
  ℕ, ◌+◌, ◌-◌, ◌/◌, Bool, true, false, ◌&&◌, Option, none, some, List, [], ◌∷◌, max, ◌==◌, leb, ltb,
  if◌then◌else◌,
}
use smi_backend.Prelude.Result.{Result, ok, err}
use smi_backend.Concurrency.Expected.{trim, text_eq}

-- `MAX_FALLOS` and `BLOQUEO_MS`
abbrev pub max_fallos : ℕ
max_fallos = 5

abbrev pub bloqueo_ms : ℕ
bloqueo_ms = 900000

pub record Registro : Type 0 where
  pub fallos : ℕ
  pub bloqueada_hasta : ℕ
  pub ultimo_fallo : ℕ

-- The `email` of a request's body, of any type.
pub data Email : Type 0 where
  text : List ℕ → Email
  not_text : Email

abbrev pub Cuentas : Type 0
Cuentas = List ℕ → Option Registro

-- A text that JavaScript takes for true.
abbrev pub truthy : List ℕ → Option (List ℕ)
truthy [] = none
truthy (c ∷ cs) = some (c ∷ cs)

-- The test of `limpiarVencidos`.
abbrev pub vencido : ℕ → Registro → Bool
vencido t r = leb r.bloqueada_hasta t && ltb (r.ultimo_fallo + bloqueo_ms) t

abbrev pub kept : ℕ → Option Registro → Option Registro
kept t none = none
kept t (some r) = if vencido t r then none else some r

-- `limpiarVencidos`
abbrev pub limpiar_vencidos : ℕ → Cuentas → Cuentas
limpiar_vencidos t g k = kept t (g k)

-- `vigente?.fallos ?? 0`: a failure after a lock that is over starts anew.
abbrev pub fallos_vigentes : ℕ → Option Registro → ℕ
fallos_vigentes t none = 0
fallos_vigentes t (some r) =
    if leb r.bloqueada_hasta t && ltb 0 r.bloqueada_hasta then 0 else r.fallos

-- `fallos >= MAX_FALLOS ? t + BLOQUEO_MS : 0`
abbrev pub lock_until : ℕ → ℕ → ℕ
lock_until fallos t = if leb max_fallos fallos then t + bloqueo_ms else 0

abbrev pub failed : ℕ → Option Registro → Registro
failed t previo = record {
  fallos = fallos_vigentes t previo + 1;
  bloqueada_hasta = lock_until (fallos_vigentes t previo + 1) t;
  ultimo_fallo = t;
}

abbrev pub set_cuenta : List ℕ → Option Registro → Cuentas → Cuentas
set_cuenta k r g k' = if text_eq k' k then r else g k'

abbrev pub remaining : ℕ → Option Registro → ℕ
remaining t none = 0
remaining t (some r) = r.bloqueada_hasta - t

-- What the handler of a request returned: an `APIError` with its status, or anything else.
pub data Returned : Type 0 where
  api_error : ℕ → Returned
  answered : Returned

-- 429 `ACCOUNT_TEMPORARILY_LOCKED`: the minutes of the message, at least one and rounded up, and
-- the seconds of `Retry-After`.
pub data LockError : Type 0 where
  account_temporarily_locked : ℕ → ℕ → LockError

abbrev pub locked_error : ℕ → LockError
locked_error restante =
    account_temporarily_locked (max 1 ((restante + 59999) / 60000)) ((restante + 999) / 1000)

-- A request that has reached the hook `after`, at the time that the clock gave there.
pub record Request : Type 0 where
  pub is_sign_in : Bool
  pub email : Email
  pub returned : Returned
  pub at : ℕ

module _ (lower_case : List ℕ → List ℕ) where
  abbrev pub lowered : Option (List ℕ) → Option (List ℕ)
  lowered none = none
  lowered (some s) = truthy (lower_case s)

  -- `clave`, with the test `!clave` of its callers.
  unfoldable pub clave : Email → Option (List ℕ)
  clave not_text = none
  clave (text s) = lowered (truthy (trim s))

  -- `restante`
  unfoldable pub restante : Email → ℕ → Cuentas → ℕ
  restante email t g = elim (clave email) [ none ↦ 0 | some k ↦ remaining t (g k) ]

  abbrev pub record_failure : Option (List ℕ) → ℕ → Cuentas → Cuentas
  record_failure none t g = g
  record_failure (some k) t g = set_cuenta k (some (failed t (kept t (g k)))) (limpiar_vencidos t g)

  -- `registrarFallo`
  abbrev pub registrar_fallo : Email → ℕ → Cuentas → Cuentas
  registrar_fallo email t g = record_failure (clave email) t g

  abbrev pub record_success : Option (List ℕ) → Cuentas → Cuentas
  record_success none g = g
  record_success (some k) g = set_cuenta k none g

  -- `registrarExito`
  abbrev pub registrar_exito : Email → Cuentas → Cuentas
  registrar_exito email g = record_success (clave email) g

  -- The hook `before`: it lets the request pass or throws.
  unfoldable pub before : Bool → Email → ℕ → Cuentas → Result LockError (Unit {0})
  before false email t g = ok tt
  before true email t g =
      if ltb 0 (restante email t g) then err (locked_error (restante email t g)) else ok tt

  abbrev pub after_sign_in : Returned → Email → ℕ → Cuentas → Cuentas
  after_sign_in answered email t g = registrar_exito email g
  after_sign_in (api_error status) email t g =
      if status == 401 then registrar_fallo email t g else g

  -- The hook `after`
  unfoldable pub after : Request → Cuentas → Cuentas
  after q g = if q.is_sign_in then after_sign_in q.returned q.email q.at g else g

  -- The requests of all clients, in the order in which their `after` runs.
  abbrev pub after_all : List Request → Cuentas → Cuentas
  after_all [] g = g
  after_all (q ∷ qs) g = after_all qs (after q g)
