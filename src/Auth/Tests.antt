-- ===== src/Auth/Tests.antt =====
-- The theorems on the lock of an account at concrete requests.
use smi_backend.Prelude.{map, ◌+◌}
use smi_backend.Auth.Roles.{
  admin, supervisor, one, several, role_text, join_roles, session_has_role, session_has_role-join,
}
use smi_backend.Prelude.{ℕ, ◌≡◌, refl, true, none, List, [], ◌∷◌, arith}
use smi_backend.Prelude.Result.{ok, err}
use smi_backend.Concurrency.Expected.{trim, trim_start, trim_end, is_space}
use smi_backend.Auth.LoginGuard.{
  text, Cuentas, Request, api_error, answered, clave, restante, before, after_all, locked_error,
}
use smi_backend.Auth.LoginGuard.Streaks.{
  five_failures-before, after_all-restante, below_five-before,
}

-- Accounts 97 and 98 of one letter each; the case of the letters is left as it is.
abbrev same_case : List ℕ → List ℕ
same_case s = s

abbrev no_accounts : Cuentas
no_accounts _ = none

abbrev wrong : ℕ → ℕ → Request
wrong letter t = record {
  is_sign_in = true;
  email = text (letter ∷ []);
  returned = api_error 401;
  at = t;
}

abbrev attempts : List Request
attempts = wrong 97 1 ∷ wrong 97 2 ∷ wrong 98 3 ∷ wrong 97 4 ∷ wrong 97 5 ∷ wrong 97 6 ∷ []

five_failures-before_example :
    before same_case true (text (97 ∷ [])) 60000 (after_all same_case attempts no_accounts)
    ≡ err (
        locked_error
          (restante same_case (text (97 ∷ [])) 60000 (after_all same_case attempts no_accounts)))
unfolding clave trim trim_start trim_end is_space
five_failures-before_example =
    five_failures-before same_case (97 ∷ []) 1 (text (97 ∷ [])) attempts no_accounts 60000 refl refl
      (
        (omega arith, omega arith, refl),
        (
          (omega arith, omega arith, refl),
          (
            (omega arith, omega arith, refl),
            (
              (omega arith, omega arith, refl),
              ((omega arith, omega arith, refl), ((omega arith, omega arith, refl), tt)),
            ),
          ),
        ),
      )
      (omega arith) (omega arith)

-- Four failures, a success and four failures more.
abbrev right : ℕ → Request
right t = record { is_sign_in = true; email = text (97 ∷ []); returned = answered; at = t }

abbrev four_wrong : ℕ → List Request → List Request
four_wrong t rest = wrong 97 t ∷ wrong 97 (t + 1) ∷ wrong 97 (t + 2) ∷ wrong 97 (t + 3) ∷ rest

below_five-before_example :
    before same_case true
      (text (97 ∷ []))
      90
      (after_all same_case (four_wrong 1 (right 9 ∷ four_wrong 10 [])) no_accounts)
    ≡ ok tt
unfolding clave trim trim_start trim_end is_space
below_five-before_example =
    below_five-before same_case (97 ∷ []) (text (97 ∷ []))
      (four_wrong 1 (right 9 ∷ four_wrong 10 [])) no_accounts 90 refl refl refl

after_all-restante_example :
    restante same_case (text (97 ∷ [])) 60000 (after_all same_case (wrong 98 3 ∷ []) no_accounts)
    ≡ restante same_case (text (97 ∷ [])) 60000 no_accounts
unfolding clave trim trim_start trim_end is_space
after_all-restante_example =
    after_all-restante same_case (97 ∷ []) 60000 (text (97 ∷ [])) (wrong 98 3 ∷ []) no_accounts refl
      ((omega arith, refl, refl), tt)

session_has_role-join_example :
    session_has_role (one (join_roles supervisor (admin ∷ []))) admin
    ≡ session_has_role (several (map role_text (supervisor ∷ admin ∷ []))) admin
session_has_role-join_example = session_has_role-join supervisor admin (admin ∷ [])
