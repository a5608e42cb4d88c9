-- ===== src/Operators/Tests.antt =====
-- The theorem on national ids at a concrete input.
use smi_backend.Prelude.{◌≢◌, refl, [], ◌∷◌, ◌++◌, arith}
use smi_backend.Operators.Rut.{compute_check_digit}
use smi_backend.Operators.Rut.Laws.{compute_check_digit-replace}

-- 123 and 173.
compute_check_digit-replace_example :
    compute_check_digit ((49 ∷ []) ++ 50 ∷ (51 ∷ []))
    ≢ compute_check_digit ((49 ∷ []) ++ 55 ∷ (51 ∷ []))
compute_check_digit-replace_example =
    compute_check_digit-replace (49 ∷ []) (51 ∷ []) 50 55 refl refl (omega arith)
