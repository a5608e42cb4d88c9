-- ===== src/Dates/Tests.antt =====
-- The theorems on capture times at a concrete capture.
use smi_backend.Prelude.{ℕ, Option, none, some, List, [], ◌∷◌}
use smi_backend.Prelude.Int.{ℤ, pos}
use smi_backend.Dates.CaptureTime.{Resolution, resolve_captured_at-Resolution}

-- A text of one character is the date with the number of that character, any other text is none.
abbrev parse : List ℕ → Option ℤ
parse [] = none
parse (c ∷ []) = some (pos c)
parse (c ∷ d ∷ ds) = none

-- The device's clock is in 1970 and the server's much later.
resolve_captured_at-Resolution_example : Resolution parse (some (65 ∷ [])) (pos 1700000000000)
resolve_captured_at-Resolution_example =
    resolve_captured_at-Resolution parse (pos 1700000000000) (some (65 ∷ []))
