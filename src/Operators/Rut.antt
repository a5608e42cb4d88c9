-- ===== src/Operators/Rut.antt =====
-- src/operators/rut.ts: the RUT of an operator. A text is the list of its character codes. Of
-- `toUpperCase` only the letters from a to z are modelled: a text with any other lower-case letter is
-- no RUT before and after.
pub mod Laws
use smi_backend.Prelude.{
  ℕ, zero, suc, ◌+◌, ◌-◌, ◌*◌, ◌/◌, ◌%◌, Bool, true, false, not, ◌&&◌, ◌||◌, Option, none, some,
  List, [], ◌∷◌, ◌++◌, map, ◌==◌, leb, ltb, if◌then◌else◌, filter, every, length,
}
use smi_backend.Prelude.Result.{Result, ok, err}
use smi_backend.Concurrency.Expected.{is_space, text_eq}

-- `/[.\s-]/`
abbrev pub is_separator : ℕ → Bool
is_separator c = (c == 46) || ((c == 45) || is_space c)

abbrev pub upper_case : ℕ → ℕ
upper_case c = if leb 97 c && leb c 122 then c - 32 else c

-- `clean`
unfoldable pub clean : List ℕ → List ℕ
unfolding is_space
clean raw = map upper_case (filter (λ c. not (is_separator c)) raw)

abbrev pub is_digit : ℕ → Bool
is_digit c = leb 48 c && leb c 57

abbrev pub digit : ℕ → ℕ
digit c = c - 48

-- The sum of the loop, which runs from the last character, and the multiplier that comes next.
abbrev pub next_multiplier : ℕ → ℕ
next_multiplier m = if m == 7 then 2 else m + 1

unfoldable pub weigh : List ℕ → ℕ × ℕ
weigh [] = (0, 2)
weigh (c ∷ cs) = let (sum, m) = weigh cs in (sum + digit c * m, next_multiplier m)

-- `11 - (sum % 11)` as a character.
abbrev pub digit_of : ℕ → ℕ
digit_of remainder = if remainder == 11 then 48 else if remainder == 10 then 75 else remainder + 48

-- `computeCheckDigit`
unfoldable pub compute_check_digit : List ℕ → ℕ
unfolding weigh
compute_check_digit body = digit_of (11 - (weigh body).0 % 11)

-- `value.slice(0, -1)` and `value.slice(-1)` of a text that is not empty.
abbrev pub split_last : ℕ → List ℕ → List ℕ × ℕ
split_last c [] = ([], c)
split_last c (d ∷ ds) = let (body, check) = split_last d ds in (c ∷ body, check)

-- `RUT_SHAPE_REGEX` on the two parts.
abbrev pub has_shape : List ℕ × ℕ → Bool
has_shape (body, check) =
    (leb 7 (length body) && leb (length body) 8)
    && (every is_digit body && (is_digit check || (check == 75)))

-- The two parts of a text of the shape.
abbrev pub parts : List ℕ → Option (List ℕ × ℕ)
parts [] = none
parts (c ∷ cs) = if has_shape (split_last c cs) then some (split_last c cs) else none

abbrev pub is_checked : Option (List ℕ × ℕ) → Bool
is_checked none = false
is_checked (some (body, check)) = compute_check_digit body == check

-- `isValidRut`
unfoldable pub is_valid_rut : List ℕ → Bool
unfolding clean
is_valid_rut raw = is_checked (parts (clean raw))

-- `String(Number(body))` of digits: no zero stands at the left, but the last digit stays.
abbrev pub drop_zeros : ℕ → List ℕ → List ℕ
drop_zeros c [] = c ∷ []
drop_zeros c (d ∷ ds) = let rest = drop_zeros d ds in if c == 48 then rest else c ∷ d ∷ ds

abbrev pub canonical_body : List ℕ → List ℕ
canonical_body [] = 48 ∷ []
canonical_body (c ∷ cs) = drop_zeros c cs

-- `throw new Error('RUT inválido…')`
pub data RutError : Type 0 where
  invalid_rut : RutError

abbrev pub canonical : Option (List ℕ × ℕ) → Result RutError (List ℕ)
canonical none = err invalid_rut
canonical (some (body, check)) =
    if compute_check_digit body == check
    then ok (canonical_body body ++ 45 ∷ check ∷ [])
    else err invalid_rut

-- `normalizeRut`
unfoldable pub normalize_rut : List ℕ → Result RutError (List ℕ)
unfolding clean
normalize_rut raw = canonical (parts (clean raw))
