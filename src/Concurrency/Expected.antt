-- ===== src/Concurrency/Expected.antt =====
-- src/common/concurrency/expected-fields.ts and assert-expected-locked.ts: the optimistic
-- precondition per field. Field names and labels are only compared, so they are numbers; a text is
-- the list of its code points; a Date and an array or object are given by the text that
-- `toISOString` and `JSON.stringify` make of them.
pub mod Laws
use smi_backend.Prelude.{
  ℕ, Bool, true, false, not, ◌&&◌, ◌||◌, Option, none, some, List, [], ◌∷◌, ◌++◌, map, String, ◌==◌,
  leb, if◌then◌else◌, or_default, filter, includes,
}
use smi_backend.Prelude.Int.{ℤ, eqb_ℤ}
use smi_backend.Prelude.Result.{Result, ok, err}

pub data Value : Type 0 where
  undef null : Value
  str date json : List ℕ → Value
  num : ℤ → Value
  boolean : Bool → Value

-- What `normalizeComparable` returns: `null`, a text, a number or a Boolean.
pub data Comparable : Type 0 where
  missing : Comparable
  text : List ℕ → Comparable
  number : ℤ → Comparable
  truth : Bool → Comparable

-- The white space and line ends that `String.prototype.trim` removes.
unfoldable pub is_space : ℕ → Bool
is_space c =
    (leb 9 c && leb c 13)
    || (c == 32)
    || (c == 160)
    || (c == 0x1680)
    || (leb 0x2000 c && leb c 0x200a)
    || (c == 0x2028)
    || (c == 0x2029)
    || (c == 0x202f)
    || (c == 0x205f)
    || (c == 0x3000)
    || (c == 0xfeff)

unfoldable pub trim_start : List ℕ → List ℕ
trim_start [] = []
trim_start (c ∷ cs) = let rest = trim_start cs in if is_space c then rest else c ∷ cs

-- A character before a text whose end is trimmed.
abbrev pub keep_end : ℕ → List ℕ → List ℕ
keep_end c [] = if is_space c then [] else c ∷ []
keep_end c (d ∷ ds) = c ∷ d ∷ ds

unfoldable pub trim_end : List ℕ → List ℕ
trim_end [] = []
trim_end (c ∷ cs) = keep_end c (trim_end cs)

unfoldable pub trim : List ℕ → List ℕ
trim s = trim_end (trim_start s)

abbrev pub of_text : List ℕ → Comparable
of_text [] = missing
of_text (c ∷ cs) = text (c ∷ cs)

-- `normalizeComparable`
unfoldable pub normalize_comparable : Value → Comparable
normalize_comparable undef = missing
normalize_comparable null = missing
normalize_comparable (str s) = of_text (trim s)
normalize_comparable (date iso) = text iso
normalize_comparable (json s) = text s
normalize_comparable (num n) = number n
normalize_comparable (boolean b) = truth b

abbrev pub text_eq : List ℕ → List ℕ → Bool
text_eq [] [] = true
text_eq [] (d ∷ ds) = false
text_eq (c ∷ cs) [] = false
text_eq (c ∷ cs) (d ∷ ds) = (c == d) && text_eq cs ds

abbrev pub bool_eq : Bool → Bool → Bool
bool_eq true b = b
bool_eq false b = not b

-- `===` on what `normalizeComparable` returns.
abbrev pub comparable_eq : Comparable → Comparable → Bool
comparable_eq missing missing = true
comparable_eq (text s) (text t) = text_eq s t
comparable_eq (number a) (number b) = eqb_ℤ a b
comparable_eq (truth a) (truth b) = bool_eq a b
comparable_eq _ _ = false

-- An object: its own keys with their values.
abbrev pub Fields : Type 0
Fields = List (ℕ × Value)

-- `Object.hasOwn(o, field)` and `o[field]` in one.
abbrev pub own : ℕ → Fields → Option Value
own field [] = none
own field ((f, v) ∷ o) = let rest = own field o in if field == f then some v else rest

-- The callback of `filter` in `assertExpected`, for one key of `expected`.
unfoldable pub is_stale : Fields → Fields → ℕ × Value → Bool
is_stale current desired (field, base) = elim (own field current) [
  | none ↦ false
  | some v ↦
      not (comparable_eq (normalize_comparable v) (normalize_comparable base))
      && not (
          comparable_eq (normalize_comparable v)
            (normalize_comparable (or_default (own field desired) v)))
]

-- `[...new Set(names)]`
abbrev pub unique : List ℕ → List ℕ → List ℕ
unique seen [] = []
unique seen (n ∷ ns) = elim (includes seen n) [
  | true ↦ unique seen ns
  | false ↦ n ∷ unique (n ∷ seen) ns
]

abbrev pub label : (ℕ → Option ℕ) → ℕ × Value → ℕ
label labels (field, _) = or_default (labels field) field

-- 409 `STALE_UPDATE`, with the names that its message lists.
pub data StaleUpdate : Type 0 where
  stale_update : List ℕ → StaleUpdate

abbrev pub report_stale : (ℕ → Option ℕ) → List (ℕ × Value) → Result StaleUpdate (Unit {0})
report_stale labels [] = ok tt
report_stale labels (f ∷ fs) = err (stale_update (unique [] (map (label labels) (f ∷ fs))))

-- `assertExpected`
unfoldable pub assert_expected :
    Fields → Option Fields → Fields → (ℕ → Option ℕ) → Result StaleUpdate (Unit {0})
unfolding is_stale
assert_expected current none desired labels = ok tt
assert_expected current (some expected) desired labels =
    report_stale labels (filter (is_stale current desired) expected)

-- `definedFields`: what the client sent; `undefined` means "leave alone".
pub defined_fields : Fields → Fields
defined_fields [] = []
defined_fields ((f, undef) ∷ o) = defined_fields o
defined_fields ((f, v) ∷ o) = (f, v) ∷ defined_fields o

-- What writing `desired` makes of a row: the fields that `desired` has are replaced.
pub write_fields : Fields → Fields → Fields
write_fields desired [] = []
write_fields desired ((f, v) ∷ o) = (f, or_default (own f desired) v) ∷ write_fields desired o
