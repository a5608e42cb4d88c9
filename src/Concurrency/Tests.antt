-- ===== src/Concurrency/Tests.antt =====
-- The theorems on preconditions and retries at concrete rows and requests.
use smi_backend.Prelude.{ℕ, ◌≡◌, ◌≢◌, ◌↔◌, refl, Option, none, some, [], ◌∷◌, All, arith}
use smi_backend.Prelude.Int.{pos}
use smi_backend.Prelude.Result.{Result, ok, err}
use smi_backend.Concurrency.Expected.{Fields, num, str, null, assert_expected, write_fields}
use smi_backend.Concurrency.Expected.Laws.{Fits, assert_expected_iff, assert_expected-retry}
use smi_backend.Concurrency.CreateOrReturn.{ExistingRecord, create_or_return}
use smi_backend.Concurrency.CreateOrReturn.Laws.{
  after_race, create_or_return-own, create_or_return-foreign,
}

-- Field 1 was empty for the client and holds a blank text; field 2 was 10 and holds 12.
abbrev row : Fields
row = (1, str (32 ∷ [])) ∷ (2, num (pos 12)) ∷ []

abbrev expected : Fields
expected = (1, null) ∷ (2, num (pos 10)) ∷ (3, num (pos 1)) ∷ []

abbrev desired : Fields
desired = (2, num (pos 12)) ∷ []

assert_expected_iff_example :
    (assert_expected row (some expected) desired (λ _. none) ≡ ok tt)
    ↔ All (Fits row desired) expected
assert_expected_iff_example = assert_expected_iff row expected desired (λ _. none)

assert_expected-retry_example :
    assert_expected (write_fields desired row) (some expected) desired (λ _. none) ≡ ok tt
assert_expected-retry_example = assert_expected-retry row expected desired (λ _. none)

-- The state is the owner of the one row, if the row is there; a create that meets it fails with 9.
abbrev Owner : Type 0
Owner = Option ℕ

abbrev row_of : Owner → Option (ExistingRecord Owner ℕ ℕ)
row_of none = none
row_of (some user) = some (record { owner_id = some user; result = λ _. ok 33 })

abbrev lookup : ℕ → Owner → Result ℕ (Option (ExistingRecord Owner ℕ ℕ))
lookup id s = ok (row_of s)

abbrev insert : Owner → Result ℕ ℕ × Owner
insert none = (ok 33, some 5)
insert (some user) = (err 9, some user)

abbrev the_row : ℕ → ExistingRecord Owner ℕ ℕ
the_row user = record { owner_id = some user; result = λ _. ok 33 }

-- The other request of user 5 is committed between the lookup and the create.
create_or_return-own_example :
    create_or_return lookup insert (some 1) 5 409 (λ _. some 5) none ≡ (ok 33, some 5)
create_or_return-own_example =
    create_or_return-own lookup insert 1 (λ _. some 5) 5 409 none (some 5) (the_row 5)
      (after_race 9 refl refl refl) refl

other_owner : (the_row 6).owner_id ≢ some 5
other_owner h = ground (arith, h)

create_or_return-foreign_example :
    create_or_return lookup insert (some 1) 5 409 (λ _. some 6) none ≡ (err 409, some 6)
create_or_return-foreign_example =
    create_or_return-foreign lookup insert 1 (λ _. some 6) 5 409 none (some 6) (the_row 6)
      (after_race 9 refl refl refl) other_owner
