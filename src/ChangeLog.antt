-- ===== src/ChangeLog.antt =====
-- src/change-log/change-log.service.ts: what an edit has changed. Fields are numbers, and the values
-- of a change are kept as they are, not as the texts that a person reads.
use smi_backend.Prelude.{ℕ, Bool, List, [], ◌∷◌, ◌++◌, or_default, if◌then◌else◌}
use smi_backend.Concurrency.Expected.{
  Value, undef, Fields, own, normalize_comparable, comparable_eq,
}

-- `FieldChange`
pub record FieldChange : Type 0 where
  pub field : ℕ
  pub before : Value
  pub after : Value

-- A row of the change log.
pub record ChangeEntry : Type 0 where
  pub entity_id : ℕ
  pub user_id : ℕ
  pub changes : List FieldChange

abbrev pub value_at : ℕ → Fields → Value
value_at f o = or_default (own f o) undef

abbrev pub means_same : Fields → Fields → ℕ → Bool
means_same before after f =
    comparable_eq (normalize_comparable (value_at f before))
      (normalize_comparable (value_at f after))

-- The callback of `flatMap` in `diffFields`.
abbrev pub field_change : Fields → Fields → ℕ → List FieldChange
field_change before after f =
    if means_same before after f
    then []
    else record { field = f; before = value_at f before; after = value_at f after } ∷ []

-- `diffFields`
unfoldable pub diff_fields : Fields → Fields → List ℕ → List FieldChange
diff_fields before after [] = []
diff_fields before after (f ∷ fs) = field_change before after f ++ diff_fields before after fs
