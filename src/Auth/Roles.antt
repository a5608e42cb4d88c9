-- ===== src/Auth/Roles.antt =====
-- src/auth/roles.ts: the roles, and the test whether a session has one. A text is the list of its
-- code points.
use smi_backend.Prelude.{
  ℕ, ◌≡◌, refl, ap, Bool, false, ◌||◌, List, [], ◌∷◌, ◌++◌, map, ◌==◌, if◌then◌else◌,
}
use smi_backend.Concurrency.Expected.{is_space, trim, trim_start, trim_end, text_eq}

-- `ROLES`
pub data Role : Type 0 where
  admin supervisor mantenedor secretaria prevencionista : Role

-- The text of a role.
abbrev pub role_text : Role → List ℕ
role_text admin = 65 ∷ 68 ∷ 77 ∷ 73 ∷ 78 ∷ []
role_text supervisor = 83 ∷ 85 ∷ 80 ∷ 69 ∷ 82 ∷ 86 ∷ 73 ∷ 83 ∷ 79 ∷ 82 ∷ []
role_text mantenedor = 77 ∷ 65 ∷ 78 ∷ 84 ∷ 69 ∷ 78 ∷ 69 ∷ 68 ∷ 79 ∷ 82 ∷ []
role_text secretaria = 83 ∷ 69 ∷ 67 ∷ 82 ∷ 69 ∷ 84 ∷ 65 ∷ 82 ∷ 73 ∷ 65 ∷ []
role_text prevencionista = 80 ∷ 82 ∷ 69 ∷ 86 ∷ 69 ∷ 78 ∷ 67 ∷ 73 ∷ 79 ∷ 78 ∷ 73 ∷ 83 ∷ 84 ∷ 65 ∷ []

-- `string | string[] | undefined`
pub data SessionRole : Type 0 where
  absent : SessionRole
  one : List ℕ → SessionRole
  several : List (List ℕ) → SessionRole

abbrev pub onto_first : ℕ → List (List ℕ) → List (List ℕ)
onto_first c [] = (c ∷ []) ∷ []
onto_first c (s ∷ ss) = (c ∷ s) ∷ ss

-- `split(',')`
unfoldable pub split : List ℕ → List (List ℕ)
split [] = [] ∷ []
split (c ∷ cs) = let rest = split cs in if c == 44 then [] ∷ rest else onto_first c rest

abbrev pub includes_text : List (List ℕ) → List ℕ → Bool
includes_text [] t = false
includes_text (s ∷ ss) t = text_eq s t || includes_text ss t

-- `sessionHasRole`
unfoldable pub session_has_role : SessionRole → Role → Bool
unfolding split trim
session_has_role absent target = false
session_has_role (one []) target = false
session_has_role (one (c ∷ cs)) target =
    includes_text (map trim (split (c ∷ cs))) (role_text target)
session_has_role (several roles) target = includes_text roles (role_text target)

-- A list of roles as one text, separated by commas.
abbrev pub join_roles : Role → List Role → List ℕ
join_roles r [] = role_text r
join_roles r (s ∷ rs) = role_text r ++ (44 ∷ join_roles s rs)

split-join : (r : Role) (t : List ℕ) → split (role_text r ++ (44 ∷ t)) ≡ role_text r ∷ split t
unfolding split
split-join admin t = refl
split-join supervisor t = refl
split-join mantenedor t = refl
split-join secretaria t = refl
split-join prevencionista t = refl

split-role_text : (r : Role) → split (role_text r) ≡ role_text r ∷ []
unfolding split
split-role_text admin = refl
split-role_text supervisor = refl
split-role_text mantenedor = refl
split-role_text secretaria = refl
split-role_text prevencionista = refl

trim-role_text : (r : Role) → trim (role_text r) ≡ role_text r
unfolding trim trim_start trim_end is_space
trim-role_text admin = refl
trim-role_text supervisor = refl
trim-role_text mantenedor = refl
trim-role_text secretaria = refl
trim-role_text prevencionista = refl

map-trim-split :
    (r : Role) (rs : List Role) → map trim (split (join_roles r rs)) ≡ map role_text (r ∷ rs)
map-trim-split r [] = rw (split-role_text r) (ap (λ x. x ∷ []) (trim-role_text r))
map-trim-split r (s ∷ rs) =
    rw (split-join r (join_roles s rs), trim-role_text r)
      (ap (λ x. role_text r ∷ x) (map-trim-split s rs))

has_role-one :
    (r target : Role) (rs : List Role) (t : List ℕ)
    → t ≡ join_roles r rs
    → includes_text (map trim (split t)) (role_text target)
      ≡ includes_text (map role_text (r ∷ rs)) (role_text target)
has_role-one r target rs t h =
    rw h (ap (λ x. includes_text x (role_text target)) (map-trim-split r rs))

no_empty : (r : Role) (rs : List Role) → [] ≡ join_roles r rs → ⊥
no_empty admin [] h = cc
no_empty admin (s ∷ rs) h = cc
no_empty supervisor [] h = cc
no_empty supervisor (s ∷ rs) h = cc
no_empty mantenedor [] h = cc
no_empty mantenedor (s ∷ rs) h = cc
no_empty secretaria [] h = cc
no_empty secretaria (s ∷ rs) h = cc
no_empty prevencionista [] h = cc
no_empty prevencionista (s ∷ rs) h = cc

-- A session whose roles come as one text, separated by commas, has the same roles as one whose
-- roles come as a list.
pub session_has_role-join :
    (r target : Role) (rs : List Role)
    → session_has_role (one (join_roles r rs)) target
      ≡ session_has_role (several (map role_text (r ∷ rs))) target
unfolding session_has_role
session_has_role-join r target rs = nonempty (join_roles r rs) refl
  where
    nonempty :
        (t : List ℕ)
        → t ≡ join_roles r rs
        → session_has_role (one t) target
          ≡ session_has_role (several (map role_text (r ∷ rs))) target
    nonempty [] h = absurd (no_empty r rs h)
    nonempty (c ∷ cs) h = has_role-one r target rs (c ∷ cs) h
