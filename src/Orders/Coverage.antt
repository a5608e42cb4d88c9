-- ===== src/Orders/Coverage.antt =====
-- The tasks of an order that are left to be done.
use smi_backend.Prelude.{
  ℕ, suc, ◌≡◌, ◌<◌, refl, ap, subst, ◌∙◌, inl, inr, Bool, true, not, Option, none, some, List, [],
  ◌∷◌, map, ◌==◌, ◌||◌, arith, find, every, includes, All, Bool-cases, length, filter,
}
use smi_backend.Orders.Types.{
  EstadoOt, completada, Tarea, MaintenancePlanItem, ToggleTareaDto, Editor,
}
use smi_backend.Orders.Queries.{Env}
use smi_backend.Orders.Tarea.{nuevo_estado, mark_row}
use smi_backend.Orders.Answering.{has_item}

-- A task of the order.
abbrev pub is_of : ℕ → Tarea → Bool
is_of orden_id t = t.orden_id == orden_id

-- A task that is done or among the ids, if it is one of the order.
abbrev pub is_covered : ℕ → List ℕ → Tarea → Bool
is_covered orden_id ids t = not (t.orden_id == orden_id) || (t.hecha || includes ids t.id)

some_of :
    (p q : Tarea → Bool) (ts : List Tarea) (t : Tarea)
    → find p ts ≡ some t
    → q t ≡ true
    → 0 < length (filter q ts)
some_of p q [] t h k = absurd (cc)
some_of p q (x ∷ xs) t h k = elim (Bool-cases (p x)) [
  | inl here ↦ let e : x ≡ t = some-inj x t (rw here at h) in rw (ap q e ∙ k) (omega arith)
  | inr there ↦
      let later = some_of p q xs t (rw there at h) k in
      elim (Bool-cases (q x)) [ inl y ↦ rw y (omega arith) | inr n ↦ rw n later ]
]
  where
    some-inj : (a b : Tarea) → some a ≡ some b → a ≡ b
    some-inj a b e = cc

all_done :
    (orden_id : ℕ) (ts : List Tarea)
    → every (is_covered orden_id []) ts ≡ true
    → length (filter (λ (t : Tarea). t.hecha) (filter (is_of orden_id) ts))
      ≡ length (filter (is_of orden_id) ts)
all_done orden_id [] h = refl
all_done orden_id (t ∷ ts) h =
    let later = all_done orden_id ts (ground (arith, h)) in
    elim (Bool-cases (is_of orden_id t)) [
      | inl y ↦ elim (Bool-cases t.hecha) [
        | inl done ↦ rw (y, done) (ap (λ n. suc n) later)
        | inr undone ↦ absurd (ground (arith, h, y, undone))
      ]
      | inr n ↦ rw n later
    ]

-- Once all tasks of an order are done, the automatic transition completes it.
pub nuevo_estado-completada :
    (orden_id id : ℕ) (ts : List Tarea) (t : Tarea) (estado : EstadoOt)
    → find (λ x. x.id == id) ts ≡ some t
    → is_of orden_id t ≡ true
    → every (is_covered orden_id []) ts ≡ true
    → nuevo_estado (filter (is_of orden_id) ts) estado ≡ some completada
unfolding nuevo_estado
nuevo_estado-completada orden_id id ts t estado found of h =
    ground (arith, all_done orden_id ts h, some_of (λ x. x.id == id) (is_of orden_id) ts t found of)

-- The task of an id is there and is one of the order.
pub record IsTask (orden_id : ℕ) (ts : List Tarea) (id : ℕ) : Type 0 where
  pub tarea : Tarea
  pub tarea_is : find (λ x. x.id == id) ts ≡ some tarea
  pub belongs : is_of orden_id tarea ≡ true

module _ (env : Env) (orden_id : ℕ) (dto : ToggleTareaDto) (editor : Editor) where
  find-mark_any :
      (marked id : ℕ) (photo : Option ℕ) (ts : List Tarea) (t : Tarea)
      → find (λ x. x.id == id) ts ≡ some t
      → find (λ x. x.id == id) (map (mark_row env orden_id marked dto editor photo) ts)
        ≡ some (mark_row env orden_id marked dto editor photo t)
  find-mark_any marked id photo [] t h = absurd (cc)
  find-mark_any marked id photo (x ∷ xs) t h =
      let same : ((mark_row env orden_id marked dto editor photo x).id == id) ≡ (x.id == id) =
        ground arith in
      elim (Bool-cases (x.id == id)) [
        | inl here ↦ rw (same, here) (ap (λ o. marked_of o) (rw here at h))
        | inr there ↦ rw (same, there) (find-mark_any marked id photo xs t (rw there at h))
      ]
    where
      marked_of : Option Tarea → Option Tarea
      marked_of none = none
      marked_of (some y) = some (mark_row env orden_id marked dto editor photo y)

  pub cover-mark_row :
      dto.hecha ≡ true
      → (id : ℕ) (ids : List ℕ) (photo : Option ℕ) (ts : List Tarea)
      → every (is_covered orden_id (id ∷ ids)) ts ≡ true
      → every (is_covered orden_id ids) (map (mark_row env orden_id id dto editor photo) ts) ≡ true
  cover-mark_row done id ids photo [] h = refl
  cover-mark_row done id ids photo (t ∷ ts) h =
      ground (arith, done, h, cover-mark_row done id ids photo ts)

  pub IsTask-mark_row :
      (marked : ℕ) (photo : Option ℕ) (ts : List Tarea) (id : ℕ)
      → IsTask orden_id ts id
      → IsTask orden_id (map (mark_row env orden_id marked dto editor photo) ts) id
  IsTask-mark_row marked photo ts id h = record {
    tarea = mark_row env orden_id marked dto editor photo h.tarea;
    tarea_is = find-mark_any marked id photo ts h.tarea h.tarea_is;
    belongs = ground (arith, h.belongs);
  }

  pub IsTask-all :
      (marked : ℕ) (photo : Option ℕ) (ts : List Tarea) (ids : List ℕ)
      → All (IsTask orden_id ts) ids
      → All (IsTask orden_id (map (mark_row env orden_id marked dto editor photo) ts)) ids
  IsTask-all marked photo ts [] h = tt
  IsTask-all marked photo ts (id ∷ ids) h =
      (IsTask-mark_row marked photo ts id h.0, IsTask-all marked photo ts ids h.1)

-- The plan items that the tasks of the order name have not been deleted.
abbrev pub is_planned : ℕ → (ℕ → Option MaintenancePlanItem) → Tarea → Bool
is_planned orden_id plan_items t = not (t.orden_id == orden_id) || has_item plan_items t

pub is_planned-has_item :
    (orden_id id : ℕ) (plan_items : ℕ → Option MaintenancePlanItem) (ts : List Tarea) (t : Tarea)
    → find (λ x. x.id == id) ts ≡ some t
    → is_of orden_id t ≡ true
    → every (is_planned orden_id plan_items) ts ≡ true
    → has_item plan_items t ≡ true
is_planned-has_item orden_id id plan_items [] t found of h = absurd (cc)
is_planned-has_item orden_id id plan_items (x ∷ xs) t found of h = elim (Bool-cases (x.id == id)) [
  | inl here ↦
      let e : x ≡ t = some-inj x t (rw here at found) in
      subst (λ y. is_of orden_id y ≡ true → has_item plan_items y ≡ true) e
        (λ k. ground (arith, k, h)) of
  | inr there ↦
      is_planned-has_item orden_id id plan_items xs t (rw there at found) of (ground (arith, h))
]
  where
    some-inj : (a b : Tarea) → some a ≡ some b → a ≡ b
    some-inj a b e = cc

pub is_planned-mark_row :
    (env : Env) (orden_id id : ℕ) (dto : ToggleTareaDto) (editor : Editor) (photo : Option ℕ)
    (plan_items : ℕ → Option MaintenancePlanItem) (ts : List Tarea)
    → every (is_planned orden_id plan_items) ts ≡ true
    → every (is_planned orden_id plan_items) (map (mark_row env orden_id id dto editor photo) ts)
      ≡ true
is_planned-mark_row env orden_id id dto editor photo plan_items [] h = refl
is_planned-mark_row env orden_id id dto editor photo plan_items (t ∷ ts) h =
    elim (Bool-cases (t.id == id)) [
      | inl here ↦
          rw here
            (ground (arith, h, is_planned-mark_row env orden_id id dto editor photo plan_items ts))
      | inr there ↦
          rw there
            (ground (arith, h, is_planned-mark_row env orden_id id dto editor photo plan_items ts))
    ]
