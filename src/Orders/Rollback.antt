-- ===== src/Orders/Rollback.antt =====
-- What a marking of a task that throws leaves.
use smi_backend.Prelude.{
  ℕ, ◌≡◌, refl, ◌⊎◌, false, Option, none, some, List, ◌∷◌, includes, subst, ◌++◌,
}
use smi_backend.Prelude.Result.{Result, ok, err}
use smi_backend.Prelude.Handler.{
  continued, ◌>>=◌, ◌>>◌, pure, throw, modify, settled, atomic, caught, catch, Keeps, Keeps-bind,
  Keeps-gets, OnOk, Keeps-or_throw, Keeps-throw_if, Keeps-pure,
}
use smi_backend.Orders.Types.{
  Db, Tarea, Orden, ToggleTareaDto, Editor, OrdenError, photo_not_signed,
}
use smi_backend.Orders.Queries.{Env, emit_transicion_estado}
use smi_backend.Orders.Tarea.{
  Marked, claimed_photo, claim_photo, discard_photo, read_tarea, tarea_tx, sign_photo, commit_tarea,
  update_tarea,
}
use smi_backend.Orders.Effects.{Effect, commit_tarea-Effect, sign_photo-Keeps}

-- What holds of the state if the handler has thrown.
abbrev OnErr : {A : Type 0} → (Db → Type 0) → Result OrdenError A × Db → Type 0
OnErr P (ok a, s) = Unit
OnErr P (err e, s) = P s

abbrev thrown : OrdenError → Db → Result OrdenError Tarea × Db
thrown e s = (err e, s)

module _ (env : Env) (orden_id tarea_id : ℕ) (dto : ToggleTareaDto) (editor : Editor) where
  pub read_tarea-Keeps : (P : Db → Type 0) → Keeps P (read_tarea env orden_id tarea_id dto editor)
  read_tarea-Keeps P = Keeps-bind Keeps-gets λ found. Keeps-bind (Keeps-or_throw _ _) λ t.
      Keeps-bind (Keeps-throw_if _ _) λ _.
        Keeps-bind (Keeps-bind Keeps-gets λ o. Keeps-or_throw _ _)
          λ orden. Keeps-bind (Keeps-throw_if _ _) λ _. Keeps-bind Keeps-gets λ e. Keeps-pure

  -- The end of the request, once its transaction has answered.
  abbrev finish : Orden → Marked → Db → Result OrdenError Tarea × Db
  finish orden done =
      modify (λ s. record s { low_stock = s.low_stock ++ done.events })
      >> (modify (emit_transicion_estado orden.estado done.orden) >> pure done.tarea)

  abbrev on_error : Option ℕ → OrdenError → Db → Result OrdenError Marked × Db
  on_error photo e = modify (discard_photo env photo) >> throw e

  finish-OnErr :
      (P : Db → Type 0) (orden : Orden) (photo : Option ℕ) (s : Db)
      (r : Result OrdenError Marked × Db)
      → P (discard_photo env photo s)
      → OnErr P (continued (caught (settled s r) (on_error photo)) (finish orden))
  unfolding ◌>>=◌
  finish-OnErr P orden photo s (ok done, t) p = tt
  finish-OnErr P orden photo s (err e, t) p = p

  -- The request from the claim of the photo on.
  abbrev marking : Tarea → Orden → Option ℕ → Option ℕ → Db → Result OrdenError Tarea × Db
  marking tarea orden equipment_id photo =
      modify (λ s. s)
      >> (catch (atomic (tarea_tx env orden_id tarea_id dto editor orden tarea equipment_id photo))
            (on_error photo)
          >>= finish orden)

  marking-OnErr :
      (P : Db → Type 0) (tarea : Tarea) (orden : Orden) (equipment_id photo : Option ℕ) (s : Db)
      → P (discard_photo env photo s)
      → OnErr P (marking tarea orden equipment_id photo s)
  unfolding ◌>>=◌ catch atomic
  marking-OnErr P tarea orden equipment_id photo s p =
      finish-OnErr P orden photo s
        (tarea_tx env orden_id tarea_id dto editor orden tarea equipment_id photo s) p

  -- A claimed upload has a key that the storage does not have yet.
  abbrev pub HasNewKeys : Type 0
  HasNewKeys =
      (tmp user key : ℕ) (bucket : List ℕ)
      → env.claim_tmp tmp user bucket ≡ some key
      → includes bucket key ≡ false

  -- Everything is as it was, but for a claimed photo that could not be deleted again.
  abbrev pub IsRolledBack : Db → Db → Type 0
  IsRolledBack s u =
      (u ≡ s) ⊎ ((key : ℕ) × (u ≡ record s { bucket = key ∷ s.bucket }) × (env.deletes key ≡ false))

  OnErr-eq :
      (P : Db → Type 0) (r : Result OrdenError Tarea × Db) (e : OrdenError) (s : Db)
      → r ≡ (err e, s)
      → OnErr P r
      → P s
  OnErr-eq P r e s h = subst (OnErr P) h

  -- What a marking leaves that throws: the error is one of its answer, or it is rolled back.
  abbrev pub Failed : Db → OrdenError → Db → Type 0
  Failed s e u =
      IsRolledBack s u ⊎ ((e ≡ photo_not_signed) × Effect env orden_id tarea_id dto editor s u)

  module _ (P : Db → Type 0)
      (other_bucket : (u : Db) (bucket : List ℕ) → P u → P (record u { bucket = bucket })) where
    discard_photo-keeps : (photo : Option ℕ) (u : Db) → P u → P (discard_photo env photo u)
    discard_photo-keeps none u p = p
    discard_photo-keeps (some key) u p = other_bucket u _ p

    claim-keeps :
        (tarea : Tarea) (orden : Orden) (equipment_id : Option ℕ) (tmp : Option ℕ) (s : Db)
        → P s
        → OnErr P (
            continued
              (claim_photo env orden_id tarea_id dto editor tmp s)
              (marking tarea orden equipment_id))
    claim-keeps tarea orden equipment_id none s p =
        marking-OnErr P tarea orden equipment_id none s p
    claim-keeps tarea orden equipment_id (some tmp) s p = at (env.claim_tmp tmp editor.id s.bucket)
      where
        at :
            (key : Option ℕ)
            → OnErr P (continued (claimed_photo key s) (marking tarea orden equipment_id))
        at none = p
        at (some key) =
            marking-OnErr P tarea orden equipment_id (some key)
              (record s { bucket = key ∷ s.bucket })
              (discard_photo-keeps (some key) (record s { bucket = key ∷ s.bucket })
                (other_bucket s (key ∷ s.bucket) p))

    read-keeps :
        (r : Result OrdenError (Tarea × Orden × Option ℕ) × Db)
        → P r.1
        → OnErr P (
            continued r λ read.
              claim_photo env orden_id tarea_id dto editor dto.foto_key
              >>= marking read.0 read.1 read.2)
    unfolding ◌>>=◌
    read-keeps (ok (tarea, orden, e), t) p = claim-keeps tarea orden e dto.foto_key t p
    read-keeps (err e, t) p = p

    commit_tarea-keeps_error :
        (s : Db) → P s → OnErr P (commit_tarea env orden_id tarea_id dto editor (λ u. u) s)
    unfolding commit_tarea ◌>>=◌
    commit_tarea-keeps_error s p =
        read-keeps (read_tarea env orden_id tarea_id dto editor s) ((read_tarea-Keeps P).held s p)

    after_commit-keeps :
        (s : Db) (r : Result OrdenError Tarea × Db)
        → ((u : Db) → Effect env orden_id tarea_id dto editor s u → P u)
        → OnErr P r
        → OnOk (λ _. Effect env orden_id tarea_id dto editor s) r
        → P (continued r (λ t. sign_photo env t.foto_key >> pure t)).1
    unfolding ◌>>=◌
    after_commit-keeps s (ok t, u) step p k =
        (Keeps-bind (sign_photo-Keeps env orden_id tarea_id dto editor P t.foto_key)
            (λ _. Keeps-pure {a = t})).held
          u (step u k)
    after_commit-keeps s (err x, u) step p k = p

    -- What does not depend on the storage, and what the writes of a marking keep, is kept whatever the
    -- marking answers.
    pub update_tarea-keeps :
        (s : Db)
        → P s
        → ((u : Db) → Effect env orden_id tarea_id dto editor s u → P u)
        → P (update_tarea env orden_id tarea_id dto editor (λ u. u) s).1
    unfolding update_tarea ◌>>=◌
    update_tarea-keeps s p step =
        after_commit-keeps s (commit_tarea env orden_id tarea_id dto editor (λ u. u) s) step
          (commit_tarea-keeps_error s p)
          ((commit_tarea-Effect env orden_id tarea_id dto editor s).held s refl)
