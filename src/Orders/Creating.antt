-- ===== src/Orders/Creating.antt =====
-- What a new order leaves.
use smi_backend.Prelude.{
  ℕ, ◌≡◌, refl, sym, ap, subst, ◌∙◌, true, false, not, Option, none, some, List, arith, is_some,
  or_default, [],
}
use smi_backend.Prelude.Handler.{
  Keeps-gets, Keeps-throw_if, Keeps-or_throw, Ensures, Ensures-bind, Ensures-gets, Ensures-or_throw,
  Ensures-throw_if, Ensures-modify, Ensures-Keeps, Outcome-weaken, OnOk-weaken, Ensures-Settles,
  Settles, Settles-bind, Settles-Keeps, Settles-atomic, Settles-modify, Settles-pure,
}
use smi_backend.Orders.Types.{
  pendiente, TipoHallazgo, equipo, zona, EstadoHallazgo, abierto, Orden, Tarea, Hallazgo, Db,
  CreateOrdenDto, CreateMantencionHistoricaDto,
}
use smi_backend.Orders.Queries.{Env, is_abierto, set_row}
use smi_backend.Orders.Create.{
  is_zona, new_tareas, new_orden, past_orden, insert_orden, insert_new, take_hallazgo,
  create_linked, create_fresh, insert_past, create_historica,
}

-- A row of an order is new.
pub record Inserted (s : Db) (o : Orden) (u : Db) : Type 0 where
  pub new : s.ordenes o.id ≡ none
  pub ordenes_are : u.ordenes ≡ set_row o.id (some o) s.ordenes

absent : {A : Type 0} (o : Option A) → is_some o ≡ false → o ≡ none
absent none h = refl
absent (some a) h = cc

insert_orden-Inserted :
    (s : Db) (o : Orden) (ts : List Tarea)
    → Settles
        (λ u. u ≡ s)
        (λ a u. (a ≡ o) × Inserted s o u × (u.hallazgos ≡ s.hallazgos))
        (λ u. u ≡ s)
        (insert_orden o ts)
insert_orden-Inserted s o ts =
    Settles-bind (Settles-Keeps Ensures-gets Keeps-gets λ u k. k) λ taken.
      Settles-bind (Settles-Keeps (Ensures-throw_if taken _) (Keeps-throw_if _ _) λ u k. k.0) λ _.
        Settles-bind
          (Settles-modify {Q = λ u. Inserted s o u × (u.hallazgos ≡ s.hallazgos)} λ u k.
            let same = k.0.0 in
            (
              record {
                new =
                    absent (s.ordenes o.id)
                      (ap (λ (v : Db). is_some (v.ordenes o.id)) (sym same) ∙ k.0.1 ∙ k.1);
                ordenes_are = ap (λ (v : Db). set_row o.id (some o) v.ordenes) same;
              },
              ap (λ (v : Db). v.hallazgos) same,
            ))
          λ _. Settles-pure o λ u k. (refl, k.0, k.1)

-- The finding that a new order names, if it names one, was open and is taken.
abbrev pub Claims : Option ℕ → Db → Db → Type 0
Claims none s u = u.hallazgos ≡ s.hallazgos
Claims (some id) s u =
    (x : Hallazgo) × (s.hallazgos id ≡ some x)
    × (x.tipo ≡ equipo)
    × (x.estado ≡ abierto)
    × (u.hallazgos
        ≡ set_row id (some (record x { estado = EstadoHallazgo.en_proceso })) s.hallazgos)

-- What a new order that is answered has made of the tables `s`.
pub record Created (dto : CreateOrdenDto) (s : Db) (o : Orden) (u : Db) : Type 0 where
  pub inserted : Inserted s o u
  pub hallazgo_is : o.hallazgo_id ≡ dto.hallazgo_id
  pub estado_is : o.estado ≡ pendiente
  pub cycle_is : o.pauta_cycle ≡ none
  pub claims : Claims dto.hallazgo_id s u

not_zona : (t : TipoHallazgo) → is_zona t ≡ false → t ≡ equipo
not_zona zona h = cc
not_zona equipo h = refl

is_abierto-eq : (e : EstadoHallazgo) → is_abierto e ≡ true → e ≡ abierto
is_abierto-eq abierto h = refl
is_abierto-eq _ h = cc

module _ (env : Env) (dto : CreateOrdenDto) (user : ℕ) where
  insert_new-Inserted :
      (s : Db)
      → Settles
          (λ u. u ≡ s)
          (λ o u.
            Inserted s o u
            × (u.hallazgos ≡ s.hallazgos)
            × ((o.hallazgo_id ≡ dto.hallazgo_id) × (o.estado ≡ pendiente) × (o.pauta_cycle ≡ none)))
          (λ u. u ≡ s)
          (insert_new env dto user)
  insert_new-Inserted s = record {
    held = λ u k.
        let o = new_orden env dto user u in
        let ts = new_tareas env o.id 0 (or_default dto.tareas []) u.tareas in
        Outcome-weaken (λ w. w ≡ s) (insert_orden o ts u)
          (λ a v q. subst (Stored v) (sym q.0) (q.1, q.2, (refl, refl, refl)))
          ((insert_orden-Inserted s o ts).held u k);
  }
    where
      Stored : Db → Orden → Type 0
      Stored v x =
          Inserted s x v
          × (v.hallazgos ≡ s.hallazgos)
          × ((x.hallazgo_id ≡ dto.hallazgo_id) × (x.estado ≡ pendiente) × (x.pauta_cycle ≡ none))

  -- The tables once the finding is taken.
  abbrev taken : ℕ → Hallazgo → Db → Db
  taken id x s = record s {
    hallazgos = set_row id (some (record x { estado = EstadoHallazgo.en_proceso })) s.hallazgos;
  }

  take_hallazgo-Created :
      (s : Db) (id : ℕ)
      → dto.hallazgo_id ≡ some id
      → Ensures (λ u. u ≡ s) (Created dto s) (take_hallazgo env dto user id)
  take_hallazgo-Created s id named = Ensures-bind Ensures-gets λ found.
      Ensures-bind (Ensures-or_throw found _) λ x.
        Ensures-bind (Ensures-throw_if (is_zona x.tipo) _) λ _.
          Ensures-bind
            {Q = λ _ u.
              (u ≡ taken id x s)
              × (s.hallazgos id ≡ some x)
              × (x.tipo ≡ equipo)
              × (x.estado ≡ abierto)}
            (Ensures-bind (Ensures-throw_if (not (is_abierto x.estado)) _) λ _.
              Ensures-modify λ u k.
                let same = k.0.0.0.0 in
                (
                  ap (taken id x) same,
                  ap (λ (v : Db). v.hallazgos id) (sym same) ∙ k.0.0.0.1 ∙ k.0.0.1,
                  not_zona x.tipo k.0.1,
                  is_abierto-eq x.estado (ground (arith, k.1)),
                ))
            λ _. record {
              held = λ u k.
                  OnOk-weaken (insert_new env dto user u)
                    (λ o v q. record {
                      inserted = record { new = q.0.new; ordenes_are = q.0.ordenes_are };
                      hallazgo_is = q.2.0;
                      estado_is = q.2.1;
                      cycle_is = q.2.2;
                      claims = subst (λ i. Claims i s v) (sym named) (x, k.1, k.2, k.3, q.1);
                    })
                    ((Ensures-Settles (insert_new-Inserted (taken id x s))).held u k.0);
            }

  pub create_fresh-Created :
      (s : Db) → Settles (λ u. u ≡ s) (Created dto s) (λ u. u ≡ s) (create_fresh env dto user)
  unfolding create_fresh
  create_fresh-Created s = at dto.hallazgo_id refl
    where
      at :
          (id : Option ℕ)
          → dto.hallazgo_id ≡ id
          → Settles (λ u. u ≡ s) (Created dto s) (λ u. u ≡ s) (create_linked env dto user id)
      at none named = record {
        held = λ u k.
            Outcome-weaken (λ w. w ≡ s) (insert_new env dto user u)
              (λ o v q. record {
                inserted = q.0;
                hallazgo_is = q.2.0;
                estado_is = q.2.1;
                cycle_is = q.2.2;
                claims = subst (λ i. Claims i s v) (sym named) q.1;
              })
              ((insert_new-Inserted s).held u k);
      }
      at (some id) named = Settles-atomic (take_hallazgo-Created s id named) λ u k. k

-- What a past maintenance has made of the tables `s`.
pub record Recorded (s : Db) (o : Orden) (u : Db) : Type 0 where
  pub inserted : Inserted s o u
  pub hallazgo_is : o.hallazgo_id ≡ none
  pub cycle_is : o.pauta_cycle ≡ none
  pub hallazgos_are : u.hallazgos ≡ s.hallazgos

pub create_historica-Recorded :
    (env : Env) (dto : CreateMantencionHistoricaDto) (user : ℕ) (s : Db)
    → Settles (λ u. u ≡ s) (Recorded s) (λ u. u ≡ s) (create_historica env dto user)
unfolding create_historica
create_historica-Recorded env dto user s =
    Settles-bind (Settles-Keeps (Ensures-Keeps (Keeps-throw_if _ _)) (Keeps-throw_if _ _) λ u k. k)
      λ _. Settles-bind (Settles-Keeps (Ensures-Keeps Keeps-gets) Keeps-gets λ u k. k) λ found.
        Settles-bind
          (Settles-Keeps (Ensures-Keeps (Keeps-or_throw _ _)) (Keeps-or_throw _ _) λ u k. k)
          λ e. record {
            held = λ u k.
                let o = past_orden env dto user e u in
                Outcome-weaken (λ w. w ≡ s) (insert_past env dto user e u)
                  (λ a v q.
                    subst (λ x. Recorded s x v) (sym q.0)
                      (record {
                        inserted = q.1;
                        hallazgo_is = refl;
                        cycle_is = refl;
                        hallazgos_are = q.2;
                      }))
                  ((insert_orden-Inserted s o _).held u k);
          }
