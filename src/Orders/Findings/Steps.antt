-- ===== src/Orders/Findings/Steps.antt =====
-- Each request on orders is a step of the machine of every finding.
use smi_backend.Prelude.{
  ℕ, ◌≡◌, refl, sym, ap, subst, ◌∙◌, inl, inr, true, false, none, some, ◌==◌, ==_iff, arith,
  Bool-cases, Option-cases,
}
use smi_backend.Orders.Types.{
  pendiente, EstadoHallazgo, abierto, Orden, Hallazgo, Db, CreateOrdenDto,
}
use smi_backend.Orders.Creating.{Inserted, Claims, Created, Recorded}
use smi_backend.Orders.Findings.{
  Action, Atencion, libre, tomado, resuelto, takes, next, estado_de, holds, attends, is_separate,
  Represents,
}

-- The step of one finding.
abbrev pub Stepped : ℕ → Action → Atencion → Db → Type 0
Stepped h x a u = (b : Atencion) × (next h x a ≡ some b) × Represents u h b

of_abierto : (a : Atencion) → estado_de a ≡ abierto → a ≡ libre
of_abierto libre e = refl
of_abierto (tomado o) e = cc
of_abierto resuelto e = cc

pub attends-unlinked : (h : ℕ) (o : Orden) → o.hallazgo_id ≡ none → attends h (some o) ≡ false
attends-unlinked h o e = ground (arith, e)

-- A new row that does not attend the finding.
Inserted-orders :
    (s u : Db) (o : Orden) (h : ℕ) (a : Atencion)
    → Inserted s o u
    → attends h (some o) ≡ false
    → ((k : ℕ) → attends h (s.ordenes k) ≡ holds a k)
    → (k : ℕ) → attends h (u.ordenes k) ≡ holds a k
Inserted-orders s u o h a i e orders k = elim (Bool-cases (k == o.id)) [
  | inl here ↦
      ap (λ t. attends h (t k)) i.ordenes_are
      ∙ rw here (
          e
          ∙ ap (attends h) (sym i.new)
          ∙ ap (λ j. attends h (s.ordenes j)) (sym ((==_iff k o.id).0 here))
          ∙ orders k)
  | inr there ↦ ap (λ t. attends h (t k)) i.ordenes_are ∙ rw there (orders k)
]

Inserted-separate :
    (s u : Db) (o : Orden)
    → Inserted s o u
    → is_separate (some o) ≡ true
    → ((k : ℕ) → is_separate (s.ordenes k) ≡ true)
    → (k : ℕ) → is_separate (u.ordenes k) ≡ true
Inserted-separate s u o i e all k = elim (Bool-cases (k == o.id)) [
  | inl here ↦ ap (λ t. is_separate (t k)) i.ordenes_are ∙ rw here e
  | inr there ↦ ap (λ t. is_separate (t k)) i.ordenes_are ∙ rw there (all k)
]

separate-no_cycle : (o : Orden) → o.pauta_cycle ≡ none → is_separate (some o) ≡ true
separate-no_cycle o e = ground (arith, e)

pub Recorded-Stepped :
    (s u : Db) (o : Orden) (h : ℕ) (a : Atencion)
    → Recorded s o u
    → Represents s h a
    → Stepped h (takes o.hallazgo_id o.id) a u
Recorded-Stepped s u o h a c r = (
  a,
  ap (λ i. next h (takes i o.id) a) c.hallazgo_is,
  record {
    row = r.row;
    row_is = ap (λ t. t h) c.hallazgos_are ∙ r.row_is;
    estado_is = r.estado_is;
    orders_are =
        Inserted-orders s u o h a c.inserted (attends-unlinked h o c.hallazgo_is) r.orders_are;
    separate = Inserted-separate s u o c.inserted (separate-no_cycle o c.cycle_is) r.separate;
  },
)

-- The new order attends the finding that it takes.
Inserted-taken :
    (s u : Db) (o : Orden) (h : ℕ)
    → Inserted s o u
    → attends h (some o) ≡ true
    → ((k : ℕ) → attends h (s.ordenes k) ≡ false)
    → (k : ℕ) → attends h (u.ordenes k) ≡ (k == o.id)
Inserted-taken s u o h i e orders k = elim (Bool-cases (k == o.id)) [
  | inl here ↦ ap (λ t. attends h (t k)) i.ordenes_are ∙ rw here e
  | inr there ↦ ap (λ t. attends h (t k)) i.ordenes_are ∙ rw there (orders k)
]

attends-pendiente :
    (h id : ℕ) (o : Orden)
    → o.hallazgo_id ≡ some id
    → o.estado ≡ pendiente
    → attends h (some o) ≡ (id == h)
attends-pendiente h id o e p = ground (arith, e, p)

some-inj : {A : Type 0} (a b : A) → some a ≡ some b → a ≡ b
some-inj a b e = cc

module _ (dto : CreateOrdenDto) (s u : Db) (o : Orden) (h : ℕ) (a : Atencion)
    (c : Created dto s o u) (r : Represents s h a) where
  unlinked-Stepped : dto.hallazgo_id ≡ none → Stepped h (takes o.hallazgo_id o.id) a u
  unlinked-Stepped none_is = (
    a,
    ap (λ i. next h (takes i o.id) a) (c.hallazgo_is ∙ none_is),
    record {
      row = r.row;
      row_is = ap (λ t. t h) (subst (λ i. Claims i s u) none_is c.claims) ∙ r.row_is;
      estado_is = r.estado_is;
      orders_are =
          Inserted-orders s u o h a c.inserted (attends-unlinked h o (c.hallazgo_is ∙ none_is))
            r.orders_are;
      separate = Inserted-separate s u o c.inserted (separate-no_cycle o c.cycle_is) r.separate;
    },
  )

  linked-Stepped : (id : ℕ) → dto.hallazgo_id ≡ some id → Stepped h (takes o.hallazgo_id o.id) a u
  linked-Stepped id some_is =
      let (x, x_is, tipo, open_is, hallazgos_are) = subst (λ i. Claims i s u) some_is c.claims in
      let named = c.hallazgo_is ∙ some_is in
      elim (Bool-cases (id == h)) [
        | inl same ↦
            let id_is = (==_iff id h).0 same in
            let row_is : r.row ≡ x =
              some-inj r.row x (sym r.row_is ∙ ap s.hallazgos (sym id_is) ∙ x_is) in
            let free =
              of_abierto a (sym r.estado_is ∙ ap (λ (y : Hallazgo). y.estado) row_is ∙ open_is) in
            (
              tomado o.id,
              ap (λ i. next h (takes i o.id) a) named ∙ rw (same, free) refl,
              record {
                row = record x { estado = EstadoHallazgo.en_proceso };
                row_is = ap (λ t. t h) hallazgos_are ∙ rw (sym id_is, (==_iff id id).1 refl) refl;
                estado_is = refl;
                orders_are =
                    Inserted-taken s u o h c.inserted
                      (attends-pendiente h id o named c.estado_is ∙ same)
                      (λ k. r.orders_are k ∙ ap (λ b. holds b k) free);
                separate =
                    Inserted-separate s u o c.inserted (separate-no_cycle o c.cycle_is) r.separate;
              },
            )
        | inr differs ↦
            let other : (h == id) ≡ false = ground (arith, differs) in
            (
              a,
              ap (λ i. next h (takes i o.id) a) named ∙ rw differs refl,
              record {
                row = r.row;
                row_is = ap (λ t. t h) hallazgos_are ∙ rw other r.row_is;
                estado_is = r.estado_is;
                orders_are =
                    Inserted-orders s u o h a c.inserted
                      (attends-pendiente h id o named c.estado_is ∙ differs) r.orders_are;
                separate =
                    Inserted-separate s u o c.inserted (separate-no_cycle o c.cycle_is) r.separate;
              },
            )
      ]

  pub Created-Stepped : Stepped h (takes o.hallazgo_id o.id) a u
  Created-Stepped = elim (Option-cases dto.hallazgo_id) [
    | inl none_is ↦ unlinked-Stepped none_is
    | inr (id, some_is) ↦ linked-Stepped id some_is
  ]
