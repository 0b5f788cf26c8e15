-- ===== src/Types/Checker/Setting.antt =====
-- src/type/type-checker.hxx: the pointers to types, where types are set.
use tiger_compilor.Prelude.{
  ℕ, ◌+◌, ◌≤◌, ◌<◌, ◌≡◌, refl, Option, none, some, [], ◌∷◌, ◌++◌, arith, if◌then◌else◌, ◌==◌,
  Option-cases, Bool-cases, inl, inr, subst,
}
use tiger_compilor.Ast.Default.{Action}
use tiger_compilor.Types.Heap.{TigerType, allocate, assign}
use tiger_compilor.Types.Checker.State.{
  TypeError, State, report, set_type, set_type_constructor, type_default, created_type_default,
  same_type_as, allocating, assigning,
}
use tiger_compilor.Types.Checker.Owned.{
  Inside, Inside-le, Owned, Grown-refl, Keeps, update-Keeps, skip-Keeps,
}

pub report-Keeps : {n : ℕ} (e : TypeError) → Keeps n (report e)
unfolding report
report-Keeps e =
    update-Keeps (λ s. record s { errors = s.errors ++ e ∷ [] })
      λ s h o. (
        record {
          bounded = o.bounded;
          live = o.live;
          instances = o.instances;
          types = o.types;
          constructors = o.constructors;
          inside = o.inside;
        },
        record { size = omega arith; errors = (e ∷ [], refl); read_only = λ a r. r },
      )

-- A type that may be null is below `n`.
abbrev pub InBounds : ℕ → Option ℕ → Type 0
InBounds n none = Unit
InBounds n (some t) = t < n

pub InBounds-intro : (n : ℕ) (o : Option ℕ) → ((t : ℕ) → o ≡ some t → t < n) → InBounds n o
InBounds-intro n none h = tt
InBounds-intro n (some t) h = h t refl

InBounds-elim : (n : ℕ) (o : Option ℕ) (t : ℕ) → InBounds n o → o ≡ some t → t < n
InBounds-elim n none t h e = cc
InBounds-elim n (some u) t h e =
    let q : ◌≡◌ {A = Option ℕ} (some u) (some t) = e in subst (λ v. v < n) {x = u} {y = t} (cc) h

pub set_type-Keeps : {n : ℕ} (a : ℕ) (t : Option ℕ) → InBounds n t → Keeps n (set_type a t)
unfolding set_type
set_type-Keeps {n} a t i =
    update-Keeps (λ s. record s { types = λ b. if a == b then t else s.types b })
      λ s h o. (
        record {
          bounded = o.bounded;
          live = o.live;
          instances = o.instances;
          types = λ b u e. elim (Bool-cases (a == b)) [
            | inl p ↦ omega (arith, InBounds-elim n t u i (rw p at e))
            | inr p ↦ o.types b u (rw p at e)
          ];
          constructors = o.constructors;
          inside = o.inside;
        },
        record { size = omega arith; errors = (Grown-refl s).errors; read_only = λ b r. r },
      )

pub set_type_constructor-Keeps : {n : ℕ} (a t : ℕ) → t < n → Keeps n (set_type_constructor a t)
unfolding set_type_constructor
set_type_constructor-Keeps {n} a t i =
    update-Keeps (λ s. record s { constructors = λ b. if a == b then some t else s.constructors b })
      λ s h o. (
        record {
          bounded = o.bounded;
          live = o.live;
          instances = o.instances;
          types = o.types;
          constructors = λ b u e. elim (Bool-cases (a == b)) [
            | inl p ↦ omega (arith, InBounds-elim n (some t) u i (rw p at e))
            | inr p ↦ o.constructors b u (rw p at e)
          ];
          inside = o.inside;
        },
        record { size = omega arith; errors = (Grown-refl s).errors; read_only = λ b r. r },
      )

pub type_default-Keeps : {n : ℕ} (a : ℕ) (t : Option ℕ) → InBounds n t → Keeps n (type_default a t)
unfolding type_default
type_default-Keeps a t i s u h o e = elim (Option-cases (s.types a)) [
  | inl p ↦ set_type-Keeps a t i s u h o (rw (p, type_default) at e)
  | inr (v, p) ↦ skip-Keeps s u h o (rw (p, type_default) at e)
]

pub created_type_default-Keeps : {n : ℕ} (a t : ℕ) → t < n → Keeps n (created_type_default a t)
unfolding created_type_default
created_type_default-Keeps a t i s u h o e = elim (Option-cases (s.constructors a)) [
  | inl p ↦ set_type_constructor-Keeps a t i s u h o (rw (p, created_type_default) at e)
  | inr (v, p) ↦ skip-Keeps s u h o (rw (p, created_type_default) at e)
]

pub same_type_as-Keeps : {n : ℕ} (a b : ℕ) → Keeps n (same_type_as a b)
unfolding same_type_as
same_type_as-Keeps a b s u h o e =
    type_default-Keeps {n = s.heap.size} a (s.types b)
      (InBounds-intro s.heap.size (s.types b) (o.types b)) s u (omega arith) o e

allocate-Owned :
    (t : TigerType) (s : State)
    → Inside s.heap.size t
    → Owned s
    → Owned (record s { heap = (allocate t s.heap).1 })
unfolding allocate
allocate-Owned t s i o = record {
  bounded = λ a le. ground (arith, o.bounded a);
  live = λ a lt. elim (Bool-cases (s.heap.size == a)) [
    | inl p ↦ (t, rw p refl)
    | inr p ↦ rw p (o.live a (ground arith))
  ];
  instances = omega (arith, o.instances);
  types = λ a u e. omega (arith, o.types a u e);
  constructors = λ a u e. omega (arith, o.constructors a u e);
  inside = λ a u e. elim (Bool-cases (s.heap.size == a)) [
    | inl p ↦
        let q : ◌≡◌ {A = Option TigerType} (some t) (some u) = rw p at e in
        subst (Inside (s.heap.size + 1)) {x = t} {y = u} (cc) (Inside-le t (omega arith) i)
    | inr p ↦ Inside-le u (omega arith) (o.inside a u (rw p at e))
  ];
}

pub allocating-Keeps :
    {n : ℕ} (t : TigerType) {k : ℕ → Action State}
    → Inside n t
    → ((m a : ℕ) → n ≤ m → a < m → Keeps m (k a))
    → Keeps n (allocating t k)
unfolding allocating allocate
allocating-Keeps {n} t {k} i keeps s u h o e =
    let (o', g) =
      keeps (s.heap.size + 1) s.heap.size (omega arith) (omega arith)
        (record s { heap = (allocate t s.heap).1 }) u (omega arith)
        (allocate-Owned t s (Inside-le t h i) o) e in
    (o', record { size = omega (arith, g.size); errors = g.errors; read_only = g.read_only })

pub assigning-Keeps : {n : ℕ} (a : ℕ) (t : TigerType) → a < n → Inside n t → Keeps n (assigning a t)
unfolding assigning assign
assigning-Keeps {n} a t l i =
    update-Keeps (λ s. record s { heap = assign a t s.heap })
      λ s h o. (
        record {
          bounded = λ b le. ground (arith, o.bounded b);
          live = λ b lt. elim (Bool-cases (a == b)) [
            | inl p ↦ (t, rw p refl)
            | inr p ↦ rw p (o.live b lt)
          ];
          instances = o.instances;
          types = o.types;
          constructors = o.constructors;
          inside = λ b u e. elim (Bool-cases (a == b)) [
            | inl p ↦
                let q : ◌≡◌ {A = Option TigerType} (some t) (some u) = rw p at e in
                subst (Inside s.heap.size) {x = t} {y = u} (cc) (Inside-le t h i)
            | inr p ↦ o.inside b u (rw p at e)
          ];
        },
        record { size = omega arith; errors = (Grown-refl s).errors; read_only = λ b r. r },
      )

-- `Int`, `String` and `Void` are there from the start.
pub builtin_default-Keeps : {n : ℕ} (a t : ℕ) → t < 3 → Keeps n (type_default a (some t))
builtin_default-Keeps a t i s u h o e =
    type_default-Keeps {n = s.heap.size} a (some t) (omega (arith, i, o.instances)) s u
      (omega arith) o e

pub set_builtin-Keeps : {n : ℕ} (a t : ℕ) → t < 3 → Keeps n (set_type a (some t))
set_builtin-Keeps a t i s u h o e =
    set_type-Keeps {n = s.heap.size} a (some t) (omega (arith, i, o.instances)) s u (omega arith) o
      e
