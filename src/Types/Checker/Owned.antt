-- ===== src/Types/Checker/Owned.antt =====
-- src/type/type-checker.cc: the pointers to types, and what it means that a visit keeps them.
use tiger_compilor.Prelude.{
  ℕ, String, ◌≤◌, ◌<◌, ◌≡◌, Bool, true, false, Option, some, List, [], ◌∷◌, ◌++◌, arith,
  if◌then◌else◌, Option-cases, inl, inr, append_assoc, sym, ap, ◌∙◌, append-nil, subst,
}
use tiger_compilor.Ast.Default.{Action, skip, ◌⨾◌}
use tiger_compilor.Types.Heap.{TigerType, nil, named, record_type, array, function, IsBounded}
use tiger_compilor.Types.Checker.State.{TypeError, State, following}

-- Every pointer of a type is below `n`.
abbrev pub AllInside : ℕ → List (String × ℕ) → Type 0
AllInside n [] = Unit
AllInside n (f ∷ fs) = (f.1 < n) × AllInside n fs

abbrev pub Inside : ℕ → TigerType → Type 0
Inside n (nil (some r)) = r < n
Inside n (named x (some t)) = t < n
Inside n (record_type fs) = AllInside n fs
Inside n (array t) = t < n
Inside n (function f r) = (f < n) × (r < n)
Inside n _ = Unit

pub AllInside-le : {m n : ℕ} (fs : List (String × ℕ)) → m ≤ n → AllInside m fs → AllInside n fs
AllInside-le [] le h = tt
AllInside-le (f ∷ fs) le h = (omega (arith, h.0), AllInside-le fs le h.1)

pub Inside-le : {m n : ℕ} (t : TigerType) → m ≤ n → Inside m t → Inside n t
Inside-le (nil (some r)) le h = omega arith
Inside-le (named x (some t)) le h = omega arith
Inside-le (record_type fs) le h = AllInside-le fs le h
Inside-le (array t) le h = omega arith
Inside-le (function f r) le h = (omega (arith, h.0), omega (arith, h.1))
Inside-le _ le h = tt

-- Every pointer to a type is one to an object: those of the nodes, and those of the objects.
pub record Owned (s : State) : Type 0 where
  pub bounded : IsBounded s.heap
  pub live : (a : ℕ) → a < s.heap.size → (o : TigerType) × (s.heap.deref a ≡ some o)
  pub instances : 3 ≤ s.heap.size
  pub types : (a t : ℕ) → s.types a ≡ some t → t < s.heap.size
  pub constructors : (a t : ℕ) → s.constructors a ≡ some t → t < s.heap.size
  pub inside : (a : ℕ) (o : TigerType) → s.heap.deref a ≡ some o → Inside s.heap.size o

-- No type is freed, no error is dropped, and no variable is left read-only.
pub record Grown (s t : State) : Type 0 where
  pub size : s.heap.size ≤ t.heap.size
  pub errors : (es : List TypeError) × (t.errors ≡ s.errors ++ es)
  pub read_only : (a : ℕ) → t.var_read_only a ≡ true → s.var_read_only a ≡ true

-- From a heap of at least `n` objects.
abbrev pub Keeps : ℕ → Action State → Type 0
Keeps n a = (s t : State) → n ≤ s.heap.size → Owned s → a s ≡ some t → Owned t × Grown s t

pub Grown-refl : (s : State) → Grown s s
Grown-refl s = record {
  size = omega arith;
  errors = ([], sym (append-nil s.errors));
  read_only = λ a h. h;
}

pub Grown-trans : {s t u : State} → Grown s t → Grown t u → Grown s u
Grown-trans {s} {t} {u} g h =
    let (es, e) = g.errors in
    let (fs, f) = h.errors in
    record {
      size = omega (arith, g.size, h.size);
      errors = (es ++ fs, f ∙ ap (λ l. l ++ fs) e ∙ append_assoc s.errors es fs);
      read_only = λ a r. g.read_only a (h.read_only a r);
    }

pub weaken : {m n : ℕ} {a : Action State} → m ≤ n → Keeps m a → Keeps n a
weaken le k s t h = k s t (omega arith)

pub update-Keeps :
    {n : ℕ} (f : State → State)
    → ((s : State) → n ≤ s.heap.size → Owned s → Owned (f s) × Grown s (f s))
    → Keeps n (λ s. some (f s))
update-Keeps f k s t h o e =
    let q : ◌≡◌ {A = Option State} (some (f s)) (some t) = e in
    subst (λ u. Owned u × Grown s u) {x = f s} {y = t} (cc) (k s h o)

pub skip-Keeps : {n : ℕ} → Keeps n skip
skip-Keeps = update-Keeps (λ s. s) λ s h o. (o, Grown-refl s)

-- Two actions that end have a state between them.
pub between :
    (a b : Action State) (s u : State)
    → (a ⨾ b) s ≡ some u
    → (t : State) × (a s ≡ some t) × (b t ≡ some u)
between a b s u e = elim (Option-cases (a s)) [
  | inl p ↦ cc (rw p at e)
  | inr (t, p) ↦ (t, p, rw p at e)
]

pub ⨾-Keeps : {n : ℕ} {a b : Action State} → Keeps n a → Keeps n b → Keeps n (a ⨾ b)
⨾-Keeps {n} {a} {b} k l s u h o e =
    let (t, p, q) = between a b s u e in
    let (o', g) = k s t h o p in
    let (o'', g') = l t u (omega (arith, g.size)) o' q in (o'', Grown-trans g g')

-- A value `v` that is read is described by `Q`, by the size of the heap at that time.
pub following-Keeps :
    {n : ℕ} {A : Type 0} {f : State → Option A} {k : A → Action State} (Q : ℕ → A → Type 0)
    → ((s : State) (v : A) → Owned s → f s ≡ some v → Q s.heap.size v)
    → ((m : ℕ) (v : A) → n ≤ m → Q m v → Keeps m (k v))
    → Keeps n (following f k)
unfolding following
following-Keeps {n} {A} {f} {k} Q reads keeps s u h o e = elim (Option-cases (f s)) [
  | inl p ↦ cc (rw p at e)
  | inr (v, p) ↦ keeps s.heap.size v h (reads s v o p) s u (omega arith) o (rw p at e)
]

pub if-Keeps :
    {n : ℕ} {a b : Action State} (c : Bool) → Keeps n a → Keeps n b → Keeps n (if c then a else b)
if-Keeps true k l = k
if-Keeps false k l = l
