-- ===== src/Types/Checker/KeptAccess.antt =====
-- src/type/type-checker.cc: the pointers to types, in variables and calls.
use tiger_compilor.Prelude.{
  ℕ, String, ◌≤◌, ◌<◌, ◌≡◌, Option, none, some, List, [], ◌∷◌, arith, ltb, length, Option-cases,
  inl, inr, subst, ◌>>=◌,
}
use tiger_compilor.Ast.Syntax.{Node}
use tiger_compilor.Ast.Default.{Action}
use tiger_compilor.Types.Heap.{
  TigerType, record_type, array, function, void_instance, int_instance, field_type, field_index,
}
use tiger_compilor.Types.Named.{actual}
use tiger_compilor.Types.Checker.State.{error, State, Part, following}
use tiger_compilor.Types.Checker.Access.{
  or_void, fail, actual_type, as_record, as_array, simple_var, call_args, call_of, call_exp,
  field_of, field_var, element_of, subscript_var,
}
use tiger_compilor.Types.Checker.Owned.{
  Inside, AllInside, Owned, Keeps, skip-Keeps, ⨾-Keeps, following-Keeps, if-Keeps,
}
use tiger_compilor.Types.Checker.Setting.{
  report-Keeps, type_default-Keeps, same_type_as-Keeps, builtin_default-Keeps, set_builtin-Keeps,
  InBounds,
}
use tiger_compilor.Types.Checker.Checks.{
  IsKept, reading-Keeps, get_type-Keeps, check_types-Keeps, check_type-Keeps, type_of-Keeps,
  actual-lt,
}

-- Parts that keep the pointers, one by one.
abbrev pub AllKept : List Part → Type 0
AllKept [] = Unit
AllKept (p ∷ ps) = IsKept p × AllKept ps

pub or_void-Keeps : {n : ℕ} (e : Node) → Keeps n (or_void e)
or_void-Keeps e = builtin_default-Keeps e.address void_instance (omega arith)

pub fail-Keeps : {n : ℕ} (e : Node) (message : String) → Keeps n (fail e message)
unfolding fail
fail-Keeps e message =
    ⨾-Keeps (report-Keeps (error e.location message))
      (set_builtin-Keeps e.address void_instance (omega arith))

-- a type that was found, and where
abbrev pub Found : ℕ → ℕ × TigerType → Type 0
Found n r = (r.0 < n) × Inside n r.1

actual_type-Found :
    {s : State} (a : ℕ) (r : ℕ × TigerType)
    → Owned s
    → actual_type a s ≡ some r
    → Found s.heap.size r
unfolding actual_type
actual_type-Found {s} a r o e = elim (Option-cases (s.types a)) [
  | inl p ↦ cc (rw p at e)
  | inr (t, p) ↦ elim (Option-cases (actual s.heap t)) [
    | inl q ↦ cc (rw (p, q) at e)
    | inr (c, q) ↦ elim (Option-cases (s.heap.deref c)) [
      | inl d ↦ cc (rw (p, q, d) at e)
      | inr (u, d) ↦
          let f : ◌≡◌ {A = Option (ℕ × TigerType)} (some (c, u)) (some r) = rw (p, q, d) at e in
          subst (Found s.heap.size) {x = (c, u)} {y = r} (cc) (actual-lt t c o q, o.inside c u d)
    ]
  ]
]

pub actual_type-Keeps :
    {n : ℕ} (a : ℕ) {k : ℕ × TigerType → Action State}
    → ((m : ℕ) (r : ℕ × TigerType) → n ≤ m → Found m r → Keeps m (k r))
    → Keeps n (following (actual_type a) k)
actual_type-Keeps a keeps = following-Keeps Found (λ s r o e. actual_type-Found a r o e) keeps

module _ (def : ℕ → Option ℕ) where
  pub simple_var-Keeps : {n : ℕ} (e : Node) → Keeps n (simple_var def e)
  unfolding simple_var
  simple_var-Keeps e = reading-Keeps _ λ d. same_type_as-Keeps e.address d

  call_args-Keeps :
      {n : ℕ} (e : Node) (fs : List (String × ℕ)) (args : List Part)
      → AllKept args
      → Keeps n (call_args def e fs args)
  unfolding call_args
  call_args-Keeps e [] args h = skip-Keeps
  call_args-Keeps e (f ∷ fs) [] h = reading-Keeps _ λ s. skip-Keeps
  call_args-Keeps e ((x, t) ∷ fs) (a ∷ args) h = reading-Keeps _ λ b.
      if-Keeps b
        (⨾-Keeps (type_of-Keeps h.0) (
          ⨾-Keeps (get_type-Keeps _ λ m u le lt. check_types-Keeps e "parameter" t "argument" u)
            (call_args-Keeps e fs args h.1)))
        skip-Keeps

  OptInside : ℕ → Option TigerType → Type 0
  OptInside n none = Unit
  OptInside n (some t) = Inside n t

  call_of-Keeps :
      {n : ℕ} (e : Node) (x : String) (args : List Part) (o : Option TigerType)
      → AllKept args
      → OptInside n o
      → Keeps n (call_of def e x args o)
  unfolding call_of OptInside
  call_of-Keeps e x args (some (function formals result)) h i = reading-Keeps _ λ fs.
      ⨾-Keeps (if-Keeps (ltb (length args) (length fs)) (report-Keeps _) skip-Keeps) (
        ⨾-Keeps (if-Keeps (ltb (length fs) (length args)) (report-Keeps _) skip-Keeps) (
          ⨾-Keeps (call_args-Keeps e fs args h)
            (⨾-Keeps (type_default-Keeps e.address (some result) i.1) (or_void-Keeps e))))
  call_of-Keeps e x args _ h i = fail-Keeps e _

  declared_type-Inside :
      {s : State} (o : Option ℕ) (v : Option TigerType)
      → Owned s
      → (o >>= λ d. some (s.types d >>= s.heap.deref)) ≡ some v
      → OptInside s.heap.size v
  unfolding OptInside
  declared_type-Inside none v owned r = cc
  declared_type-Inside {s} (some d) none owned r = tt
  declared_type-Inside {s} (some d) (some t) owned r = elim (Option-cases (s.types d)) [
    | inl p ↦ cc (rw p at r)
    | inr (c, p) ↦
        let q : ◌≡◌ {A = Option (Option TigerType)} (some (s.heap.deref c)) (some (some t)) =
          rw p at r in
        owned.inside c t (cc)
  ]

  pub call_exp-Keeps :
      {n : ℕ} (e : Node) (x : String) (args : List Part)
      → AllKept args
      → Keeps n (call_exp def e x args)
  unfolding call_exp OptInside
  call_exp-Keeps e x args h =
      following-Keeps OptInside (λ s v o r. declared_type-Inside (def e.address) v o r)
        λ m v le i. call_of-Keeps e x args v h i

field_type-InBounds :
    (n : ℕ) (x : String) (fs : List (String × ℕ)) → AllInside n fs → InBounds n (field_type x fs)
unfolding field_type
field_type-InBounds n x [] h = tt
field_type-InBounds n x ((y, t) ∷ fs) h = ground (arith, field_type-InBounds n x fs h.1, h.0)

OptAllInside : ℕ → Option (List (String × ℕ)) → Type 0
OptAllInside n none = Unit
OptAllInside n (some fs) = AllInside n fs

as_record-Inside : (n : ℕ) (t : TigerType) → Inside n t → OptAllInside n (as_record t)
unfolding OptAllInside
as_record-Inside n (record_type fs) h = h
as_record-Inside n _ h = tt

pub as_array-InBounds : (n : ℕ) (t : TigerType) → Inside n t → InBounds n (as_array t)
as_array-InBounds n (array t) h = h
as_array-InBounds n _ h = tt

field_of-Keeps :
    {n : ℕ} (e : Node) (x : String) (o : Option (List (String × ℕ)))
    → OptAllInside n o
    → Keeps n (field_of e x o)
unfolding field_of OptAllInside
field_of-Keeps e x none h = fail-Keeps e _
field_of-Keeps e x (some fs) h = elim (Option-cases (field_index x fs)) [
  | inl p ↦ rw (p, field_of) (fail-Keeps e _)
  | inr (i, p) ↦
      rw (p, field_of)
        (⨾-Keeps (type_default-Keeps e.address (field_type x fs) (field_type-InBounds _ x fs h))
          (or_void-Keeps e))
]

pub field_var-Keeps :
    {n : ℕ} (e : Node) {p : Part} (x : String) → IsKept p → Keeps n (field_var e p x)
unfolding field_var
field_var-Keeps e x h = ⨾-Keeps (type_of-Keeps h) (
    actual_type-Keeps _ λ m r le f. field_of-Keeps e x (as_record r.1) (as_record-Inside _ r.1 f.1))

element_of-Keeps : {n : ℕ} (e : Node) (o : Option ℕ) → InBounds n o → Keeps n (element_of e o)
unfolding element_of
element_of-Keeps e none h = fail-Keeps e _
element_of-Keeps e (some t) h = type_default-Keeps e.address (some t) h

pub subscript_var-Keeps :
    {n : ℕ} (e : Node) {p q : Part} → IsKept p → IsKept q → Keeps n (subscript_var e p q)
unfolding subscript_var
subscript_var-Keeps e {p} {q} h k = ⨾-Keeps (type_of-Keeps h) (
    ⨾-Keeps (type_of-Keeps k) (
      ⨾-Keeps (check_type-Keeps q.node _ int_instance (omega arith)) (
        ⨾-Keeps
          (actual_type-Keeps _
            λ m r le f. element_of-Keeps e (as_array r.1) (as_array-InBounds _ r.1 f.1))
          (or_void-Keeps e))))
