-- ===== src/Types/Checker/KeptDecs.antt =====
-- src/type/type-checker.cc: the pointers to types, in declarations and types.
use tiger_compilor.Prelude.{
  ℕ, String, ◌≤◌, ◌<◌, ◌≡◌, Option, none, some, List, [], ◌∷◌, ◌++◌, arith, str_eq, Option-cases,
  inl, inr, subst,
}
use tiger_compilor.Ast.Syntax.{Node}
use tiger_compilor.Ast.Visitor.{Decl}
use tiger_compilor.Ast.Default.{Action}
use tiger_compilor.Types.Heap.{
  named, record_type, array, function, void_instance, int_instance, string_instance,
}
use tiger_compilor.Types.Checker.State.{State, Part}
use tiger_compilor.Types.Checker.Decs.{
  typed_fields, typed_result, function_header, function_body, type_header, name_of, declared_name,
  type_body, check_nil, type_named, var_dec, name_ty, contains_name, insert_name, record_fields,
  record_ty, array_ty, each_header, each_body, chunk_visit,
}
use tiger_compilor.Types.Checker.Walk.{visit_vars, visit_each}
use tiger_compilor.Types.Checker.Owned.{
  AllInside, AllInside-le, Owned, Keeps, skip-Keeps, ⨾-Keeps, following-Keeps, if-Keeps,
}
use tiger_compilor.Types.Checker.Setting.{
  report-Keeps, set_type-Keeps, set_type_constructor-Keeps, type_default-Keeps,
  created_type_default-Keeps, same_type_as-Keeps, builtin_default-Keeps, allocating-Keeps,
  assigning-Keeps,
}
use tiger_compilor.Types.Checker.Checks.{
  IsKept, reading-Keeps, get_type-Keeps, check_types-Keeps, check_types_of-Keeps, type_of-Keeps,
}
use tiger_compilor.Types.Checker.KeptAccess.{AllKept, or_void-Keeps}
use tiger_compilor.Types.Checker.KeptExps.{OptKept}

AllInside-snoc :
    (n : ℕ) (fs : List (String × ℕ)) (x : String) (t : ℕ)
    → AllInside n fs
    → t < n
    → AllInside n (fs ++ (x, t) ∷ [])
AllInside-snoc n [] x t h lt = (lt, tt)
AllInside-snoc n (f ∷ fs) x t h lt = (h.0, AllInside-snoc n fs x t h.1 lt)

-- Declarations that keep the pointers, one by one.
abbrev pub DeclsKept : List (Decl Part) → Type 0
DeclsKept [] = Unit
DeclsKept (d ∷ ds) = IsKept d.visit × DeclsKept ds

-- What goes on with fields that are inside.
abbrev KeepsFields : ℕ → (List (String × ℕ) → Action State) → Type 0
KeepsFields n k = (m : ℕ) (fs : List (String × ℕ)) → n ≤ m → AllInside m fs → Keeps m (k fs)

KeepsFields-le :
    {m n : ℕ} {k : List (String × ℕ) → Action State} → n ≤ m → KeepsFields n k → KeepsFields m k
KeepsFields-le le keeps j fs le' h = keeps j fs (omega arith) h

pub typed_fields-Keeps :
    {n : ℕ} (fs : List (String × ℕ)) (ds : List (Decl Part)) {k : List (String × ℕ) → Action State}
    → AllInside n fs
    → DeclsKept ds
    → KeepsFields n k
    → Keeps n (typed_fields fs ds k)
unfolding typed_fields
typed_fields-Keeps {n} fs [] i h keeps = keeps n fs (omega arith) i
typed_fields-Keeps fs (d ∷ ds) i h keeps = ⨾-Keeps (type_of-Keeps h.0) (
    get_type-Keeps _ λ m t le lt.
      typed_fields-Keeps (fs ++ (d.name, t) ∷ []) ds
        (AllInside-snoc m fs d.name t (AllInside-le fs le i) lt) h.1 (KeepsFields-le le keeps))

typed_result-Keeps :
    {n : ℕ} (o : Option Part) {k : ℕ → Action State}
    → OptKept o
    → ((m t : ℕ) → n ≤ m → t < m → Keeps m (k t))
    → Keeps n (typed_result o k)
unfolding typed_result
typed_result-Keeps none h keeps = λ s u le o e.
    keeps s.heap.size void_instance le (omega (arith, o.instances)) s u (omega arith) o e
typed_result-Keeps (some p) h keeps = ⨾-Keeps (type_of-Keeps h) (get_type-Keeps _ keeps)

pub function_header-Keeps :
    {n : ℕ} (e : Node) {formals : Part} (o : Option Part)
    → IsKept formals
    → OptKept o
    → Keeps n (function_header e formals o)
unfolding function_header
function_header-Keeps e o h k = h.formals λ m fs le i. typed_result-Keeps o k λ m' r le' lt.
    allocating-Keeps (record_type fs) (AllInside-le fs le' i) λ j f lej ltf.
      allocating-Keeps (function f r) (ltf, omega arith)
        λ j' t lej' ltt. type_default-Keeps e.address (some t) ltt

pub function_body-Keeps :
    {n : ℕ} (e : Node) (o : Option Part) → OptKept o → Keeps n (function_body e o)
unfolding function_body
function_body-Keeps e none h = skip-Keeps
function_body-Keeps e (some p) h =
    ⨾-Keeps (type_of-Keeps h)
      (reading-Keeps _ λ r. reading-Keeps _ λ t. check_types-Keeps e "result type" r "body type" t)

pub type_header-Keeps : {n : ℕ} (e : Node) (x : String) → Keeps n (type_header e x)
unfolding type_header
type_header-Keeps e x = allocating-Keeps (named x none) tt λ m a le lt.
    ⨾-Keeps (created_type_default-Keeps e.address a lt) (type_default-Keeps e.address (some a) lt)

declared_name-lt :
    {s : State} (a : ℕ) (d : ℕ × String) → Owned s → declared_name a s ≡ some d → d.0 < s.heap.size
unfolding declared_name
declared_name-lt {s} a d o e = elim (Option-cases (s.types a)) [
  | inl p ↦ cc (rw p at e)
  | inr (t, p) ↦ elim (Option-cases (name_of (s.heap.deref t))) [
    | inl q ↦ cc (rw (p, q) at e)
    | inr (x, q) ↦
        let f : ◌≡◌ {A = Option (ℕ × String)} (some (t, x)) (some d) = rw (p, q) at e in
        subst (λ r. r.0 < s.heap.size) {x = (t, x)} {y = d} (cc) (o.types a t p)
  ]
]

pub type_body-Keeps : {n : ℕ} (e : Node) {p : Part} → IsKept p → Keeps n (type_body e p)
unfolding type_body
type_body-Keeps e {p} h =
    following-Keeps (λ n d. d.0 < n) (λ s d o r. declared_name-lt e.address d o r)
      λ m d le lt. ⨾-Keeps (type_of-Keeps h) (
        ⨾-Keeps
          (get_type-Keeps _
            λ j t lej ltt. assigning-Keeps d.0 (named d.1 (some t)) (omega arith) ltt)
          (reading-Keeps _ λ b. if-Keeps b skip-Keeps (
            ⨾-Keeps (report-Keeps _) (λ s u leu o r.
              assigning-Keeps {n = s.heap.size} d.0 (named d.1 (some void_instance)) (omega arith)
                (omega (arith, o.instances)) s u (omega arith) o r))))

check_nil-Keeps : {n : ℕ} (e : Node) (o : Option Part) (p : Part) → Keeps n (check_nil e o p)
unfolding check_nil
check_nil-Keeps e (some q) p = skip-Keeps
check_nil-Keeps e none p =
    reading-Keeps _
      λ t. reading-Keeps _ λ b. if-Keeps b (⨾-Keeps (report-Keeps _) (or_void-Keeps e)) skip-Keeps

type_named-Keeps : {n : ℕ} (e : Node) {p : Part} → IsKept p → Keeps n (type_named e p)
unfolding type_named
type_named-Keeps e {p} h = ⨾-Keeps (type_of-Keeps h) (same_type_as-Keeps e.address p.node.address)

pub var_dec-Keeps :
    {n : ℕ} (e : Node) (o i : Option Part) → OptKept o → OptKept i → Keeps n (var_dec e o i)
unfolding var_dec
var_dec-Keeps e (some t) (some i) h k = ⨾-Keeps (type_of-Keeps k) (
    ⨾-Keeps (check_nil-Keeps e (some t) i) (
      ⨾-Keeps (type_named-Keeps e h) (
        ⨾-Keeps (check_types_of-Keeps e "type name" t.node.address "init" i.node.address)
          (or_void-Keeps e))))
var_dec-Keeps e none (some i) h k = ⨾-Keeps (type_of-Keeps k) (
    ⨾-Keeps (check_nil-Keeps e none i)
      (⨾-Keeps (same_type_as-Keeps e.address i.node.address) (or_void-Keeps e)))
var_dec-Keeps e (some t) none h k = ⨾-Keeps (type_named-Keeps e h) (or_void-Keeps e)
var_dec-Keeps e none none h k = ⨾-Keeps (or_void-Keeps e) (or_void-Keeps e)

pub name_ty-Keeps : {n : ℕ} (def : ℕ → Option ℕ) (e : Node) (x : String) → Keeps n (name_ty def e x)
unfolding name_ty
name_ty-Keeps def e x =
    if-Keeps (str_eq x "int") (builtin_default-Keeps e.address int_instance (omega arith)) (
      if-Keeps (str_eq x "string") (builtin_default-Keeps e.address string_instance (omega arith))
        (reading-Keeps _ λ d. same_type_as-Keeps e.address d))

record_fields-Keeps :
    {n : ℕ} (xs : List String) (fs : List (String × ℕ)) (ps : List Part)
    {k : List (String × ℕ) → Action State}
    → AllInside n fs
    → AllKept ps
    → KeepsFields n k
    → Keeps n (record_fields xs fs ps k)
unfolding record_fields
record_fields-Keeps {n} xs fs [] i h keeps = keeps n fs (omega arith) i
record_fields-Keeps xs fs (p ∷ ps) i h keeps =
    ⨾-Keeps (if-Keeps (contains_name xs p.name) (report-Keeps _) skip-Keeps) (
      ⨾-Keeps (h.0).visit (
        get_type-Keeps _ λ m t le lt.
          record_fields-Keeps (insert_name xs p.name) (fs ++ (p.name, t) ∷ []) ps
            (AllInside-snoc m fs p.name t (AllInside-le fs le i) lt) h.1 (KeepsFields-le le keeps)))

pub record_ty-Keeps : {n : ℕ} (e : Node) (ps : List Part) → AllKept ps → Keeps n (record_ty e ps)
unfolding record_ty
record_ty-Keeps e ps h = record_fields-Keeps [] [] ps tt h λ m fs le i.
    allocating-Keeps (record_type fs) i λ j a lej lt.
      ⨾-Keeps (set_type_constructor-Keeps e.address a lt) (set_type-Keeps e.address (some a) lt)

pub array_ty-Keeps : {n : ℕ} (e : Node) {p : Part} → IsKept p → Keeps n (array_ty e p)
unfolding array_ty
array_ty-Keeps e h = ⨾-Keeps (type_of-Keeps h) (
    get_type-Keeps _ λ m t le lt.
      allocating-Keeps (array t) lt λ j a lej lta. type_default-Keeps e.address (some a) lta)

each_header-Keeps : {n : ℕ} (ds : List (Decl Part)) → DeclsKept ds → Keeps n (each_header ds)
unfolding each_header
each_header-Keeps [] h = skip-Keeps
each_header-Keeps (d ∷ ds) h = ⨾-Keeps (h.0).header (each_header-Keeps ds h.1)

each_body-Keeps : {n : ℕ} (ds : List (Decl Part)) → DeclsKept ds → Keeps n (each_body ds)
unfolding each_body
each_body-Keeps [] h = skip-Keeps
each_body-Keeps (d ∷ ds) h = ⨾-Keeps (h.0).body (each_body-Keeps ds h.1)

pub chunk_visit-Keeps : {n : ℕ} (ds : List (Decl Part)) → DeclsKept ds → Keeps n (chunk_visit ds)
unfolding chunk_visit
chunk_visit-Keeps ds h = ⨾-Keeps (each_header-Keeps ds h) (each_body-Keeps ds h)

pub visit_vars-Keeps : {n : ℕ} (ds : List (Decl Part)) → DeclsKept ds → Keeps n (visit_vars ds)
visit_vars-Keeps [] h = skip-Keeps
visit_vars-Keeps (d ∷ ds) h = ⨾-Keeps (h.0).visit (visit_vars-Keeps ds h.1)

pub visit_each-Keeps : {n : ℕ} (ps : List Part) → AllKept ps → Keeps n (visit_each ps)
visit_each-Keeps [] h = skip-Keeps
visit_each-Keeps (p ∷ ps) h = ⨾-Keeps (h.0).visit (visit_each-Keeps ps h.1)
