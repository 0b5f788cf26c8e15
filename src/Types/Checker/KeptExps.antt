-- ===== src/Types/Checker/KeptExps.antt =====
-- src/type/type-checker.cc: the pointers to types, in the other expressions.
use tiger_compilor.Prelude.{
  ℕ, Bool, true, false, Option, none, some, List, [], ◌∷◌, arith, ◌==◌, if◌then◌else◌, Bool-cases,
  inl, inr,
}
use tiger_compilor.Ast.Syntax.{Node, Oper}
use tiger_compilor.Ast.Default.{Action, ◌⨾◌}
use tiger_compilor.Types.Heap.{nil, void_instance, int_instance, string_instance}
use tiger_compilor.Types.Checker.State.{State, Part}
use tiger_compilor.Types.Checker.Exps.{
  nil_exp, int_exp, string_exp, is_arithmetic, op_exp, break_exp, check_clauses, nil_clause,
  type_clauses, type_if_present, if_exp, while_exp, set_read_only, for_exp, let_exp, type_each,
  back, seq_exp, check_index, assign_exp, cast_exp,
}
use tiger_compilor.Types.Checker.Owned.{
  Owned, Grown, Grown-trans, between, Keeps, skip-Keeps, ⨾-Keeps, if-Keeps,
}
use tiger_compilor.Types.Checker.Setting.{
  report-Keeps, set_type-Keeps, type_default-Keeps, created_type_default-Keeps, same_type_as-Keeps,
  builtin_default-Keeps, set_builtin-Keeps, allocating-Keeps,
}
use tiger_compilor.Types.Checker.Checks.{
  IsKept, reading-Keeps, get_type-Keeps, check_types_of-Keeps, check_type-Keeps, type_of-Keeps,
  check_typables-Keeps,
}
use tiger_compilor.Types.Checker.KeptAccess.{AllKept, or_void-Keeps}

pub nil_exp-Keeps : {n : ℕ} (e : Node) → Keeps n (nil_exp e)
unfolding nil_exp
nil_exp-Keeps e = allocating-Keeps (nil none) tt λ m a le lt.
    ⨾-Keeps (type_default-Keeps e.address (some a) lt) (created_type_default-Keeps e.address a lt)

pub int_exp-Keeps : {n : ℕ} (e : Node) → Keeps n (int_exp e)
unfolding int_exp
int_exp-Keeps e = builtin_default-Keeps e.address int_instance (omega arith)

pub string_exp-Keeps : {n : ℕ} (e : Node) → Keeps n (string_exp e)
unfolding string_exp
string_exp-Keeps e = builtin_default-Keeps e.address string_instance (omega arith)

pub op_exp-Keeps :
    {n : ℕ} (e : Node) {p q : Part} (o : Oper) → IsKept p → IsKept q → Keeps n (op_exp e p o q)
unfolding op_exp
op_exp-Keeps e {p} {q} o h k = ⨾-Keeps (type_of-Keeps h) (
    ⨾-Keeps (type_of-Keeps k) (
      ⨾-Keeps
        (if-Keeps (is_arithmetic o)
          (⨾-Keeps (check_type-Keeps p.node _ int_instance (omega arith))
            (check_type-Keeps q.node _ int_instance (omega arith)))
          (check_typables-Keeps e "left" "right" h k))
        (⨾-Keeps (builtin_default-Keeps e.address int_instance (omega arith))
          (builtin_default-Keeps e.address int_instance (omega arith)))))

pub break_exp-Keeps : {n : ℕ} (e : Node) → Keeps n (break_exp e)
unfolding break_exp
break_exp-Keeps e = builtin_default-Keeps e.address void_instance (omega arith)

-- a part that may be missing
abbrev pub OptKept : Option Part → Type 0
OptKept none = Unit
OptKept (some p) = IsKept p

check_clauses-Keeps :
    {n : ℕ} (e : Node) (p : Part) (o : Option Part)
    → IsKept p
    → OptKept o
    → Keeps n (check_clauses e p o)
unfolding check_clauses
check_clauses-Keeps e p (some q) h k = check_typables-Keeps e "then" "else" h k
check_clauses-Keeps e p none h k =
    reading-Keeps _ λ t. reading-Keeps _ λ b. if-Keeps b skip-Keeps (report-Keeps _)

nil_clause-Keeps : {n : ℕ} (e : Node) (o : Option Part) → Keeps n (nil_clause e o)
unfolding nil_clause
nil_clause-Keeps e none = set_builtin-Keeps e.address void_instance (omega arith)
nil_clause-Keeps e (some q) = get_type-Keeps _ λ m t le lt. set_type-Keeps e.address (some t) lt

type_clauses-Keeps : {n : ℕ} (e : Node) (p : Part) (o : Option Part) → Keeps n (type_clauses e p o)
unfolding type_clauses
type_clauses-Keeps e p o = get_type-Keeps _ λ m t le lt.
    reading-Keeps _ λ b. if-Keeps b (nil_clause-Keeps e o) (set_type-Keeps e.address (some t) lt)

type_if_present-Keeps : {n : ℕ} (o : Option Part) → OptKept o → Keeps n (type_if_present o)
type_if_present-Keeps none h = skip-Keeps
type_if_present-Keeps (some p) h = type_of-Keeps h

pub if_exp-Keeps :
    {n : ℕ} (e : Node) {p q : Part} (o : Option Part)
    → IsKept p
    → IsKept q
    → OptKept o
    → Keeps n (if_exp e p q o)
unfolding if_exp
if_exp-Keeps e {p} {q} o h k l = ⨾-Keeps (type_of-Keeps h) (
    ⨾-Keeps (check_type-Keeps p.node _ int_instance (omega arith)) (
      ⨾-Keeps (type_of-Keeps k) (
        ⨾-Keeps (type_if_present-Keeps o l)
          (⨾-Keeps (check_clauses-Keeps e q o k l) (type_clauses-Keeps e q o)))))

pub while_exp-Keeps :
    {n : ℕ} (e : Node) {p q : Part} → IsKept p → IsKept q → Keeps n (while_exp e p q)
unfolding while_exp
while_exp-Keeps e {p} {q} h k = ⨾-Keeps (type_of-Keeps h) (
    ⨾-Keeps (type_of-Keeps k) (
      ⨾-Keeps (check_type-Keeps p.node _ int_instance (omega arith)) (
        ⨾-Keeps (check_type-Keeps q.node _ void_instance (omega arith))
          (⨾-Keeps (or_void-Keeps e) (or_void-Keeps e)))))

set_index : ℕ → Bool → State → State
set_index i b s = record s { var_read_only = λ c. if i == c then b else s.var_read_only c }

set_index-Owned : (i : ℕ) (b : Bool) (s : State) → Owned s → Owned (set_index i b s)
unfolding set_index
set_index-Owned i b s o = record {
  bounded = o.bounded;
  live = o.live;
  instances = o.instances;
  types = o.types;
  constructors = o.constructors;
  inside = o.inside;
}

-- An index that is made read-only is not left so.
set_index-Grown :
    (i : ℕ) (s t : State) → Grown (set_index i true s) t → Grown s (set_index i false t)
unfolding set_index
set_index-Grown i s t g = record {
  size = g.size;
  errors = g.errors;
  read_only = λ a r. elim (Bool-cases (i == a)) [
    | inl p ↦ cc (rw p at r)
    | inr p ↦ rw p at (g.read_only a (rw p at r))
  ];
}

set_read_only-Keeps :
    {n : ℕ} {a b c : Action State} (i : ℕ)
    → Keeps n a
    → Keeps n b
    → Keeps n c
    → Keeps n (set_read_only i true ⨾ a ⨾ b ⨾ set_read_only i false ⨾ c)
unfolding set_read_only set_index
set_read_only-Keeps {n} {a} {b} {c} i h k l s v le o e =
    let (r, p, e') = between a (b ⨾ set_read_only i false ⨾ c) (set_index i true s) v e in
    let (t, q, e'') = between b (set_read_only i false ⨾ c) r v e' in
    let (o', g) = ⨾-Keeps h k (set_index i true s) t le (set_index-Owned i true s o) (rw p q) in
    let g' = set_index-Grown i s t g in
    let (o'', g'') =
      l (set_index i false t) v (omega (arith, g'.size)) (set_index-Owned i false t o') e'' in
    (o'', Grown-trans g' g'')

pub for_exp-Keeps :
    {n : ℕ} (e : Node) {p q r : Part} → IsKept p → IsKept q → IsKept r → Keeps n (for_exp e p q r)
unfolding for_exp
for_exp-Keeps e {p} {q} {r} h k l = ⨾-Keeps (type_of-Keeps h) (
    ⨾-Keeps (check_type-Keeps p.node _ int_instance (omega arith)) (
      ⨾-Keeps (type_of-Keeps k) (
        ⨾-Keeps (check_type-Keeps q.node _ int_instance (omega arith)) (
          set_read_only-Keeps p.node.address (type_of-Keeps l)
            (check_type-Keeps r.node _ void_instance (omega arith))
            (⨾-Keeps (or_void-Keeps e) (or_void-Keeps e))))))

pub let_exp-Keeps : {n : ℕ} (e : Node) {p q : Part} → IsKept p → IsKept q → Keeps n (let_exp e p q)
unfolding let_exp
let_exp-Keeps e {p} {q} h k = ⨾-Keeps h.visit (
    ⨾-Keeps (type_of-Keeps k)
      (⨾-Keeps (same_type_as-Keeps e.address q.node.address) (or_void-Keeps e)))

type_each-Keeps : {n : ℕ} (ps : List Part) → AllKept ps → Keeps n (type_each ps)
type_each-Keeps [] h = skip-Keeps
type_each-Keeps (p ∷ ps) h = ⨾-Keeps (type_of-Keeps h.0) (type_each-Keeps ps h.1)

pub seq_exp-Keeps : {n : ℕ} (e : Node) (ps : List Part) → AllKept ps → Keeps n (seq_exp e ps)
unfolding seq_exp
seq_exp-Keeps e [] h = or_void-Keeps e
seq_exp-Keeps e (p ∷ ps) h =
    ⨾-Keeps (type_each-Keeps (p ∷ ps) h)
      (⨾-Keeps (same_type_as-Keeps e.address (back p ps).node.address) (or_void-Keeps e))

check_index-Keeps :
    {n : ℕ} (def : ℕ → Option ℕ) (e : Node) (p : Part) → Keeps n (check_index def e p)
unfolding check_index
check_index-Keeps def e p = reading-Keeps _ λ b. if-Keeps b (report-Keeps _) skip-Keeps

pub assign_exp-Keeps :
    {n : ℕ} (def : ℕ → Option ℕ) (e : Node) {p q : Part}
    → IsKept p
    → IsKept q
    → Keeps n (assign_exp def e p q)
unfolding assign_exp
assign_exp-Keeps def e {p} {q} h k = ⨾-Keeps (type_of-Keeps h) (
    ⨾-Keeps (type_of-Keeps k) (
      ⨾-Keeps (check_types_of-Keeps e "variable" p.node.address "expression" q.node.address)
        (⨾-Keeps (check_index-Keeps def e p) (⨾-Keeps (or_void-Keeps e) (or_void-Keeps e)))))

pub cast_exp-Keeps : {n : ℕ} (e : Node) → Keeps n (cast_exp e)
unfolding cast_exp
cast_exp-Keeps e = set_builtin-Keeps e.address void_instance (omega arith)
