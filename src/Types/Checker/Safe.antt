-- ===== src/Types/Checker/Safe.antt =====
-- src/type/type-checker.cc: the pointers to types, in the type checker as a whole.
use tiger_compilor.Prelude.{
  ℕ, String, ◌<◌, ◌≡◌, refl, Bool, false, Option, none, some, List, [], ◌∷◌, arith, All₂, Both,
  ◌==◌, Bool-cases, inl, inr,
}
use tiger_compilor.Ast.Syntax.{Node, Exp, Chunks}
use tiger_compilor.Ast.Visitor.{Decl, accept_exp}
use tiger_compilor.Ast.Default.{Action, skip}
use tiger_compilor.Ast.Laws.{Laws, SameDecl}
use tiger_compilor.Ast.Related.{accept-Related, accept_exp-Related}
use tiger_compilor.Types.Heap.{TigerType, int, string, void, builtins}
use tiger_compilor.Types.Checker.State.{State, Part, type_of}
use tiger_compilor.Types.Checker.Walk.{type_checker, init, types_check}
use tiger_compilor.Types.Checker.Owned.{Inside, Owned, Grown, Keeps, skip-Keeps, weaken}
use tiger_compilor.Types.Checker.Checks.{IsKept, type_of-Keeps}
use tiger_compilor.Types.Checker.KeptAccess.{
  AllKept, simple_var-Keeps, call_exp-Keeps, field_var-Keeps, subscript_var-Keeps,
}
use tiger_compilor.Types.Checker.KeptRecords.{record_exp-Keeps, array_exp-Keeps}
use tiger_compilor.Types.Checker.KeptExps.{
  OptKept, nil_exp-Keeps, int_exp-Keeps, string_exp-Keeps, op_exp-Keeps, break_exp-Keeps,
  if_exp-Keeps, while_exp-Keeps, for_exp-Keeps, let_exp-Keeps, seq_exp-Keeps, assign_exp-Keeps,
  cast_exp-Keeps,
}
use tiger_compilor.Types.Checker.KeptDecs.{
  DeclsKept, typed_fields-Keeps, function_header-Keeps, function_body-Keeps, type_header-Keeps,
  type_body-Keeps, var_dec-Keeps, name_ty-Keeps, record_ty-Keeps, array_ty-Keeps, chunk_visit-Keeps,
  visit_vars-Keeps, visit_each-Keeps,
}

-- The induction over the tree is the one for two visitors, with one of them twice.
abbrev Kept : Part → Part → Type 0
Kept p q = IsKept p

kept :
    {e : Node} {x : String} {t : ℕ} {b : Bool} {a : Action State}
    → Keeps 0 a
    → IsKept (record {
      node = e;
      name = x;
      target = t;
      is_simple_var = b;
      visit = a;
      header = skip;
      body = skip;
      formals = λ k. k [];
    })
kept h = record {
  visit = weaken (omega arith) h;
  header = skip-Keeps;
  body = skip-Keeps;
  formals = λ {n} {k} keeps. keeps n [] (omega arith) tt;
}

AllKept-intro : (ps qs : List Part) → All₂ Kept ps qs → AllKept ps
AllKept-intro [] [] h = tt
AllKept-intro [] (q ∷ qs) h = tt
AllKept-intro (p ∷ ps) [] h = absurd h
AllKept-intro (p ∷ ps) (q ∷ qs) h = (h.0, AllKept-intro ps qs h.1)

DeclsKept-intro : (ds es : List (Decl Part)) → All₂ (SameDecl Kept) ds es → DeclsKept ds
DeclsKept-intro [] [] h = tt
DeclsKept-intro [] (e ∷ es) h = tt
DeclsKept-intro (d ∷ ds) [] h = absurd h
DeclsKept-intro (d ∷ ds) (e ∷ es) h = ((h.0).2, DeclsKept-intro ds es h.1)

OptKept-intro : (o p : Option Part) → Both Kept o p → OptKept o
OptKept-intro none p h = tt
OptKept-intro (some q) none h = absurd h
OptKept-intro (some q) (some r) h = h

module _ (def : ℕ → Option ℕ) where
  type_checker-Laws : Laws Kept Kept Kept Kept (type_checker def) (type_checker def)
  unfolding type_checker
  type_checker-Laws = record {
    simple_var = λ e x. kept (simple_var-Keeps def e);
    field_var = λ e x p q h. kept (field_var-Keeps e x h);
    subscript_var = λ e p r q s h k. kept (subscript_var-Keeps e h k);
    nil_exp = λ e. kept (nil_exp-Keeps e);
    int_exp = λ e k. kept (int_exp-Keeps e);
    string_exp = λ e x. kept (string_exp-Keeps e);
    call_exp = λ e x ps qs h. kept (call_exp-Keeps def e x ps (AllKept-intro ps qs h));
    op_exp = λ e o p r q s h k. kept (op_exp-Keeps e o h k);
    record_exp = λ e p q ps qs h k. kept (record_exp-Keeps e ps h (AllKept-intro ps qs k));
    field_init = λ e x p q h. kept (type_of-Keeps h);
    seq_exp = λ e ps qs h. kept (seq_exp-Keeps e ps (AllKept-intro ps qs h));
    assign_exp = λ e p r q s h k. kept (assign_exp-Keeps def e h k);
    if_exp = λ e p r q s o i h k l. kept (if_exp-Keeps e o h k (OptKept-intro o i l));
    while_exp = λ e p r q s h k. kept (while_exp-Keeps e h k);
    for_exp = λ e p r t q s u h k l. kept (for_exp-Keeps e h k l);
    break_exp = λ e. kept (break_exp-Keeps e);
    let_exp = λ e p r q s h k. kept (let_exp-Keeps e h k);
    array_exp = λ e p r t q s u h k l. kept (array_exp-Keeps e h k l);
    cast_exp = λ e p r q s h k. kept (cast_exp-Keeps e);
    chunk_list = λ ps qs h. kept (visit_each-Keeps ps (AllKept-intro ps qs h));
    var_chunk = λ e ds es h. record {
      visit = visit_vars-Keeps ds (DeclsKept-intro ds es h);
      header = skip-Keeps;
      body = skip-Keeps;
      formals = typed_fields-Keeps [] ds tt (DeclsKept-intro ds es h);
    };
    weaken = λ p q h. h;
    function_chunk = λ e ds es h. kept (chunk_visit-Keeps ds (DeclsKept-intro ds es h));
    type_chunk = λ e ds es h. kept (chunk_visit-Keeps ds (DeclsKept-intro ds es h));
    var_dec =
        λ e x o i p q h k. kept (var_dec-Keeps e o i (OptKept-intro o p h) (OptKept-intro i q k));
    function_dec = λ e x f g o i p q h k l. record {
      visit = skip-Keeps;
      header = function_header-Keeps e o h (OptKept-intro o p k);
      body = function_body-Keeps e i (OptKept-intro i q l);
      formals = λ {n} {k} keeps. keeps n [] (omega arith) tt;
    };
    type_dec = λ e x p q h. record {
      visit = skip-Keeps;
      header = type_header-Keeps e x;
      body = type_body-Keeps e h;
      formals = λ {n} {k} keeps. keeps n [] (omega arith) tt;
    };
    name_ty = λ e x. kept (name_ty-Keeps def e x);
    record_ty = λ e ps qs h. kept (record_ty-Keeps e ps (AllKept-intro ps qs h));
    array_ty = λ e p q h. kept (array_ty-Keeps e h);
    field = λ e x p q h. kept (type_of-Keeps h);
  }

builtins-live : (a : ℕ) → a < builtins.size → (o : TigerType) × (builtins.deref a ≡ some o)
unfolding builtins
builtins-live a lt = elim (Bool-cases (a == 0)) [
  | inl p ↦ (int, rw p refl)
  | inr p ↦ elim (Bool-cases (a == 1)) [
    | inl q ↦ (string, rw (p, q) refl)
    | inr q ↦ (void, ground arith)
  ]
]

builtins-Inside : (a : ℕ) (o : TigerType) → builtins.deref a ≡ some o → Inside builtins.size o
unfolding builtins
builtins-Inside a int e = tt
builtins-Inside a string e = tt
builtins-Inside a void e = tt
builtins-Inside a o e = ground arith

pub init-Owned : Owned init
unfolding builtins
init-Owned = record {
  bounded = λ a le. ground arith;
  live = builtins-live;
  instances = omega arith;
  types = λ a t e. cc;
  constructors = λ a t e. cc;
  inside = builtins-Inside;
}

-- Where every pointer to a type is one to an object that exists, it still is when the check of an
-- expression returns; then no type was freed, no error was dropped, and no variable that was not
-- read-only is.
pub type_of-Owned :
    (def : ℕ → Option ℕ) (e : Exp) (s t : State)
    → Owned s
    → type_of (accept_exp (type_checker def) e) s ≡ some t
    → Owned t × Grown s t
type_of-Owned def e s t o r =
    type_of-Keeps {n = 0} (accept_exp-Related (type_checker-Laws def) e) s t (omega arith) o r

-- If the type checker returns, every pointer to a type, of a node or of another type, is one to an
-- object that exists; and no loop index is left read-only.
pub types_check-Owned :
    (def : ℕ → Option ℕ) (p : Chunks) (t : State)
    → types_check def p ≡ some t
    → Owned t × ((a : ℕ) → t.var_read_only a ≡ false)
unfolding types_check
types_check-Owned def p t e =
    let (o, g) =
      (accept-Related (type_checker-Laws def) p).visit {n = 0} init t (omega arith) init-Owned e in
    (o, λ a. elim (Bool-cases (t.var_read_only a)) [ inl r ↦ cc (g.read_only a r) | inr r ↦ r ])
