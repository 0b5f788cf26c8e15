-- ===== src/Ast/Default.antt =====
-- src/ast/default-visitor.hxx: the visitor that does nothing but walk, over any state.
use tiger_compilor.Prelude.{ℕ, String, Option, none, some, List, [], ◌∷◌, ◌>>=◌}
use tiger_compilor.Ast.Syntax.{Node, Oper}
use tiger_compilor.Ast.Visitor.{Decl, Visitor}

-- A visit changes the state of the visitor; `none` is an exception that leaves it.
abbrev pub Action : Type 0 → Type 0
Action S = S → Option S

module _ {S : Type 0} where
  abbrev pub skip : Action S
  skip s = some s

  infixr 6 ◌⨾◌
  abbrev pub ◌⨾◌ : Action S → Action S → Action S
  ◌⨾◌ a b s = a s >>= b

  -- `for (const auto& x : xs) x->accept(*this);`
  abbrev pub each : List (Action S) → Action S
  each [] = skip
  each (a ∷ rest) = a ⨾ each rest

  -- `if (x != nullptr) x->accept(*this);`
  abbrev pub if_present : Option (Action S) → Action S
  if_present none = skip
  if_present (some a) = a

  -- `chunk_visit`: the declarations of a chunk, in their order
  abbrev pub each_decl : List (Decl (Action S)) → Action S
  each_decl [] = skip
  each_decl (d ∷ ds) = d.visit ⨾ each_decl ds

-- One definition for each `operator()`.
module _ {S : Type 0} where
  unfoldable pub simple_var : Node → String → Action S
  simple_var n x = skip

  unfoldable pub field_var : Node → Action S → String → Action S
  field_var n var x = var

  unfoldable pub subscript_var : Node → Action S → Action S → Action S
  subscript_var n var index = var ⨾ index

  unfoldable pub nil_exp : Node → Action S
  nil_exp n = skip

  unfoldable pub int_exp : Node → ℕ → Action S
  int_exp n value = skip

  unfoldable pub string_exp : Node → String → Action S
  string_exp n value = skip

  unfoldable pub call_exp : Node → String → List (Action S) → Action S
  call_exp n name args = each args

  unfoldable pub op_exp : Node → Action S → Oper → Action S → Action S
  op_exp n left oper right = left ⨾ right

  unfoldable pub record_exp : Node → Action S → List (Action S) → Action S
  record_exp n type_name fields = type_name ⨾ each fields

  unfoldable pub field_init : Node → String → Action S → Action S
  field_init n name init = init

  unfoldable pub seq_exp : Node → List (Action S) → Action S
  seq_exp n exps = each exps

  unfoldable pub assign_exp : Node → Action S → Action S → Action S
  assign_exp n var exp = var ⨾ exp

  unfoldable pub if_exp : Node → Action S → Action S → Option (Action S) → Action S
  if_exp n test thenclause elseclause = test ⨾ thenclause ⨾ if_present elseclause

  unfoldable pub while_exp : Node → Action S → Action S → Action S
  while_exp n test body = test ⨾ body

  unfoldable pub for_exp : Node → Action S → Action S → Action S → Action S
  for_exp n vardec hi body = vardec ⨾ hi ⨾ body

  unfoldable pub break_exp : Node → Action S
  break_exp n = skip

  unfoldable pub let_exp : Node → Action S → Action S → Action S
  let_exp n chunks body = chunks ⨾ body

  unfoldable pub array_exp : Node → Action S → Action S → Action S → Action S
  array_exp n type_name size init = type_name ⨾ size ⨾ init

  unfoldable pub cast_exp : Node → Action S → Action S → Action S
  cast_exp n exp ty = exp ⨾ ty

  unfoldable pub chunk_list : List (Action S) → Action S
  chunk_list chunks = each chunks

  unfoldable pub var_chunk : Node → List (Decl (Action S)) → Action S
  var_chunk n decs = each_decl decs

  unfoldable pub var_dec : Node → String → Option (Action S) → Option (Action S) → Action S
  var_dec n name type_name init = if_present type_name ⨾ if_present init

  unfoldable pub function_chunk : Node → List (Decl (Action S)) → Action S
  function_chunk n decs = each_decl decs

  unfoldable pub function_dec :
      Node → String → Action S → Option (Action S) → Option (Action S) → Action S
  function_dec n name formals result body = formals ⨾ if_present result ⨾ if_present body

  unfoldable pub type_chunk : Node → List (Decl (Action S)) → Action S
  type_chunk n decs = each_decl decs

  unfoldable pub type_dec : Node → String → Action S → Action S
  type_dec n name ty = ty

  unfoldable pub name_ty : Node → String → Action S
  name_ty n name = skip

  unfoldable pub record_ty : Node → List (Action S) → Action S
  record_ty n fields = each fields

  unfoldable pub array_ty : Node → Action S → Action S
  array_ty n base_type = base_type

  unfoldable pub field : Node → String → Action S → Action S
  field n name type_name = type_name

  -- `ast::DefaultVisitor`, of which the passes override some operations.
  abbrev pub default_visitor : Visitor (Action S)
  default_visitor = record {
    simple_var = simple_var;
    field_var = field_var;
    subscript_var = subscript_var;
    nil_exp = nil_exp;
    int_exp = int_exp;
    string_exp = string_exp;
    call_exp = call_exp;
    op_exp = op_exp;
    record_exp = record_exp;
    field_init = field_init;
    seq_exp = seq_exp;
    assign_exp = assign_exp;
    if_exp = if_exp;
    while_exp = while_exp;
    for_exp = for_exp;
    break_exp = break_exp;
    let_exp = let_exp;
    array_exp = array_exp;
    cast_exp = cast_exp;
    chunk_list = chunk_list;
    var_chunk = var_chunk;
    function_chunk = function_chunk;
    type_chunk = type_chunk;
    var_dec = var_dec;
    function_dec = function_dec;
    type_dec = type_dec;
    name_ty = name_ty;
    record_ty = record_ty;
    array_ty = array_ty;
    field = field;
  }
