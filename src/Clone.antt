-- ===== src/Clone.antt =====
-- src/astclone/cloner.cc: the `Cloner`, one definition for each `operator()`.
pub mod Nodes
pub mod Strip
pub mod Parts
pub mod Types
pub mod Lists
pub mod Same
use tiger_compilor.Prelude.{ℕ, String, Option, none, some, List, ◌>>=◌}
use tiger_compilor.Ast.Syntax.{
  Node, Oper, NameTy, Ty, Var, Exp, OptExp, no_exp, an_exp, VarDec, FunctionDec, Chunk, Chunks,
}
use tiger_compilor.Ast.Syntax
use tiger_compilor.Ast.Visitor.{Decl, Visitor, accept}
use tiger_compilor.Ast.Default.{Action}
use tiger_compilor.Clone.Nodes.{
  Any, as_exp, as_var, as_ty, as_name_ty, as_field, as_init, as_var_dec, as_function_dec,
  as_type_dec, as_chunk, as_var_chunk, as_chunk_list, State, ◌▹◌, recurse, recurse_option,
  recurse_collection, build, visits, to_exps, to_inits, to_vars, to_functions, to_chunks,
}
use tiger_compilor.Clone.Nodes

abbrev pub to_opt_exp : Option Exp → OptExp
to_opt_exp none = no_exp
to_opt_exp (some e) = an_exp e

unfoldable pub simple_var : Node → String → Action State
unfolding build
simple_var n x = build n λ m. Nodes.exp (Syntax.var_exp (Syntax.simple_var m x))

unfoldable pub field_var : Node → Action State → String → Action State
unfolding build recurse
field_var n var x =
    recurse as_var var ▹ λ v. build n λ m. Nodes.exp (Syntax.var_exp (Syntax.field_var m v x))

unfoldable pub subscript_var : Node → Action State → Action State → Action State
unfolding build recurse
subscript_var n var index = recurse as_var var ▹ λ v.
    recurse as_exp index ▹ λ i. build n λ m. Nodes.exp (Syntax.var_exp (Syntax.subscript_var m v i))

unfoldable pub nil_exp : Node → Action State
unfolding build
nil_exp n = build n λ m. Nodes.exp (Syntax.nil_exp m)

unfoldable pub int_exp : Node → ℕ → Action State
unfolding build
int_exp n value = build n λ m. Nodes.exp (Syntax.int_exp m value)

unfoldable pub string_exp : Node → String → Action State
unfolding build
string_exp n value = build n λ m. Nodes.exp (Syntax.string_exp m value)

unfoldable pub call_exp : Node → String → List (Action State) → Action State
unfolding build recurse_collection
call_exp n name args = recurse_collection as_exp args ▹ λ es.
    build n λ m. Nodes.exp (Syntax.call_exp m name (to_exps es))

unfoldable pub op_exp : Node → Action State → Oper → Action State → Action State
unfolding build recurse
op_exp n left oper right = recurse as_exp left ▹ λ l.
    recurse as_exp right ▹ λ r. build n λ m. Nodes.exp (Syntax.op_exp m l oper r)

unfoldable pub record_exp : Node → Action State → List (Action State) → Action State
unfolding build recurse recurse_collection
record_exp n type_name fields = recurse as_name_ty type_name ▹ λ t.
    recurse_collection as_init fields ▹ λ is_.
    build n λ m. Nodes.exp (Syntax.record_exp m t (to_inits is_))

unfoldable pub field_init : Node → String → Action State → Action State
unfolding build recurse
field_init n name init = recurse as_exp init ▹ λ e.
    build n λ m. Nodes.field_init (record { node = m; name = name; init = e })

unfoldable pub seq_exp : Node → List (Action State) → Action State
unfolding build recurse_collection
seq_exp n exps =
    recurse_collection as_exp exps ▹ λ es. build n λ m. Nodes.exp (Syntax.seq_exp m (to_exps es))

unfoldable pub assign_exp : Node → Action State → Action State → Action State
unfolding build recurse
assign_exp n var exp = recurse as_var var ▹ λ v.
    recurse as_exp exp ▹ λ e. build n λ m. Nodes.exp (Syntax.assign_exp m v e)

unfoldable pub if_exp : Node → Action State → Action State → Option (Action State) → Action State
unfolding build recurse recurse_option
if_exp n test thenclause elseclause = recurse as_exp test ▹ λ c. recurse as_exp thenclause ▹ λ t.
    recurse_option as_exp elseclause ▹ λ e.
    build n λ m. Nodes.exp (Syntax.if_exp m c t (to_opt_exp e))

unfoldable pub while_exp : Node → Action State → Action State → Action State
unfolding build recurse
while_exp n test body = recurse as_exp test ▹ λ c.
    recurse as_exp body ▹ λ b. build n λ m. Nodes.exp (Syntax.while_exp m c b)

unfoldable pub for_exp : Node → Action State → Action State → Action State → Action State
unfolding build recurse
for_exp n vardec hi body = recurse as_var_dec vardec ▹ λ d. recurse as_exp hi ▹ λ h.
    recurse as_exp body ▹ λ b. build n λ m. Nodes.exp (Syntax.for_exp m d h b)

unfoldable pub break_exp : Node → Action State
unfolding build
break_exp n = build n λ m. Nodes.exp (Syntax.break_exp m)

unfoldable pub let_exp : Node → Action State → Action State → Action State
unfolding build recurse
let_exp n chunks body = recurse as_chunk_list chunks ▹ λ cs.
    recurse as_exp body ▹ λ b. build n λ m. Nodes.exp (Syntax.let_exp m cs b)

unfoldable pub array_exp : Node → Action State → Action State → Action State → Action State
unfolding build recurse
array_exp n type_name size init = recurse as_name_ty type_name ▹ λ t. recurse as_exp size ▹ λ k.
    recurse as_exp init ▹ λ e. build n λ m. Nodes.exp (Syntax.array_exp m t k e)

unfoldable pub cast_exp : Node → Action State → Action State → Action State
unfolding build recurse
cast_exp n exp ty =
    recurse as_exp exp ▹ λ e. recurse as_ty ty ▹ λ t. build n λ m. Nodes.exp (Syntax.cast_exp m e t)

-- The location of a list of chunks is left out, as it is in the tree.
unfoldable pub chunk_list : List (Action State) → Action State
unfolding recurse_collection
chunk_list chunks = recurse_collection as_chunk chunks ▹ λ cs s.
    some (record s { result = some (Nodes.chunk_list (to_chunks cs)) })

unfoldable pub var_chunk : Node → List (Decl (Action State)) → Action State
unfolding build recurse_collection
var_chunk n ds = recurse_collection as_var_dec (visits ds) ▹ λ xs.
    build n λ m. Nodes.chunk (Syntax.var_chunk m (to_vars xs))

unfoldable pub function_chunk : Node → List (Decl (Action State)) → Action State
unfolding build recurse_collection
function_chunk n ds = recurse_collection as_function_dec (visits ds) ▹ λ xs.
    build n λ m. Nodes.chunk (Syntax.function_chunk m (to_functions xs))

unfoldable pub type_chunk : Node → List (Decl (Action State)) → Action State
unfolding build recurse_collection
type_chunk n ds = recurse_collection as_type_dec (visits ds) ▹ λ xs.
    build n λ m. Nodes.chunk (Syntax.type_chunk m xs)

unfoldable pub var_dec :
    Node → String → Option (Action State) → Option (Action State) → Action State
unfolding build recurse_option
var_dec n x type_name init = recurse_option as_name_ty type_name ▹ λ t.
    recurse_option as_exp init ▹ λ e.
    build n λ m. Nodes.var_dec (Syntax.var_dec m x t (to_opt_exp e))

unfoldable pub function_dec :
    Node → String → Action State → Option (Action State) → Option (Action State) → Action State
unfolding build recurse recurse_option
function_dec n x formals result body = recurse as_var_chunk formals ▹ λ f.
    recurse_option as_name_ty result ▹ λ t. recurse_option as_exp body ▹ λ b.
    build n λ m. Nodes.function_dec (Syntax.function_dec m x f.0 f.1 t (to_opt_exp b))

unfoldable pub type_dec : Node → String → Action State → Action State
unfolding build recurse
type_dec n x ty =
    recurse as_ty ty ▹ λ t. build n λ m. Nodes.type_dec (record { node = m; name = x; ty = t })

unfoldable pub name_ty : Node → String → Action State
unfolding build
name_ty n x = build n λ m. Nodes.ty (Syntax.name_ty (record { node = m; name = x }))

unfoldable pub record_ty : Node → List (Action State) → Action State
unfolding build recurse_collection
record_ty n fields =
    recurse_collection as_field fields ▹ λ fs. build n λ m. Nodes.ty (Syntax.record_ty m fs)

unfoldable pub array_ty : Node → Action State → Action State
unfolding build recurse
array_ty n base_type =
    recurse as_name_ty base_type ▹ λ t. build n λ m. Nodes.ty (Syntax.array_ty m t)

unfoldable pub field : Node → String → Action State → Action State
unfolding build recurse
field n x type_name = recurse as_name_ty type_name ▹ λ t.
    build n λ m. Nodes.field (record { node = m; name = x; type_name = t })

abbrev pub cloner : Visitor (Action State)
cloner = record {
  simple_var = simple_var;
  field_var = field_var;
  subscript_var = subscript_var;
  nil_exp = nil_exp;
  int_exp = int_exp;
  string_exp = string_exp;
  call_exp = call_exp;
  op_exp = op_exp;
  record_exp = record_exp;
  field_init = field_init;
  seq_exp = seq_exp;
  assign_exp = assign_exp;
  if_exp = if_exp;
  while_exp = while_exp;
  for_exp = for_exp;
  break_exp = break_exp;
  let_exp = let_exp;
  array_exp = array_exp;
  cast_exp = cast_exp;
  chunk_list = chunk_list;
  var_chunk = var_chunk;
  function_chunk = function_chunk;
  type_chunk = type_chunk;
  var_dec = var_dec;
  function_dec = function_dec;
  type_dec = type_dec;
  name_ty = name_ty;
  record_ty = record_ty;
  array_ty = array_ty;
  field = field;
}

-- `astclone::clone` of a whole program, from the address that is used next.
unfoldable pub clone : Chunks → ℕ → Option (Chunks × State)
unfolding accept recurse
clone tree next = recurse as_chunk_list (accept cloner tree) (record { result = none; next = next })
