-- ===== src/Clone/Strip.antt =====
-- Trees of src/ast without the addresses of their nodes.
use tiger_compilor.Prelude.{Option, none, some, List, [], ◌∷◌}
use tiger_compilor.Ast.Syntax.{
  Node, NameTy, Field, Ty, name_ty, record_ty, array_ty, TypeDec, Var, simple_var, field_var,
  subscript_var, Exp, var_exp, nil_exp, int_exp, string_exp, call_exp, op_exp, record_exp, seq_exp,
  assign_exp, if_exp, while_exp, for_exp, break_exp, let_exp, array_exp, cast_exp, OptExp, no_exp,
  an_exp, Exps, no_exps, exps, FieldInits, no_inits, inits, VarDec, var_dec, VarDecs, no_vars, vars,
  FunctionDec, function_dec, FunctionDecs, no_functions, functions, Chunk, var_chunk,
  function_chunk, type_chunk, Chunks, no_chunks, chunks,
}

abbrev pub strip_node : Node → Node
strip_node n = record n { address = 0 }

abbrev pub strip_name_ty : NameTy → NameTy
strip_name_ty n = record n { node = strip_node n.node }

abbrev pub strip_opt_name_ty : Option NameTy → Option NameTy
strip_opt_name_ty none = none
strip_opt_name_ty (some n) = some (strip_name_ty n)

abbrev pub strip_field : Field → Field
strip_field f = record {
  node = strip_node f.node;
  name = f.name;
  type_name = strip_name_ty f.type_name;
}

abbrev pub strip_fields : List Field → List Field
strip_fields [] = []
strip_fields (f ∷ fs) = strip_field f ∷ strip_fields fs

abbrev pub strip_ty : Ty → Ty
strip_ty (name_ty n) = name_ty (strip_name_ty n)
strip_ty (record_ty n fs) = record_ty (strip_node n) (strip_fields fs)
strip_ty (array_ty n base) = array_ty (strip_node n) (strip_name_ty base)

abbrev pub strip_type_dec : TypeDec → TypeDec
strip_type_dec d = record { node = strip_node d.node; name = d.name; ty = strip_ty d.ty }

abbrev pub strip_types : List TypeDec → List TypeDec
strip_types [] = []
strip_types (d ∷ ds) = strip_type_dec d ∷ strip_types ds

unfoldable mutual
  pub strip_var : Var → Var
  strip_var (simple_var n x) = simple_var (strip_node n) x
  strip_var (field_var n v x) = field_var (strip_node n) (strip_var v) x
  strip_var (subscript_var n v e) = subscript_var (strip_node n) (strip_var v) (strip_exp e)

  pub strip_exp : Exp → Exp
  strip_exp (var_exp v) = var_exp (strip_var v)
  strip_exp (nil_exp n) = nil_exp (strip_node n)
  strip_exp (int_exp n k) = int_exp (strip_node n) k
  strip_exp (string_exp n s) = string_exp (strip_node n) s
  strip_exp (call_exp n f es) = call_exp (strip_node n) f (strip_exps es)
  strip_exp (op_exp n l o r) = op_exp (strip_node n) (strip_exp l) o (strip_exp r)
  strip_exp (record_exp n t is_) = record_exp (strip_node n) (strip_name_ty t) (strip_inits is_)
  strip_exp (seq_exp n es) = seq_exp (strip_node n) (strip_exps es)
  strip_exp (assign_exp n v e) = assign_exp (strip_node n) (strip_var v) (strip_exp e)
  strip_exp (if_exp n c t e) = if_exp (strip_node n) (strip_exp c) (strip_exp t) (strip_opt_exp e)
  strip_exp (while_exp n c b) = while_exp (strip_node n) (strip_exp c) (strip_exp b)
  strip_exp (for_exp n d h b) = for_exp (strip_node n) (strip_var_dec d) (strip_exp h) (strip_exp b)
  strip_exp (break_exp n) = break_exp (strip_node n)
  strip_exp (let_exp n cs b) = let_exp (strip_node n) (strip_chunks cs) (strip_exp b)
  strip_exp (array_exp n t k e) =
      array_exp (strip_node n) (strip_name_ty t) (strip_exp k) (strip_exp e)
  strip_exp (cast_exp n e t) = cast_exp (strip_node n) (strip_exp e) (strip_ty t)

  pub strip_opt_exp : OptExp → OptExp
  strip_opt_exp no_exp = no_exp
  strip_opt_exp (an_exp e) = an_exp (strip_exp e)

  pub strip_exps : Exps → Exps
  strip_exps no_exps = no_exps
  strip_exps (exps e es) = exps (strip_exp e) (strip_exps es)

  pub strip_inits : FieldInits → FieldInits
  strip_inits no_inits = no_inits
  strip_inits (inits n x e is_) = inits (strip_node n) x (strip_exp e) (strip_inits is_)

  pub strip_var_dec : VarDec → VarDec
  strip_var_dec (var_dec n x t e) = var_dec (strip_node n) x (strip_opt_name_ty t) (strip_opt_exp e)

  pub strip_vars : VarDecs → VarDecs
  strip_vars no_vars = no_vars
  strip_vars (vars d ds) = vars (strip_var_dec d) (strip_vars ds)

  pub strip_function_dec : FunctionDec → FunctionDec
  strip_function_dec (function_dec n x c ds t b) =
      function_dec (strip_node n) x (strip_node c) (strip_vars ds) (strip_opt_name_ty t)
        (strip_opt_exp b)

  pub strip_functions : FunctionDecs → FunctionDecs
  strip_functions no_functions = no_functions
  strip_functions (functions d ds) = functions (strip_function_dec d) (strip_functions ds)

  pub strip_chunk : Chunk → Chunk
  strip_chunk (var_chunk n ds) = var_chunk (strip_node n) (strip_vars ds)
  strip_chunk (function_chunk n fs) = function_chunk (strip_node n) (strip_functions fs)
  strip_chunk (type_chunk n ts) = type_chunk (strip_node n) (strip_types ts)

  pub strip_chunks : Chunks → Chunks
  strip_chunks no_chunks = no_chunks
  strip_chunks (chunks c cs) = chunks (strip_chunk c) (strip_chunks cs)
