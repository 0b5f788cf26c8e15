-- ===== src/Ast/Visitor.antt =====
-- src/ast/visitor.hh and the `accept` methods: a visitor has one operation for each class of
-- node, and takes the visits of the children, as results in `X`, for `child.accept(*this)`.
use tiger_compilor.Prelude.{ℕ, String, Option, none, some, List, [], ◌∷◌}
use tiger_compilor.Ast.Syntax.{
  Node, Oper, NameTy, Field, Ty, name_ty, record_ty, array_ty, TypeDec, Var, simple_var, field_var,
  subscript_var, Exp, var_exp, nil_exp, int_exp, string_exp, call_exp, op_exp, record_exp, seq_exp,
  assign_exp, if_exp, while_exp, for_exp, break_exp, let_exp, array_exp, cast_exp, OptExp, no_exp,
  an_exp, Exps, no_exps, exps, FieldInits, no_inits, inits, VarDec, var_dec, VarDecs, no_vars, vars,
  function_dec, FunctionDecs, no_functions, functions, Chunk, var_chunk, function_chunk, type_chunk,
  Chunks, no_chunks, chunks,
}

-- A declaration as a chunk sees it: its node, its name, and its visit.
pub record Decl (X : Type 0) : Type 0 where
  pub node : Node
  pub name : String
  pub visit : X

pub record Visitor (X : Type 0) : Type 0 where
  pub simple_var : Node → String → X
  pub field_var : Node → X → String → X
  pub subscript_var : Node → X → X → X
  pub nil_exp : Node → X
  pub int_exp : Node → ℕ → X
  pub string_exp : Node → String → X
  pub call_exp : Node → String → List X → X
  pub op_exp : Node → X → Oper → X → X
  pub record_exp : Node → X → List X → X
  pub field_init : Node → String → X → X
  pub seq_exp : Node → List X → X
  pub assign_exp : Node → X → X → X
  pub if_exp : Node → X → X → Option X → X
  pub while_exp : Node → X → X → X
  pub for_exp : Node → X → X → X → X
  pub break_exp : Node → X
  pub let_exp : Node → X → X → X
  pub array_exp : Node → X → X → X → X
  pub cast_exp : Node → X → X → X
  pub chunk_list : List X → X
  pub var_chunk : Node → List (Decl X) → X
  pub function_chunk : Node → List (Decl X) → X
  pub type_chunk : Node → List (Decl X) → X
  pub var_dec : Node → String → Option X → Option X → X
  pub function_dec : Node → String → X → Option X → Option X → X
  pub type_dec : Node → String → X → X
  pub name_ty : Node → String → X
  pub record_ty : Node → List X → X
  pub array_ty : Node → X → X
  pub field : Node → String → X → X

module _ {X : Type 0} (v : Visitor X) where
  abbrev pub accept_name_ty : NameTy → X
  accept_name_ty n = v.name_ty n.node n.name

  abbrev pub accept_opt_name_ty : Option NameTy → Option X
  accept_opt_name_ty none = none
  accept_opt_name_ty (some n) = some (accept_name_ty n)

  abbrev pub accept_fields : List Field → List X
  accept_fields [] = []
  accept_fields (f ∷ fs) = v.field f.node f.name (accept_name_ty f.type_name) ∷ accept_fields fs

  abbrev pub accept_ty : Ty → X
  accept_ty (name_ty n) = accept_name_ty n
  accept_ty (record_ty n fs) = v.record_ty n (accept_fields fs)
  accept_ty (array_ty n base) = v.array_ty n (accept_name_ty base)

  abbrev pub accept_type_dec : TypeDec → X
  accept_type_dec d = v.type_dec d.node d.name (accept_ty d.ty)

  abbrev pub accept_types : List TypeDec → List (Decl X)
  accept_types [] = []
  accept_types (d ∷ ds) =
      record { node = d.node; name = d.name; visit = accept_type_dec d } ∷ accept_types ds

  unfoldable mutual
    pub accept_var : Var → X
    accept_var (simple_var n x) = v.simple_var n x
    accept_var (field_var n e x) = v.field_var n (accept_var e) x
    accept_var (subscript_var n e i) = v.subscript_var n (accept_var e) (accept_exp i)

    pub accept_exp : Exp → X
    accept_exp (var_exp e) = accept_var e
    accept_exp (nil_exp n) = v.nil_exp n
    accept_exp (int_exp n k) = v.int_exp n k
    accept_exp (string_exp n s) = v.string_exp n s
    accept_exp (call_exp n f es) = v.call_exp n f (accept_exps es)
    accept_exp (op_exp n l o r) = v.op_exp n (accept_exp l) o (accept_exp r)
    accept_exp (record_exp n t fs) = v.record_exp n (accept_name_ty t) (accept_inits fs)
    accept_exp (seq_exp n es) = v.seq_exp n (accept_exps es)
    accept_exp (assign_exp n x e) = v.assign_exp n (accept_var x) (accept_exp e)
    accept_exp (if_exp n c t e) = v.if_exp n (accept_exp c) (accept_exp t) (accept_opt_exp e)
    accept_exp (while_exp n c b) = v.while_exp n (accept_exp c) (accept_exp b)
    accept_exp (for_exp n d hi b) = v.for_exp n (accept_var_dec d) (accept_exp hi) (accept_exp b)
    accept_exp (break_exp n) = v.break_exp n
    accept_exp (let_exp n cs b) = v.let_exp n (v.chunk_list (accept_chunks cs)) (accept_exp b)
    accept_exp (array_exp n t s i) = v.array_exp n (accept_name_ty t) (accept_exp s) (accept_exp i)
    accept_exp (cast_exp n e t) = v.cast_exp n (accept_exp e) (accept_ty t)

    pub accept_opt_exp : OptExp → Option X
    accept_opt_exp no_exp = none
    accept_opt_exp (an_exp e) = some (accept_exp e)

    pub accept_exps : Exps → List X
    accept_exps no_exps = []
    accept_exps (exps e es) = accept_exp e ∷ accept_exps es

    pub accept_inits : FieldInits → List X
    accept_inits no_inits = []
    accept_inits (inits n x e fs) = v.field_init n x (accept_exp e) ∷ accept_inits fs

    pub accept_var_dec : VarDec → X
    accept_var_dec (var_dec n x t e) = v.var_dec n x (accept_opt_name_ty t) (accept_opt_exp e)

    pub accept_vars : VarDecs → List (Decl X)
    accept_vars no_vars = []
    accept_vars (vars (var_dec n x t e) ds) =
        record {
          node = n;
          name = x;
          visit = v.var_dec n x (accept_opt_name_ty t) (accept_opt_exp e);
        }
        ∷ accept_vars ds

    pub accept_functions : FunctionDecs → List (Decl X)
    accept_functions no_functions = []
    accept_functions (functions (function_dec n x c ds t b) fs) =
        record {
          node = n;
          name = x;
          visit =
              v.function_dec n x (v.var_chunk c (accept_vars ds)) (accept_opt_name_ty t)
                (accept_opt_exp b);
        }
        ∷ accept_functions fs

    pub accept_chunk : Chunk → X
    accept_chunk (var_chunk n ds) = v.var_chunk n (accept_vars ds)
    accept_chunk (function_chunk n fs) = v.function_chunk n (accept_functions fs)
    accept_chunk (type_chunk n ts) = v.type_chunk n (accept_types ts)

    pub accept_chunks : Chunks → List X
    accept_chunks no_chunks = []
    accept_chunks (chunks c cs) = accept_chunk c ∷ accept_chunks cs

  -- the whole program is an `ast::ChunkList`
  unfoldable pub accept : Chunks → X
  unfolding accept_exp
  accept cs = v.chunk_list (accept_chunks cs)
