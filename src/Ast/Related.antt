-- ===== src/Ast/Related.antt =====
-- The visits of a tree of src/ast by two visitors, and a relation that their operations keep.
use tiger_compilor.Prelude.{refl, Option, none, some, List, [], ◌∷◌, All₂, Both}
use tiger_compilor.Ast.Syntax.{
  NameTy, Field, Ty, name_ty, record_ty, array_ty, TypeDec, Var, simple_var, field_var,
  subscript_var, Exp, var_exp, nil_exp, int_exp, string_exp, call_exp, op_exp, record_exp, seq_exp,
  assign_exp, if_exp, while_exp, for_exp, break_exp, let_exp, array_exp, cast_exp, OptExp, no_exp,
  an_exp, Exps, no_exps, exps, FieldInits, no_inits, inits, VarDec, var_dec, VarDecs, no_vars, vars,
  function_dec, FunctionDecs, no_functions, functions, Chunk, var_chunk, function_chunk, type_chunk,
  Chunks, no_chunks, chunks,
}
use tiger_compilor.Ast.Laws.{Laws, SameDecl}
use tiger_compilor.Ast.Visitor.{
  Visitor, accept_name_ty, accept_opt_name_ty, accept_fields, accept_ty, accept_types, accept_var,
  accept_exp, accept_opt_exp, accept_exps, accept_inits, accept_var_dec, accept_vars,
  accept_functions, accept_chunk, accept_chunks, accept,
}

module _ {X Y : Type 0} {E T V D : X → Y → Type 0} {v : Visitor X} {w : Visitor Y}
    (l : Laws E T V D v w) where
  name_ty-Related : (n : NameTy) → T (accept_name_ty v n) (accept_name_ty w n)
  name_ty-Related n = l.name_ty n.node n.name

  pub opt_name_ty-Related :
      (t : Option NameTy) → Both T (accept_opt_name_ty v t) (accept_opt_name_ty w t)
  opt_name_ty-Related none = tt
  opt_name_ty-Related (some n) = name_ty-Related n

  fields-Related : (fs : List Field) → All₂ T (accept_fields v fs) (accept_fields w fs)
  fields-Related [] = tt
  fields-Related (f ∷ fs) =
      (l.field f.node f.name _ _ (name_ty-Related f.type_name), fields-Related fs)

  ty-Related : (t : Ty) → T (accept_ty v t) (accept_ty w t)
  ty-Related (name_ty n) = name_ty-Related n
  ty-Related (record_ty n fs) = l.record_ty n _ _ (fields-Related fs)
  ty-Related (array_ty n base) = l.array_ty n _ _ (name_ty-Related base)

  types-Related : (ts : List TypeDec) → All₂ (SameDecl D) (accept_types v ts) (accept_types w ts)
  types-Related [] = tt
  types-Related (t ∷ ts) =
      ((refl, refl, l.type_dec t.node t.name _ _ (ty-Related t.ty)), types-Related ts)

  mutual
    unfolding accept_exp

    var-Related : (e : Var) → E (accept_var v e) (accept_var w e)
    var-Related (simple_var n x) = l.simple_var n x
    var-Related (field_var n e x) = l.field_var n x _ _ (var-Related e)
    var-Related (subscript_var n e i) = l.subscript_var n _ _ _ _ (var-Related e) (exp-Related i)

    exp-Related : (e : Exp) → E (accept_exp v e) (accept_exp w e)
    exp-Related (var_exp e) = var-Related e
    exp-Related (nil_exp n) = l.nil_exp n
    exp-Related (int_exp n k) = l.int_exp n k
    exp-Related (string_exp n s) = l.string_exp n s
    exp-Related (call_exp n f es) = l.call_exp n f _ _ (exps-Related es)
    exp-Related (op_exp n a o b) = l.op_exp n o _ _ _ _ (exp-Related a) (exp-Related b)
    exp-Related (record_exp n t fs) = l.record_exp n _ _ _ _ (name_ty-Related t) (inits-Related fs)
    exp-Related (seq_exp n es) = l.seq_exp n _ _ (exps-Related es)
    exp-Related (assign_exp n x e) = l.assign_exp n _ _ _ _ (var-Related x) (exp-Related e)
    exp-Related (if_exp n c t e) =
        l.if_exp n _ _ _ _ _ _ (exp-Related c) (exp-Related t) (opt_exp-Related e)
    exp-Related (while_exp n c b) = l.while_exp n _ _ _ _ (exp-Related c) (exp-Related b)
    exp-Related (for_exp n d hi b) =
        l.for_exp n _ _ _ _ _ _ (var_dec-Related d) (exp-Related hi) (exp-Related b)
    exp-Related (break_exp n) = l.break_exp n
    exp-Related (let_exp n cs b) =
        l.let_exp n _ _ _ _ (l.chunk_list _ _ (chunks-Related cs)) (exp-Related b)
    exp-Related (array_exp n t s i) =
        l.array_exp n _ _ _ _ _ _ (name_ty-Related t) (exp-Related s) (exp-Related i)
    exp-Related (cast_exp n e t) = l.cast_exp n _ _ _ _ (exp-Related e) (ty-Related t)

    pub opt_exp-Related : (e : OptExp) → Both E (accept_opt_exp v e) (accept_opt_exp w e)
    opt_exp-Related no_exp = tt
    opt_exp-Related (an_exp e) = exp-Related e

    exps-Related : (es : Exps) → All₂ E (accept_exps v es) (accept_exps w es)
    exps-Related no_exps = tt
    exps-Related (exps e es) = (exp-Related e, exps-Related es)

    inits-Related : (fs : FieldInits) → All₂ E (accept_inits v fs) (accept_inits w fs)
    inits-Related no_inits = tt
    inits-Related (inits n x e fs) = (l.field_init n x _ _ (exp-Related e), inits-Related fs)

    var_dec-Related : (d : VarDec) → V (accept_var_dec v d) (accept_var_dec w d)
    var_dec-Related (var_dec n x t e) =
        l.var_dec n x _ _ _ _ (opt_name_ty-Related t) (opt_exp-Related e)

    pub vars-Related : (ds : VarDecs) → All₂ (SameDecl V) (accept_vars v ds) (accept_vars w ds)
    vars-Related no_vars = tt
    vars-Related (vars (var_dec n x t e) ds) = (
      (refl, refl, l.var_dec n x _ _ _ _ (opt_name_ty-Related t) (opt_exp-Related e)),
      vars-Related ds,
    )

    functions-Related :
        (fs : FunctionDecs) → All₂ (SameDecl D) (accept_functions v fs) (accept_functions w fs)
    functions-Related no_functions = tt
    functions-Related (functions (function_dec n x c ds t b) fs) = (
      (
        refl,
        refl,
        l.function_dec n x _ _ _ _ _ _ (l.var_chunk c _ _ (vars-Related ds)) (opt_name_ty-Related t)
            (opt_exp-Related b),
      ),
      functions-Related fs,
    )

    chunk-Related : (c : Chunk) → D (accept_chunk v c) (accept_chunk w c)
    chunk-Related (var_chunk n ds) = l.weaken _ _ (l.var_chunk n _ _ (vars-Related ds))
    chunk-Related (function_chunk n fs) = l.function_chunk n _ _ (functions-Related fs)
    chunk-Related (type_chunk n ts) = l.type_chunk n _ _ (types-Related ts)

    chunks-Related : (cs : Chunks) → All₂ D (accept_chunks v cs) (accept_chunks w cs)
    chunks-Related no_chunks = tt
    chunks-Related (chunks c cs) = (chunk-Related c, chunks-Related cs)

  -- The visits of any expression, and of any program, are related.
  pub accept_exp-Related : (e : Exp) → E (accept_exp v e) (accept_exp w e)
  accept_exp-Related e = exp-Related e

  pub accept-Related : (cs : Chunks) → D (accept v cs) (accept w cs)
  unfolding accept
  accept-Related cs = l.chunk_list _ _ (chunks-Related cs)
