-- ===== src/Clone/Same.antt =====
-- src/astclone/cloner.cc: the clone of a tree is the tree, but for the addresses of its nodes.
use tiger_compilor.Prelude.{◌≡◌, refl, All₂, Both}
use tiger_compilor.Ast.Syntax.{
  Node, Var, simple_var, field_var, subscript_var, Exp, var_exp, nil_exp, int_exp, string_exp,
  call_exp, op_exp, record_exp, seq_exp, assign_exp, if_exp, while_exp, for_exp, break_exp, let_exp,
  array_exp, cast_exp, OptExp, no_exp, an_exp, Exps, no_exps, exps, FieldInits, no_inits, inits,
  VarDec, var_dec, VarDecs, no_vars, vars, function_dec, FunctionDecs, no_functions, functions,
  Chunk, var_chunk, function_chunk, type_chunk, Chunks, no_chunks, chunks,
}
use tiger_compilor.Ast.Visitor.{
  accept_var, accept_exp, accept_opt_exp, accept_exps, accept_inits, accept_var_dec, accept_vars,
  accept_functions, accept_chunk, accept_chunks,
}
use tiger_compilor.Clone.Nodes.{
  Any, as_exp, as_var, as_ty, as_name_ty, as_field, as_init, as_var_dec, as_function_dec,
  as_type_dec, as_chunk, as_var_chunk, as_chunk_list, Init, visits, to_exps, to_inits, to_vars,
  to_functions, to_chunks,
}
use tiger_compilor.Clone.Nodes
use tiger_compilor.Clone.Strip.{strip_node, strip_exp, strip_vars}
use tiger_compilor.Clone.Parts.{
  Produces, recurse-Gives, option-Gives, collection-Gives, then-Produces, build-Produces,
  as-Produces, set-Produces,
}
use tiger_compilor.Clone.{to_opt_exp, cloner}
use tiger_compilor.Clone
use tiger_compilor.Clone.Types.{
  SameExp, SameVar, a_var, a_name_ty, name_ty-Produces, opt_name_ty-Both, opt_name_ty-same,
  ty-Produces, type_chunk-Produces,
}
use tiger_compilor.Clone.Lists.{
  SameInit, SameVarDec, SameFunctionDec, SameChunk, SameChunks, from_exps, from_inits, from_vars,
  from_functions, from_chunks, from_opt_exp, exps-same, inits-same, vars-same, functions-same,
  chunks-same, opt_exp-same,
}

-- the chunk of the formals of a function
abbrev Formals : Type 0
Formals = Node × VarDecs

abbrev a_formals : Formals → Any
a_formals f = Nodes.chunk (var_chunk f.0 f.1)

abbrev SameFormals : Node → VarDecs → Formals → Type 0
SameFormals n ds f = (strip_node f.0 ≡ strip_node n) × (strip_vars f.1 ≡ strip_vars ds)

abbrev formals_chunk : Formals → Chunk
formals_chunk f = var_chunk f.0 f.1

formals-Produces :
    (n : Node) (ds : VarDecs)
    → All₂
        (λ a y. Produces a Nodes.var_dec (SameVarDec y))
        (visits (accept_vars cloner ds))
        (from_vars ds)
    → Produces (cloner.var_chunk n (accept_vars cloner ds)) a_formals (SameFormals n ds)
unfolding Clone.var_chunk
formals-Produces n ds all =
    then-Produces (collection-Gives as_var_dec Nodes.var_dec (λ v. refl) _ (from_vars ds) all)
      λ vs p. build-Produces n (λ m. (m, to_vars vs)) λ m e. (cc, vars-same vs ds p)

chunk_list-Produces :
    (cs : Chunks)
    → All₂ (λ a y. Produces a Nodes.chunk (SameChunk y)) (accept_chunks cloner cs) (from_chunks cs)
    → Produces (cloner.chunk_list (accept_chunks cloner cs)) Nodes.chunk_list (SameChunks cs)
unfolding Clone.chunk_list
chunk_list-Produces cs all =
    then-Produces (collection-Gives as_chunk Nodes.chunk (λ v. refl) _ (from_chunks cs) all)
      λ vs p. set-Produces (to_chunks vs) (chunks-same vs cs p)

mutual
  unfolding accept_exp strip_exp Clone.simple_var Clone.field_var Clone.subscript_var Clone.nil_exp
      Clone.int_exp Clone.string_exp Clone.call_exp Clone.op_exp Clone.record_exp Clone.field_init
      Clone.seq_exp Clone.assign_exp Clone.if_exp Clone.while_exp Clone.for_exp Clone.break_exp
      Clone.let_exp Clone.array_exp Clone.cast_exp Clone.chunk_list Clone.var_chunk
      Clone.function_chunk Clone.var_dec Clone.function_dec

  var-Produces : (e : Var) → Produces (accept_var cloner e) a_var (SameVar e)
  var-Produces (simple_var n x) = build-Produces n (λ m. simple_var m x) λ m e. cc
  var-Produces (field_var n v x) =
      then-Produces (recurse-Gives as_var a_var (λ v. refl) (var-Produces v))
        λ w p. build-Produces n (λ m. field_var m w x) λ m e. cc
  var-Produces (subscript_var n v i) =
      then-Produces (recurse-Gives as_var a_var (λ v. refl) (var-Produces v)) λ w p.
        then-Produces (recurse-Gives as_exp Nodes.exp (λ v. refl) (exp-Produces i))
          λ j q. build-Produces n (λ m. subscript_var m w j) λ m e. cc

  exp-Produces : (e : Exp) → Produces (accept_exp cloner e) Nodes.exp (SameExp e)
  exp-Produces (var_exp v) = as-Produces var_exp (var-Produces v) λ w p. cc
  exp-Produces (nil_exp n) = build-Produces n (λ m. nil_exp m) λ m e. cc
  exp-Produces (int_exp n k) = build-Produces n (λ m. int_exp m k) λ m e. cc
  exp-Produces (string_exp n x) = build-Produces n (λ m. string_exp m x) λ m e. cc
  exp-Produces (call_exp n f es) =
      then-Produces (collection-Gives as_exp Nodes.exp (λ v. refl) _ (from_exps es) (exps-All es))
        λ vs p.
          let q = exps-same vs es p in build-Produces n (λ m. call_exp m f (to_exps vs)) λ m e. cc
  exp-Produces (op_exp n l o r) =
      then-Produces (recurse-Gives as_exp Nodes.exp (λ v. refl) (exp-Produces l)) λ a p.
        then-Produces (recurse-Gives as_exp Nodes.exp (λ v. refl) (exp-Produces r))
          λ b q. build-Produces n (λ m. op_exp m a o b) λ m e. cc
  exp-Produces (record_exp n t is_) =
      then-Produces (recurse-Gives as_name_ty a_name_ty (λ v. refl) (name_ty-Produces t)) λ a p.
        then-Produces
          (collection-Gives as_init Nodes.field_init (λ v. refl) _ (from_inits is_) (inits-All is_))
          λ vs h.
            let q = inits-same vs is_ h in
            build-Produces n (λ m. record_exp m a (to_inits vs)) λ m e. cc
  exp-Produces (seq_exp n es) =
      then-Produces (collection-Gives as_exp Nodes.exp (λ v. refl) _ (from_exps es) (exps-All es))
        λ vs p.
          let q = exps-same vs es p in build-Produces n (λ m. seq_exp m (to_exps vs)) λ m e. cc
  exp-Produces (assign_exp n v e) =
      then-Produces (recurse-Gives as_var a_var (λ v. refl) (var-Produces v)) λ a p.
        then-Produces (recurse-Gives as_exp Nodes.exp (λ v. refl) (exp-Produces e))
          λ b q. build-Produces n (λ m. assign_exp m a b) λ m e. cc
  exp-Produces (if_exp n c t e) =
      then-Produces (recurse-Gives as_exp Nodes.exp (λ v. refl) (exp-Produces c)) λ a p.
        then-Produces (recurse-Gives as_exp Nodes.exp (λ v. refl) (exp-Produces t)) λ b q.
          then-Produces
            (option-Gives as_exp Nodes.exp (λ v. refl) _ (from_opt_exp e) (opt_exp-Both e))
            λ o h.
              let r = opt_exp-same o e h in
              build-Produces n (λ m. if_exp m a b (to_opt_exp o)) λ m e. cc
  exp-Produces (while_exp n c b) =
      then-Produces (recurse-Gives as_exp Nodes.exp (λ v. refl) (exp-Produces c)) λ a p.
        then-Produces (recurse-Gives as_exp Nodes.exp (λ v. refl) (exp-Produces b))
          λ d q. build-Produces n (λ m. while_exp m a d) λ m e. cc
  exp-Produces (for_exp n d h b) =
      then-Produces (recurse-Gives as_var_dec Nodes.var_dec (λ v. refl) (var_dec-Produces d)) λ v p.
        then-Produces (recurse-Gives as_exp Nodes.exp (λ v. refl) (exp-Produces h)) λ a q.
          then-Produces (recurse-Gives as_exp Nodes.exp (λ v. refl) (exp-Produces b))
            λ c r. build-Produces n (λ m. for_exp m v a c) λ m e. cc
  exp-Produces (break_exp n) = build-Produces n (λ m. break_exp m) λ m e. cc
  exp-Produces (let_exp n cs b) =
      then-Produces
        (recurse-Gives as_chunk_list Nodes.chunk_list (λ v. refl)
          (chunk_list-Produces cs (chunks-All cs)))
        λ ds p.
          then-Produces (recurse-Gives as_exp Nodes.exp (λ v. refl) (exp-Produces b))
            λ a q. build-Produces n (λ m. let_exp m ds a) λ m e. cc
  exp-Produces (array_exp n t k i) =
      then-Produces (recurse-Gives as_name_ty a_name_ty (λ v. refl) (name_ty-Produces t)) λ a p.
        then-Produces (recurse-Gives as_exp Nodes.exp (λ v. refl) (exp-Produces k)) λ b q.
          then-Produces (recurse-Gives as_exp Nodes.exp (λ v. refl) (exp-Produces i))
            λ c r. build-Produces n (λ m. array_exp m a b c) λ m e. cc
  exp-Produces (cast_exp n e t) =
      then-Produces (recurse-Gives as_exp Nodes.exp (λ v. refl) (exp-Produces e)) λ a p.
        then-Produces (recurse-Gives as_ty Nodes.ty (λ v. refl) (ty-Produces t))
          λ b q. build-Produces n (λ m. cast_exp m a b) λ m e. cc

  opt_exp-Both :
      (o : OptExp)
      → Both (λ a y. Produces a Nodes.exp (SameExp y)) (accept_opt_exp cloner o) (from_opt_exp o)
  opt_exp-Both no_exp = tt
  opt_exp-Both (an_exp e) = exp-Produces e

  exps-All :
      (es : Exps)
      → All₂ (λ a y. Produces a Nodes.exp (SameExp y)) (accept_exps cloner es) (from_exps es)
  exps-All no_exps = tt
  exps-All (exps e es) = (exp-Produces e, exps-All es)

  inits-All :
      (is_ : FieldInits)
      → All₂
          (λ a y. Produces a Nodes.field_init (SameInit y))
          (accept_inits cloner is_)
          (from_inits is_)
  inits-All no_inits = tt
  inits-All (inits n x e is_) = (
    then-Produces (recurse-Gives as_exp Nodes.exp (λ v. refl) (exp-Produces e)) (λ v p.
        build-Produces n (λ m. record { node = m; name = x; init = v }) (λ m q. (cc, refl, p))),
    inits-All is_,
  )

  var_dec-Produces : (d : VarDec) → Produces (accept_var_dec cloner d) Nodes.var_dec (SameVarDec d)
  var_dec-Produces (var_dec n x t i) =
      then-Produces (option-Gives as_name_ty a_name_ty (λ v. refl) _ t (opt_name_ty-Both t)) λ u h.
        then-Produces
          (option-Gives as_exp Nodes.exp (λ v. refl) _ (from_opt_exp i) (opt_exp-Both i))
          λ o k.
            let p = opt_name_ty-same u t h in
            let q = opt_exp-same o i k in
            build-Produces n (λ m. var_dec m x u (to_opt_exp o)) λ m e. cc

  vars-All :
      (ds : VarDecs)
      → All₂
          (λ a y. Produces a Nodes.var_dec (SameVarDec y))
          (visits (accept_vars cloner ds))
          (from_vars ds)
  vars-All no_vars = tt
  vars-All (vars (var_dec n x t i) ds) = (var_dec-Produces (var_dec n x t i), vars-All ds)

  functions-All :
      (fs : FunctionDecs)
      → All₂
          (λ a y. Produces a Nodes.function_dec (SameFunctionDec y))
          (visits (accept_functions cloner fs))
          (from_functions fs)
  functions-All no_functions = tt
  functions-All (functions (function_dec n x c ds t b) fs) = (
    then-Produces
        (recurse-Gives as_var_chunk a_formals (λ v. refl) (formals-Produces c ds (vars-All ds)))
        (λ f h.
          then-Produces (option-Gives as_name_ty a_name_ty (λ v. refl) _ t (opt_name_ty-Both t))
            λ u k.
              then-Produces
                (option-Gives as_exp Nodes.exp (λ v. refl) _ (from_opt_exp b) (opt_exp-Both b))
                λ o l.
                  let (g, i) = h in
                  let p = opt_name_ty-same u t k in
                  let q = opt_exp-same o b l in
                  build-Produces n (λ m. function_dec m x f.0 f.1 u (to_opt_exp o)) λ m e. cc),
    functions-All fs,
  )

  chunk-Produces : (c : Chunk) → Produces (accept_chunk cloner c) Nodes.chunk (SameChunk c)
  chunk-Produces (var_chunk n ds) =
      as-Produces formals_chunk (formals-Produces n ds (vars-All ds)) λ f h. let (p, q) = h in cc
  chunk-Produces (function_chunk n fs) =
      then-Produces
        (collection-Gives as_function_dec Nodes.function_dec (λ v. refl) _ (from_functions fs)
          (functions-All fs))
        λ vs p.
          let q = functions-same vs fs p in
          build-Produces n (λ m. function_chunk m (to_functions vs)) λ m e. cc
  chunk-Produces (type_chunk n ts) = type_chunk-Produces n ts

  chunks-All :
      (cs : Chunks)
      → All₂
          (λ a y. Produces a Nodes.chunk (SameChunk y))
          (accept_chunks cloner cs)
          (from_chunks cs)
  chunks-All no_chunks = tt
  chunks-All (chunks c cs) = (chunk-Produces c, chunks-All cs)
