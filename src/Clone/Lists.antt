-- ===== src/Clone/Lists.antt =====
-- src/astclone/cloner.hxx: the clones of lists of nodes.
use tiger_compilor.Prelude.{◌≡◌, refl, Option, none, some, List, [], ◌∷◌, All₂, Both}
use tiger_compilor.Ast.Syntax.{
  Exp, OptExp, no_exp, an_exp, Exps, no_exps, exps, FieldInits, no_inits, inits, VarDec, VarDecs,
  no_vars, vars, FunctionDec, FunctionDecs, no_functions, functions, Chunk, Chunks, no_chunks,
  chunks,
}
use tiger_compilor.Clone.Nodes.{Init, to_exps, to_inits, to_vars, to_functions, to_chunks}
use tiger_compilor.Clone.Strip.{
  strip_node, strip_exp, strip_opt_exp, strip_exps, strip_inits, strip_var_dec, strip_vars,
  strip_function_dec, strip_functions, strip_chunk, strip_chunks,
}
use tiger_compilor.Clone.{to_opt_exp}
use tiger_compilor.Clone.Types.{SameExp}

abbrev pub SameInit : Init → Init → Type 0
SameInit i v =
    (strip_node v.node ≡ strip_node i.node)
    × (v.name ≡ i.name)
    × (strip_exp v.init ≡ strip_exp i.init)

abbrev pub SameVarDec : VarDec → VarDec → Type 0
SameVarDec d v = strip_var_dec v ≡ strip_var_dec d

abbrev pub SameFunctionDec : FunctionDec → FunctionDec → Type 0
SameFunctionDec d v = strip_function_dec v ≡ strip_function_dec d

abbrev pub SameChunk : Chunk → Chunk → Type 0
SameChunk c v = strip_chunk v ≡ strip_chunk c

abbrev pub SameChunks : Chunks → Chunks → Type 0
SameChunks c v = strip_chunks v ≡ strip_chunks c

-- The lists that a collection of clones stands beside.
abbrev pub from_exps : Exps → List Exp
from_exps no_exps = []
from_exps (exps e es) = e ∷ from_exps es

abbrev pub from_inits : FieldInits → List Init
from_inits no_inits = []
from_inits (inits n x e is_) = record { node = n; name = x; init = e } ∷ from_inits is_

abbrev pub from_vars : VarDecs → List VarDec
from_vars no_vars = []
from_vars (vars d ds) = d ∷ from_vars ds

abbrev pub from_functions : FunctionDecs → List FunctionDec
from_functions no_functions = []
from_functions (functions d ds) = d ∷ from_functions ds

abbrev pub from_chunks : Chunks → List Chunk
from_chunks no_chunks = []
from_chunks (chunks c cs) = c ∷ from_chunks cs

abbrev pub from_opt_exp : OptExp → Option Exp
from_opt_exp no_exp = none
from_opt_exp (an_exp e) = some e

pub exps-same :
    (xs : List Exp) (ys : Exps)
    → All₂ (λ v y. SameExp y v) xs (from_exps ys)
    → strip_exps (to_exps xs) ≡ strip_exps ys
unfolding strip_exp
exps-same [] no_exps h = refl
exps-same [] (exps y ys) h = absurd h
exps-same (x ∷ xs) no_exps h = absurd h
exps-same (x ∷ xs) (exps y ys) h = let p = h.0 in let q = exps-same xs ys h.1 in cc

pub inits-same :
    (xs : List Init) (ys : FieldInits)
    → All₂ (λ v y. SameInit y v) xs (from_inits ys)
    → strip_inits (to_inits xs) ≡ strip_inits ys
unfolding strip_exp
inits-same [] no_inits h = refl
inits-same [] (inits n x e ys) h = absurd h
inits-same (x ∷ xs) no_inits h = absurd h
inits-same (z ∷ xs) (inits n x e ys) h = let (o, p, r) = h.0 in let q = inits-same xs ys h.1 in cc

pub vars-same :
    (xs : List VarDec) (ys : VarDecs)
    → All₂ (λ v y. SameVarDec y v) xs (from_vars ys)
    → strip_vars (to_vars xs) ≡ strip_vars ys
unfolding strip_exp
vars-same [] no_vars h = refl
vars-same [] (vars y ys) h = absurd h
vars-same (x ∷ xs) no_vars h = absurd h
vars-same (x ∷ xs) (vars y ys) h = let p = h.0 in let q = vars-same xs ys h.1 in cc

pub functions-same :
    (xs : List FunctionDec) (ys : FunctionDecs)
    → All₂ (λ v y. SameFunctionDec y v) xs (from_functions ys)
    → strip_functions (to_functions xs) ≡ strip_functions ys
unfolding strip_exp
functions-same [] no_functions h = refl
functions-same [] (functions y ys) h = absurd h
functions-same (x ∷ xs) no_functions h = absurd h
functions-same (x ∷ xs) (functions y ys) h = let p = h.0 in let q = functions-same xs ys h.1 in cc

pub chunks-same :
    (xs : List Chunk) (ys : Chunks)
    → All₂ (λ v y. SameChunk y v) xs (from_chunks ys)
    → strip_chunks (to_chunks xs) ≡ strip_chunks ys
unfolding strip_exp
chunks-same [] no_chunks h = refl
chunks-same [] (chunks y ys) h = absurd h
chunks-same (x ∷ xs) no_chunks h = absurd h
chunks-same (x ∷ xs) (chunks y ys) h = let p = h.0 in let q = chunks-same xs ys h.1 in cc

pub opt_exp-same :
    (o : Option Exp) (p : OptExp)
    → Both (λ v y. SameExp y v) o (from_opt_exp p)
    → strip_opt_exp (to_opt_exp o) ≡ strip_opt_exp p
unfolding strip_exp
opt_exp-same none no_exp h = refl
opt_exp-same none (an_exp e) h = absurd h
opt_exp-same (some x) no_exp h = absurd h
opt_exp-same (some x) (an_exp e) h = cc
