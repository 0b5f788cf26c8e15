-- ===== src/Clone/Nodes.antt =====
-- src/astclone/cloner.hh and cloner.hxx: the state of the `Cloner`, and how it visits a part.
use tiger_compilor.Prelude.{ℕ, ◌+◌, String, Option, none, some, List, [], ◌∷◌, ◌>>=◌}
use tiger_compilor.Ast.Syntax.{
  Node, NameTy, Field, Ty, name_ty, TypeDec, Var, Exp, var_exp, Exps, no_exps, exps, FieldInits,
  no_inits, inits, VarDec, VarDecs, no_vars, vars, FunctionDec, FunctionDecs, no_functions,
  functions, Chunk, var_chunk, Chunks, no_chunks, chunks,
}
use tiger_compilor.Ast.Visitor.{Decl}
use tiger_compilor.Ast.Default.{Action}

-- `ast::FieldInit`
pub record Init : Type 0 where
  pub node : Node
  pub name : String
  pub init : Exp

-- An `ast::Ast*`: a node of any class.
pub data Any : Type 0 where
  exp : Exp → Any
  ty : Ty → Any
  field : Field → Any
  field_init : Init → Any
  var_dec : VarDec → Any
  function_dec : FunctionDec → Any
  type_dec : TypeDec → Any
  chunk : Chunk → Any
  chunk_list : Chunks → Any

-- `dynamic_cast<T*>(result_)`; `none` is a null pointer.
abbrev pub as_exp : Any → Option Exp
as_exp (exp e) = some e
as_exp _ = none

abbrev pub as_var : Any → Option Var
as_var (exp (var_exp v)) = some v
as_var _ = none

abbrev pub as_ty : Any → Option Ty
as_ty (ty t) = some t
as_ty _ = none

abbrev pub as_name_ty : Any → Option NameTy
as_name_ty (ty (name_ty n)) = some n
as_name_ty _ = none

abbrev pub as_field : Any → Option Field
as_field (field f) = some f
as_field _ = none

abbrev pub as_init : Any → Option Init
as_init (field_init i) = some i
as_init _ = none

abbrev pub as_var_dec : Any → Option VarDec
as_var_dec (var_dec d) = some d
as_var_dec _ = none

abbrev pub as_function_dec : Any → Option FunctionDec
as_function_dec (function_dec d) = some d
as_function_dec _ = none

abbrev pub as_type_dec : Any → Option TypeDec
as_type_dec (type_dec d) = some d
as_type_dec _ = none

abbrev pub as_chunk : Any → Option Chunk
as_chunk (chunk c) = some c
as_chunk _ = none

abbrev pub as_var_chunk : Any → Option (Node × VarDecs)
as_var_chunk (chunk (var_chunk n ds)) = some (n, ds)
as_var_chunk _ = none

abbrev pub as_chunk_list : Any → Option Chunks
as_chunk_list (chunk_list cs) = some cs
as_chunk_list _ = none

-- `result_`, and the address that `new` gives next.
pub record State : Type 0 where
  pub result : Option Any
  pub next : ℕ

-- A part of an operation that gives a value; `none` is an assertion that fails.
abbrev pub Part : Type 0 → Type 0
Part T = State → Option (T × State)

infixr 6 ◌▹◌
abbrev pub ◌▹◌ : {T : Type 0} → Part T → (T → Action State) → Action State
◌▹◌ p f s = p s >>= λ r. f r.0 r.1

-- `Cloner::recurse` of a reference and of a pointer
unfoldable pub recurse : {T : Type 0} → (Any → Option T) → Action State → Part T
recurse cast visit s = visit s >>= λ t. t.result >>= λ y. cast y >>= λ v. some (v, t)

unfoldable pub recurse_option :
    {T : Type 0} → (Any → Option T) → Option (Action State) → Part (Option T)
unfolding recurse
recurse_option cast none s = some (none, s)
recurse_option cast (some visit) s = recurse cast visit s >>= λ r. some (some r.0, r.1)

-- `Cloner::recurse_collection`, and the loop of `Cloner::chunk_visit`
unfoldable pub recurse_collection :
    {T : Type 0} → (Any → Option T) → List (Action State) → Part (List T)
unfolding recurse
recurse_collection cast [] s = some ([], s)
recurse_collection cast (visit ∷ rest) s =
    recurse cast visit s >>= λ r. recurse_collection cast rest r.1 >>= λ q. some (r.0 ∷ q.0, q.1)

-- `result_ = new ...(location, ...)`
unfoldable pub build : Node → (Node → Any) → Action State
build n f s = some (record {
  result = some (f (record { address = s.next; location = n.location }));
  next = s.next + 1;
})

abbrev pub visits : List (Decl (Action State)) → List (Action State)
visits [] = []
visits (d ∷ ds) = d.visit ∷ visits ds

-- The lists of the nodes.
abbrev pub to_exps : List Exp → Exps
to_exps [] = no_exps
to_exps (e ∷ es) = exps e (to_exps es)

abbrev pub to_inits : List Init → FieldInits
to_inits [] = no_inits
to_inits (i ∷ is_) = inits i.node i.name i.init (to_inits is_)

abbrev pub to_vars : List VarDec → VarDecs
to_vars [] = no_vars
to_vars (d ∷ ds) = vars d (to_vars ds)

abbrev pub to_functions : List FunctionDec → FunctionDecs
to_functions [] = no_functions
to_functions (d ∷ ds) = functions d (to_functions ds)

abbrev pub to_chunks : List Chunk → Chunks
to_chunks [] = no_chunks
to_chunks (c ∷ cs) = chunks c (to_chunks cs)
