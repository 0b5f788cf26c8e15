-- ===== src/Bind/Scoping.antt =====
-- The rules of scope that src/bind/binder.cc applies, stated without a stack and without
-- mutation: the meaning of a part of the tree is a function of the environment.
use tiger_compilor.Prelude.{
  ℕ, String, ◌||◌, Option, none, some, List, [], ◌∷◌, ◌++◌, str_eq, if◌then◌else◌,
}
use tiger_compilor.Ast.Syntax.{Node}
use tiger_compilor.Ast.Visitor.{Decl, Visitor}
use tiger_compilor.Bind.State.{Binding, to_function, to_variable, to_type}

-- The declarations in force, by name: one name space each.
pub record Env : Type 0 where
  pub functions : String → Option ℕ
  pub variables : String → Option ℕ
  pub types : String → Option ℕ

abbrev pub update : String → ℕ → (String → Option ℕ) → String → Option ℕ
update x a f y = if str_eq x y then some a else f y

abbrev pub with_function : String → Node → Env → Env
with_function x n ρ = record ρ { functions = update x n.address ρ.functions }

abbrev pub with_variable : String → Node → Env → Env
with_variable x n ρ = record ρ { variables = update x n.address ρ.variables }

abbrev pub with_type : String → Node → Env → Env
with_type x n ρ = record ρ { types = update x n.address ρ.types }

-- The environment for what follows, and the uses bound, in the order of the text.
abbrev pub Meaning : Type 0
Meaning = Env → Env × List Binding

abbrev pub bind_at : (ℕ → ℕ → Binding) → Node → Option ℕ → List Binding
bind_at to n none = []
bind_at to n (some def) = to n.address def ∷ []

-- parts of an expression, all in one environment
abbrev pub each_use : List Meaning → Env → List Binding
each_use [] ρ = []
each_use (m ∷ ms) ρ = (m ρ).1 ++ each_use ms ρ

abbrev pub use_if_present : Option Meaning → Env → List Binding
use_if_present none ρ = []
use_if_present (some m) ρ = (m ρ).1

-- declarations, each in the environment of those before it
abbrev pub each_in_turn : List Meaning → Meaning
each_in_turn [] ρ = (ρ, [])
each_in_turn (m ∷ ms) ρ = ((each_in_turn ms (m ρ).0).0, (m ρ).1 ++ (each_in_turn ms (m ρ).0).1)

abbrev pub each_decl_in_turn : List (Decl Meaning) → Meaning
each_decl_in_turn [] ρ = (ρ, [])
each_decl_in_turn (d ∷ ds) ρ = (
  (each_decl_in_turn ds (d.visit ρ).0).0,
  (d.visit ρ).1 ++ (each_decl_in_turn ds (d.visit ρ).0).1,
)

-- The names of a chunk are in force in all of it; the first declaration of a name counts.
abbrev pub introduce : (String → Node → Env → Env) → List (Decl Meaning) → Env → Env
introduce declare [] ρ = ρ
introduce declare (d ∷ ds) ρ = declare d.name d.node (introduce declare ds ρ)

-- An expression leaves the environment as it was.
abbrev pub pure : (Env → List Binding) → Meaning
pure f ρ = (ρ, f ρ)

abbrev pub let_scope : Meaning → Meaning → Meaning
let_scope chunks body = pure λ ρ. (chunks ρ).1 ++ (body (chunks ρ).0).1

-- The loop variable is in force in both bounds and in the body.
abbrev pub for_scope : Meaning → Meaning → Meaning → Meaning
for_scope vardec hi body = pure λ ρ. (vardec ρ).1 ++ ((hi (vardec ρ).0).1 ++ (body (vardec ρ).0).1)

-- A variable is in force in its own initialiser, and from there on.
abbrev pub var_scope : Node → String → Option Meaning → Option Meaning → Meaning
var_scope n x type_name init ρ =
    let ρ' = with_variable x n ρ in (ρ', use_if_present type_name ρ' ++ use_if_present init ρ')

-- The formals are in force in the result type and in the body.
abbrev pub function_scope : Node → String → Meaning → Option Meaning → Option Meaning → Meaning
function_scope n x formals result body ρ =
    let ρ' = with_function x n ρ in
    let inner = (formals ρ').0 in
    (ρ', (formals ρ').1 ++ (use_if_present result inner ++ use_if_present body inner))

abbrev pub scoping : Visitor Meaning
scoping = record {
  simple_var = λ n x. pure λ ρ. bind_at to_variable n (ρ.variables x);
  field_var = λ n a x. pure λ ρ. (a ρ).1;
  subscript_var = λ n a b. pure λ ρ. (a ρ).1 ++ (b ρ).1;
  nil_exp = λ n. pure λ ρ. [];
  int_exp = λ n k. pure λ ρ. [];
  string_exp = λ n s. pure λ ρ. [];
  call_exp = λ n x args. pure λ ρ. bind_at to_function n (ρ.functions x) ++ each_use args ρ;
  op_exp = λ n a o b. pure λ ρ. (a ρ).1 ++ (b ρ).1;
  record_exp = λ n t fs. pure λ ρ. (t ρ).1 ++ each_use fs ρ;
  field_init = λ n x a. pure λ ρ. (a ρ).1;
  seq_exp = λ n es. pure λ ρ. each_use es ρ;
  assign_exp = λ n a b. pure λ ρ. (a ρ).1 ++ (b ρ).1;
  if_exp = λ n a b c. pure λ ρ. (a ρ).1 ++ ((b ρ).1 ++ use_if_present c ρ);
  while_exp = λ n a b. pure λ ρ. (a ρ).1 ++ (b ρ).1;
  for_exp = λ n d a b. for_scope d a b;
  break_exp = λ n. pure λ ρ. [];
  let_exp = λ n c b. let_scope c b;
  array_exp = λ n t a b. pure λ ρ. (t ρ).1 ++ ((a ρ).1 ++ (b ρ).1);
  cast_exp = λ n a t. pure λ ρ. (a ρ).1 ++ (t ρ).1;
  chunk_list = each_in_turn;
  var_chunk = λ n ds. each_decl_in_turn ds;
  function_chunk = λ n ds ρ. each_decl_in_turn ds (introduce with_function ds ρ);
  type_chunk = λ n ds ρ. each_decl_in_turn ds (introduce with_type ds ρ);
  var_dec = var_scope;
  function_dec = function_scope;
  type_dec = λ n x t ρ. (with_type x n ρ, (t (with_type x n ρ)).1);
  name_ty = λ n x.
      pure λ ρ. if str_eq x "string" || str_eq x "int" then [] else bind_at to_type n (ρ.types x);
  record_ty = λ n fs. pure λ ρ. each_use fs ρ;
  array_ty = λ n t. pure λ ρ. (t ρ).1;
  field = λ n x t. pure λ ρ. (t ρ).1;
}
