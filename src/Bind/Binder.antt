-- ===== src/Bind/Binder.antt =====
-- src/bind/binder.cc: the `Binder`, which overrides operations of the default visitor.
use tiger_compilor.Prelude.{
  ℕ, String, true, false, ◌||◌, Option, none, some, List, [], ◌∷◌, str_eq, if◌then◌else◌, ◌>>=◌,
}
use tiger_compilor.Misc.ScopedMap.{lookup, get, insert}
use tiger_compilor.Ast.Syntax.{Node, Chunks}
use tiger_compilor.Ast.Visitor.{Decl, Visitor, accept}
use tiger_compilor.Ast.Default.{Action, skip, ◌⨾◌, each, if_present, each_decl, default_visitor}
use tiger_compilor.Ast.Default
use tiger_compilor.Bind.State.{
  Error, break_outside_loop, break_in_condition, break_in_var_dec, break_in_call, redeclared_main,
  undeclared_function, undeclared_type, undeclared_variable, redeclared_type, redeclared_function,
  redeclared_formal, main_undefined, to_function, to_variable, to_type, State, init, report,
  set_def, set_break, put_function, put_variable, put_type, begin_functions, begin_variables,
  begin_types, end_functions, end_variables, end_types, set_in_loop, set_in_formals, set_in_vardec,
  push_loop, pop_loop,
}

-- the body of `BreakExp`, by the loops that are open
unfoldable pub bind_break : Node → List ℕ → Action State
bind_break n [] s = report (break_outside_loop n.location) s
bind_break n (loop ∷ outer) s =
    if s.in_loop
    then report (break_in_condition n.location) s
    else if s.in_vardec
    then report (break_in_var_dec n.location) s
    else if s.in_formals
    then report (break_in_call n.location) s
    else set_break n.address loop s

unfoldable pub break_exp : Node → Action State
unfolding bind_break
break_exp n s = bind_break n s.loop_stack s

-- the lookup of `CallExp`, with its `catch`
unfoldable pub bind_function : Node → String → Action State
bind_function n x s = elim (get x s.functions) [
  | some def ↦ set_def (to_function n.address def) s
  | none ↦ report (undeclared_function n.location x) s
]

unfoldable pub call_exp : Node → String → List (Action State) → Action State
call_exp n x args = bind_function n x ⨾ set_in_formals true ⨾ each args ⨾ set_in_formals false

unfoldable pub bind_type : Node → String → Action State
bind_type n x s = elim (get x s.types) [
  | some def ↦ set_def (to_type n.address def) s
  | none ↦ report (undeclared_type n.location x) s
]

unfoldable pub name_ty : Node → String → Action State
name_ty n x = if str_eq x "string" || str_eq x "int" then skip else bind_type n x

unfoldable pub simple_var : Node → String → Action State
simple_var n x s = elim (get x s.variables) [
  | some def ↦ set_def (to_variable n.address def) s
  | none ↦ report (undeclared_variable n.location x) s
]

-- the first statement of `FunctionDec`
unfoldable pub check_main : Node → String → Action State
check_main n x s =
    if str_eq x "_main"
    then (if s.is_main_defined
        then report (redeclared_main n.location) s
        else some (record s { is_main_defined = true }))
    else some s

unfoldable pub function_dec :
    Node → String → Action State → Option (Action State) → Option (Action State) → Action State
function_dec n x formals result body =
    check_main n x
    ⨾ put_function x n
    ⨾ begin_functions
    ⨾ begin_variables
    ⨾ set_in_formals true
    ⨾ formals
    ⨾ set_in_formals false
    ⨾ if_present result
    ⨾ if_present body
    ⨾ end_functions
    ⨾ end_variables

unfoldable pub type_dec : Node → String → Action State → Action State
type_dec n x ty = put_type x n ⨾ Default.type_dec n x ty

unfoldable pub var_dec :
    Node → String → Option (Action State) → Option (Action State) → Action State
var_dec n x type_name e =
    put_variable x n
    ⨾ if_present type_name
    ⨾ set_in_vardec true
    ⨾ if_present e
    ⨾ set_in_vardec false

unfoldable pub let_exp : Node → Action State → Action State → Action State
let_exp n chunks body =
    begin_functions
    ⨾ begin_variables
    ⨾ begin_types
    ⨾ Default.let_exp n chunks body
    ⨾ end_functions
    ⨾ end_variables
    ⨾ end_types

unfoldable pub for_exp : Node → Action State → Action State → Action State → Action State
for_exp n vardec hi body =
    begin_variables
    ⨾ push_loop n.address
    ⨾ set_in_loop true
    ⨾ vardec
    ⨾ hi
    ⨾ set_in_loop false
    ⨾ body
    ⨾ end_variables
    ⨾ pop_loop

unfoldable pub while_exp : Node → Action State → Action State → Action State
while_exp n test body =
    begin_variables
    ⨾ push_loop n.address
    ⨾ set_in_loop true
    ⨾ test
    ⨾ set_in_loop false
    ⨾ body
    ⨾ end_variables
    ⨾ pop_loop

-- The first loop of a chunk: `seen` is the local `map`, with the first declaration of each name.
module _ (chunk : Node) (redeclared : ℕ → String → ℕ → Error)
    (declare : String → Node → Action State) where
  unfoldable pub declare_first : List (String × Node) → List (Decl (Action State)) → Action State
  declare_first seen [] s = some s
  declare_first seen (d ∷ ds) s = elim (lookup d.name seen) [
    | some first ↦
        report (redeclared chunk.location d.name first.location) s >>= declare_first seen ds
    | none ↦ declare d.name d.node s >>= declare_first (insert d.name d.node seen) ds
  ]

unfoldable pub type_chunk : Node → List (Decl (Action State)) → Action State
type_chunk n decs = declare_first n redeclared_type put_type [] decs ⨾ each_decl decs

unfoldable pub function_chunk : Node → List (Decl (Action State)) → Action State
function_chunk n decs = declare_first n redeclared_function put_function [] decs ⨾ each_decl decs

unfoldable pub var_chunk : Node → List (Decl (Action State)) → Action State
var_chunk n decs = declare_first n redeclared_formal (λ x d. skip) [] decs ⨾ each_decl decs

abbrev pub binder : Visitor (Action State)
binder = record default_visitor {
  simple_var = simple_var;
  call_exp = call_exp;
  while_exp = while_exp;
  for_exp = for_exp;
  break_exp = break_exp;
  let_exp = let_exp;
  var_chunk = var_chunk;
  function_chunk = function_chunk;
  type_chunk = type_chunk;
  var_dec = var_dec;
  function_dec = function_dec;
  type_dec = type_dec;
  name_ty = name_ty;
}

unfoldable pub check_error_main_undefined : Action State
check_error_main_undefined s = if s.is_main_defined then some s else report main_undefined s

-- How the pass ends: `exit_on_error` throws the error if there is any.
pub data Outcome : Type 0 where
  bound : State → Outcome
  exit : List Error → Outcome

unfoldable pub exit_on_error : State → Outcome
exit_on_error s = elim s.errors [ [] ↦ bound s | e ∷ es ↦ exit (e ∷ es) ]

-- `none` is an exception of the containers.
unfoldable pub bindings_compute : Chunks → Option Outcome
bindings_compute tree =
    (accept binder tree ⨾ check_error_main_undefined) init >>= λ s. some (exit_on_error s)
