-- ===== src/Bind/State.antt =====
-- src/bind/binder.hh: the members of the `Binder`, and the annotations and errors that it leaves.
use tiger_compilor.Prelude.{ℕ, String, Bool, false, Option, some, List, [], ◌∷◌, ◌++◌, ◌>>=◌}
use tiger_compilor.Misc.ScopedMap.{ScopedMap, empty, scope_begin, scope_end, put}
use tiger_compilor.Ast.Syntax.{Node}
use tiger_compilor.Ast.Default.{Action}

-- A message on the error stream of the pass, with the locations and names that it prints.
pub data Error : Type 0 where
  break_outside_loop break_in_condition break_in_var_dec break_in_call redeclared_main : ℕ → Error
  undeclared_function undeclared_type undeclared_variable : ℕ → String → Error
  redeclared_type redeclared_function redeclared_formal : ℕ → String → ℕ → Error
  main_undefined : Error

-- `e.def_set(def)`: the address of the use, and that of the declaration
pub data Binding : Type 0 where
  to_function to_variable to_type : ℕ → ℕ → Binding

pub record State : Type 0 where
  pub functions : ScopedMap ℕ
  pub variables : ScopedMap ℕ
  pub types : ScopedMap ℕ
  -- the head is the back of `loop_stack_`
  pub loop_stack : List ℕ
  pub is_main_defined : Bool
  pub in_loop : Bool
  pub in_formals : Bool
  pub in_vardec : Bool
  -- what the pass has written, oldest first: on uses of names, on `break`s, and on the stream
  pub bindings : List Binding
  pub breaks : List (ℕ × ℕ)
  pub errors : List Error

-- The constructor of `Binder`.
abbrev pub init : State
init = record {
  functions = empty;
  variables = empty;
  types = empty;
  loop_stack = [];
  is_main_defined = false;
  in_loop = false;
  in_formals = false;
  in_vardec = false;
  bindings = [];
  breaks = [];
  errors = [];
}

abbrev pub report : Error → Action State
report e s = some (record s { errors = s.errors ++ e ∷ [] })

abbrev pub set_def : Binding → Action State
set_def b s = some (record s { bindings = s.bindings ++ b ∷ [] })

abbrev pub set_break : ℕ → ℕ → Action State
set_break n loop s = some (record s { breaks = s.breaks ++ (n, loop) ∷ [] })

abbrev pub put_function : String → Node → Action State
put_function x n s = put x n.address s.functions >>= λ m. some (record s { functions = m })

abbrev pub put_variable : String → Node → Action State
put_variable x n s = put x n.address s.variables >>= λ m. some (record s { variables = m })

abbrev pub put_type : String → Node → Action State
put_type x n s = put x n.address s.types >>= λ m. some (record s { types = m })

abbrev pub begin_functions : Action State
begin_functions s = some (record s { functions = scope_begin s.functions })

abbrev pub begin_variables : Action State
begin_variables s = some (record s { variables = scope_begin s.variables })

abbrev pub begin_types : Action State
begin_types s = some (record s { types = scope_begin s.types })

abbrev pub end_functions : Action State
end_functions s = scope_end s.functions >>= λ m. some (record s { functions = m })

abbrev pub end_variables : Action State
end_variables s = scope_end s.variables >>= λ m. some (record s { variables = m })

abbrev pub end_types : Action State
end_types s = scope_end s.types >>= λ m. some (record s { types = m })

abbrev pub set_in_loop : Bool → Action State
set_in_loop b s = some (record s { in_loop = b })

abbrev pub set_in_formals : Bool → Action State
set_in_formals b s = some (record s { in_formals = b })

abbrev pub set_in_vardec : Bool → Action State
set_in_vardec b s = some (record s { in_vardec = b })

abbrev pub push_loop : ℕ → Action State
push_loop a s = some (record s { loop_stack = a ∷ s.loop_stack })

-- `pop_back()` wants a loop.
abbrev pub pop_loop : Action State
pop_loop s = elim s.loop_stack [
  | [] ↦ Option.none
  | a ∷ rest ↦ some (record s { loop_stack = rest })
]
