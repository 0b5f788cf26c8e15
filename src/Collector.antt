-- ===== src/Collector.antt =====
-- src/llvmtranslate/escapes-collector.cc: the variables that each function is given from outside,
-- one definition for each `operator()`.
pub mod Grows
pub mod Runs
pub mod Ends
use tiger_compilor.Prelude.{
  ℕ, zero, suc, ◌==◌, String, Bool, true, false, not, Option, none, some, List, [], ◌∷◌,
  if◌then◌else◌, ◌>>=◌,
}
use tiger_compilor.Types.Chains.{contains}
use tiger_compilor.Ast.Syntax.{Node, Chunks}
use tiger_compilor.Ast.Visitor.{Decl, Visitor, accept}
use tiger_compilor.Ast.Default.{Action, skip, ◌⨾◌, each_decl, default_visitor}
use tiger_compilor.Ast.Default

-- The members of the collector. A function that is not in the map has the empty set; the last of
-- the vector is the first of `function_type_stack`.
pub record State : Type 0 where
  pub did_modify : Bool
  pub escaped : ℕ → List ℕ
  pub function_type_stack : List ℕ

-- What the passes before have set on the nodes: the declaration of a use, which is null if the tree
-- is not bound, the type of a function, and whether a variable is escapable.
pub record Tables : Type 0 where
  pub def : ℕ → Option ℕ
  pub function_type : ℕ → ℕ
  pub is_escapable : ℕ → Bool

-- `if (set.insert(v).second) did_modify_ = true;`, where `set` is `escaped_[f]`
unfoldable pub insert_escaped : ℕ → ℕ → State → State
insert_escaped f v s = if contains (s.escaped f) v then s else record s {
  did_modify = true;
  escaped = λ g. if g == f then v ∷ s.escaped f else s.escaped g;
}

-- the loop of `CallExp`
unfoldable pub insert_all : ℕ → List ℕ → State → State
insert_all f [] s = s
insert_all f (v ∷ vs) s = insert_all f vs (insert_escaped f v s)

-- `functionType_stack_.back()`, on a vector that must not be empty
abbrev pub last_function : List ℕ → Option ℕ
last_function [] = none
last_function (f ∷ fs) = some f

unfoldable pub push_function : ℕ → Action State
push_function f s = some (record s { function_type_stack = f ∷ s.function_type_stack })

unfoldable pub pop : List ℕ → State → Option State
pop [] s = none
pop (f ∷ fs) s = some (record s { function_type_stack = fs })

unfoldable pub pop_function : Action State
unfolding pop
pop_function s = pop s.function_type_stack s

-- The loop of `FunctionChunk`; `none` also if the fuel runs out.
unfoldable pub iterate : ℕ → List (Decl (Action State)) → Action State
iterate zero decs s = none
iterate (suc fuel) decs s = elim s.did_modify [
  | true ↦ each_decl decs (record s { did_modify = false }) >>= iterate fuel decs
  | false ↦ some s
]

abbrev pub is_empty : List (Decl (Action State)) → Bool
is_empty [] = true
is_empty (d ∷ ds) = false

module _ (fuel : ℕ) (d : Tables) where
  unfoldable pub function_chunk : Node → List (Decl (Action State)) → Action State
  function_chunk n decs s =
      iterate fuel decs (record s { did_modify = not (is_empty decs) }) >>= λ t.
      some (record t { did_modify = s.did_modify })

  unfoldable pub function_dec :
      Node → String → Action State → Option (Action State) → Option (Action State) → Action State
  function_dec n name formals result body =
      push_function (d.function_type n.address)
      ⨾ Default.function_dec n name formals result body
      ⨾ pop_function

  -- the part of `CallExp` after the visit of the arguments
  unfoldable pub collect_callee : Node → Action State
  collect_callee n s = last_function s.function_type_stack >>= λ current.
      d.def n.address >>= λ called. some (insert_all current (s.escaped (d.function_type called)) s)

  unfoldable pub call_exp : Node → String → List (Action State) → Action State
  call_exp n name args = Default.call_exp n name args ⨾ collect_callee n

  unfoldable pub simple_var : Node → String → Action State
  simple_var n name s = last_function s.function_type_stack >>= λ current.
      d.def n.address >>= λ v. some (if d.is_escapable v then insert_escaped current v s else s)

  abbrev pub collector : Visitor (Action State)
  collector = record default_visitor {
    function_chunk = function_chunk;
    function_dec = function_dec;
    call_exp = call_exp;
    simple_var = simple_var;
  }

  -- `collect_escapes(ast)`: the visit by a new collector, and its map
  unfoldable pub collect_escapes : Chunks → Option (ℕ → List ℕ)
  collect_escapes tree =
      accept collector tree
        (record { did_modify = false; escaped = λ f. []; function_type_stack = [] })
      >>= λ s. some s.escaped
