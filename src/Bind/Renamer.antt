-- ===== src/Bind/Renamer.antt =====
-- src/bind/renamer.cc: the `Renamer`, which changes names in place.
pub mod Laws
pub mod Steps
pub mod Names
use tiger_compilor.Prelude.{
  ℕ, ◌+◌, String, Bool, not, ◌&&◌, Option, none, some, List, str_eq, str_append, if◌then◌else◌,
  ◌==◌,
}
use tiger_compilor.Prelude.Decimal.{to_string}
use tiger_compilor.Ast.Syntax.{Node, Chunks}
use tiger_compilor.Ast.Visitor.{Visitor, accept}
use tiger_compilor.Ast.Default.{Action, skip, ◌⨾◌, default_visitor}
use tiger_compilor.Ast.Default

-- `unique_number_`, and the member `name_` of every node by its address.
pub record State : Type 0 where
  pub unique_number : ℕ
  pub name : ℕ → String

-- `e.name_set(name)`
abbrev pub name_set : ℕ → String → State → State
name_set a x s = record s { name = λ b. if a == b then x else s.name b }

abbrev pub unique_name : String → ℕ → String
unique_name old k = str_append old (str_append "_" (to_string k))

-- `e.name_set(old_name + "_" + std::to_string(unique_number_++))`
unfoldable pub rename : Node → Action State
rename n s = some (
    name_set n.address (unique_name (s.name n.address) s.unique_number)
      (record s { unique_number = s.unique_number + 1 }))

abbrev pub is_present : Option (Action State) → Bool
is_present none = Bool.false
is_present (some a) = Bool.true

unfoldable pub function_dec :
    Node → String → Action State → Option (Action State) → Option (Action State) → Action State
function_dec n x formals result body s =
    (if is_present body && not (str_eq (s.name n.address) "_main")
      then (rename n ⨾ Default.function_dec n x formals result body) s
      else Default.function_dec n x formals result body s)

unfoldable pub type_dec : Node → String → Action State → Action State
type_dec n x ty = rename n ⨾ Default.type_dec n x ty

unfoldable pub var_dec :
    Node → String → Option (Action State) → Option (Action State) → Action State
var_dec n x type_name init = rename n ⨾ Default.var_dec n x type_name init

-- The declarations that the binder has set: `def_` of every node by its address.
module _ (def : ℕ → Option ℕ) where
  -- `if (e.def_get() != nullptr) e.name_set(e.def_get()->name_get());`
  unfoldable pub rename_use : Node → Action State
  rename_use n s = elim (def n.address) [
    | some d ↦ some (name_set n.address (s.name d) s)
    | none ↦ some s
  ]

  unfoldable pub call_exp : Node → String → List (Action State) → Action State
  call_exp n x args = rename_use n ⨾ Default.call_exp n x args

  unfoldable pub name_ty : Node → String → Action State
  name_ty n x = rename_use n

  unfoldable pub simple_var : Node → String → Action State
  simple_var n x = rename_use n

  abbrev pub renamer : Visitor (Action State)
  renamer = record default_visitor {
    simple_var = simple_var;
    call_exp = call_exp;
    function_dec = function_dec;
    type_dec = type_dec;
    var_dec = var_dec;
    name_ty = name_ty;
  }

  -- Renaming of a whole program, from the fresh `Renamer`, over the names of its nodes.
  unfoldable pub rename_program : Chunks → (ℕ → String) → Option State
  rename_program tree names = accept renamer tree (record { unique_number = 0; name = names })
