-- ===== src/Escapes.antt =====
-- src/escapes/escapes-visitor.cc: which variables are marked as escapable.
pub mod Marks
pub mod Follows
use tiger_compilor.Prelude.{
  ℕ, String, Bool, true, false, Option, none, some, if◌then◌else◌, ◌==◌, ◌>>=◌,
}
use tiger_compilor.Misc.ScopedMap.{
  ScopedMap, empty, lookup, scope_begin, scope_end, put, get_last_scope,
}
use tiger_compilor.Ast.Syntax.{Node, Chunks}
use tiger_compilor.Ast.Visitor.{Visitor, accept}
use tiger_compilor.Ast.Default.{Action, ◌⨾◌, default_visitor}
use tiger_compilor.Ast.Default

-- The members of the visitor, and `escapable_` of every declaration by its address.
pub record State : Type 0 where
  pub scoped_map : ScopedMap Bool
  pub in_primitive : Bool
  pub escapable : ℕ → Bool

-- `e.is_escapable_set(b)`
abbrev pub is_escapable_set : ℕ → Bool → Action State
is_escapable_set a b s = some (record s { escapable = λ c. if a == c then b else s.escapable c })

abbrev pub put_name : String → Action State
put_name x s = put x false s.scoped_map >>= λ m. some (record s { scoped_map = m })

abbrev pub begin_scope : Action State
begin_scope s = some (record s { scoped_map = scope_begin s.scoped_map })

abbrev pub end_scope : Action State
end_scope s = scope_end s.scoped_map >>= λ m. some (record s { scoped_map = m })

-- The declarations that the binder has set.
module _ (def : ℕ → Option ℕ) where
  -- `e.def_get()` is followed only when the name is in the current scope; `none` is a null one.
  unfoldable pub mark_local : Node → Action State
  mark_local n s = def n.address >>= λ d. is_escapable_set d false s

  -- the body of `SimpleVar`, by the entry of the name in the current scope
  unfoldable pub use_in_scope : Node → String → Option Bool → Action State
  unfolding mark_local
  use_in_scope n x none = Default.simple_var n x
  use_in_scope n x (some b) = mark_local n ⨾ Default.simple_var n x

  unfoldable pub simple_var : Node → String → Action State
  unfolding use_in_scope
  simple_var n x s = get_last_scope s.scoped_map >>= λ scope. use_in_scope n x (lookup x scope) s

  unfoldable pub var_dec :
      Node → String → Option (Action State) → Option (Action State) → Action State
  var_dec n x type_name init s =
      (is_escapable_set n.address (if s.in_primitive then false else true)
          ⨾ put_name x
          ⨾ Default.var_dec n x type_name init)
        s

  -- `if (e.body_get() == nullptr) in_primitive = true;`
  abbrev pub enter_primitive : Option (Action State) → Action State
  enter_primitive none s = some (record s { in_primitive = true })
  enter_primitive (some body) s = some s

  abbrev pub leave_primitive : Action State
  leave_primitive s = some (record s { in_primitive = false })

  unfoldable pub function_dec :
      Node → String → Action State → Option (Action State) → Option (Action State) → Action State
  function_dec n x formals result body =
      begin_scope
      ⨾ enter_primitive body
      ⨾ Default.function_dec n x formals result body
      ⨾ leave_primitive
      ⨾ end_scope

  abbrev pub escapes_visitor : Visitor (Action State)
  escapes_visitor = record default_visitor {
    simple_var = simple_var;
    var_dec = var_dec;
    function_dec = function_dec;
  }

  unfoldable pub escapes_compute : Chunks → (ℕ → Bool) → Option State
  escapes_compute tree escapable =
      accept escapes_visitor tree
        (record { scoped_map = empty; in_primitive = false; escapable = escapable })
