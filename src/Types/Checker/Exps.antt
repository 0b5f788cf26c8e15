-- ===== src/Types/Checker/Exps.antt =====
-- src/type/type-checker.cc: the operations on the other expressions.
use tiger_compilor.Prelude.{
  ℕ, Bool, true, false, ◌&&◌, Option, none, some, List, [], ◌∷◌, if◌then◌else◌, ◌==◌,
}
use tiger_compilor.Ast.Syntax.{Node, Oper, add, sub, mul, div}
use tiger_compilor.Ast.Default.{Action, skip, ◌⨾◌}
use tiger_compilor.Types.Heap.{TigerType, void, nil, int_instance, string_instance, void_instance}
use tiger_compilor.Types.Compatible.{is_nil}
use tiger_compilor.Types.Checker.Access.{or_void}
use tiger_compilor.Types.Checker.State.{
  error, State, Part, following, get_type, report, set_type, type_default, created_type_default,
  same_type_as, allocating, check_types_of, check_type, check_typables, type_of,
}

unfoldable pub nil_exp : Node → Action State
nil_exp n =
    allocating (nil none) λ a. type_default n.address (some a) ⨾ created_type_default n.address a

unfoldable pub int_exp : Node → Action State
int_exp n = type_default n.address (some int_instance)

unfoldable pub string_exp : Node → Action State
string_exp n = type_default n.address (some string_instance)

abbrev pub is_arithmetic : Oper → Bool
is_arithmetic add = true
is_arithmetic sub = true
is_arithmetic mul = true
is_arithmetic div = true
is_arithmetic _ = false

unfoldable pub op_exp : Node → Part → Oper → Part → Action State
op_exp n left oper right =
    type_of left
    ⨾ type_of right
    ⨾ (if is_arithmetic oper
        then check_type left.node "left operand must be an integer" int_instance
          ⨾ check_type right.node "right operand must be an integer" int_instance
        else check_typables n "left" left "right" right)
    ⨾ type_default n.address (some int_instance)
    ⨾ type_default n.address (some int_instance)

unfoldable pub break_exp : Node → Action State
break_exp n = type_default n.address (some void_instance)

abbrev pub is_void : Option TigerType → Bool
is_void (some void) = true
is_void _ = false

-- `if (!has_else && ...) error(e, "if-then returns non unit");` and the check of two clauses
unfoldable pub check_clauses : Node → Part → Option Part → Action State
check_clauses n thenclause (some elseclause) = check_typables n "then" thenclause "else" elseclause
check_clauses n thenclause none = following (get_type thenclause.node.address) λ t.
    following (λ s. some (is_void (s.heap.deref t)))
      λ b. if b then skip else report (error n.location "if-then returns non unit")

-- the type of an `if` whose first clause is `nil`
unfoldable pub nil_clause : Node → Option Part → Action State
nil_clause n none = set_type n.address (some void_instance)
nil_clause n (some elseclause) =
    following (get_type elseclause.node.address) λ t. set_type n.address (some t)

unfoldable pub type_clauses : Node → Part → Option Part → Action State
type_clauses n thenclause elseclause = following (get_type thenclause.node.address) λ t.
    following (λ s. some (is_nil (s.heap.deref t)))
      λ b. if b then nil_clause n elseclause else set_type n.address (some t)

abbrev pub type_if_present : Option Part → Action State
type_if_present none = skip
type_if_present (some p) = type_of p

unfoldable pub if_exp : Node → Part → Part → Option Part → Action State
if_exp n test thenclause elseclause =
    type_of test
    ⨾ check_type test.node "test is not an integer" int_instance
    ⨾ type_of thenclause
    ⨾ type_if_present elseclause
    ⨾ check_clauses n thenclause elseclause
    ⨾ type_clauses n thenclause elseclause

unfoldable pub while_exp : Node → Part → Part → Action State
while_exp n test body =
    type_of test
    ⨾ type_of body
    ⨾ check_type test.node "test is not an integer" int_instance
    ⨾ check_type body.node "body must be void" void_instance
    ⨾ type_default n.address (some void_instance)
    ⨾ or_void n

-- `var_read_only_.insert` and `var_read_only_.erase`
unfoldable pub set_read_only : ℕ → Bool → Action State
set_read_only a b s =
    some (record s { var_read_only = λ c. if a == c then b else s.var_read_only c })

unfoldable pub for_exp : Node → Part → Part → Part → Action State
for_exp n vardec hi body =
    type_of vardec
    ⨾ check_type vardec.node "index variable must be an integer" int_instance
    ⨾ type_of hi
    ⨾ check_type hi.node "high bound must be an integer" int_instance
    ⨾ set_read_only vardec.node.address true
    ⨾ type_of body
    ⨾ check_type body.node "body must be void" void_instance
    ⨾ set_read_only vardec.node.address false
    ⨾ type_default n.address (some void_instance)
    ⨾ or_void n

unfoldable pub let_exp : Node → Part → Part → Action State
let_exp n chunks body =
    chunks.visit ⨾ type_of body ⨾ same_type_as n.address body.node.address ⨾ or_void n

abbrev pub type_each : List Part → Action State
type_each [] = skip
type_each (p ∷ ps) = type_of p ⨾ type_each ps

-- `exps_get().back()`
abbrev pub back : Part → List Part → Part
back p [] = p
back p (q ∷ qs) = back q qs

unfoldable pub seq_exp : Node → List Part → Action State
seq_exp n [] = type_default n.address (some void_instance)
seq_exp n (p ∷ ps) =
    type_each (p ∷ ps) ⨾ same_type_as n.address (back p ps).node.address ⨾ or_void n

abbrev pub is_read_only : (ℕ → Option ℕ) → Part → State → Bool
is_read_only def var s = elim (def var.node.address) [ none ↦ false | some d ↦ s.var_read_only d ]

-- whether the variable is the index of a loop
unfoldable pub check_index : (ℕ → Option ℕ) → Node → Part → Action State
check_index def n var =
    following (λ s. some (var.is_simple_var && is_read_only def var s))
      λ b. if b then report (error n.location "index variable erroneously assigned to") else skip

unfoldable pub assign_exp : (ℕ → Option ℕ) → Node → Part → Part → Action State
assign_exp def n var e =
    type_of var
    ⨾ type_of e
    ⨾ check_types_of n "variable" var.node.address "expression" e.node.address
    ⨾ check_index def n var
    ⨾ type_default n.address (some void_instance)
    ⨾ or_void n

-- `type` handles no cast.
unfoldable pub cast_exp : Node → Action State
cast_exp n = set_type n.address (some void_instance)
