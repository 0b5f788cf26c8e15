-- ===== src/Tests/Typing.antt =====
-- The type checker of src/type on small programs, and its theorems there.
use tiger_compilor.Prelude.{ℕ, false, ◌≡◌, refl, Option, some, none, [], ◌∷◌, if◌then◌else◌, ◌==◌}
use tiger_compilor.Ast.Syntax.{
  Exp, int_exp, string_exp, op_exp, add, an_exp, var_dec, no_vars, vars, var_chunk, Chunks, chunks,
  no_chunks,
}
use tiger_compilor.Ast.Visitor.{accept, accept_exp}
use tiger_compilor.Types.Heap.{builtins}
use tiger_compilor.Types.Checker.State.{
  State, error, following, report, type_of, check_type, set_type, type_default, same_type_as,
}
use tiger_compilor.Types.Compatible.{compatible_with, compatible_fuel, compatible_of, same_type}
use tiger_compilor.Types.Named.{actual, actual_fuel, actual_of}
use tiger_compilor.Types.Checker.Exps
use tiger_compilor.Types.Checker.Decs
use tiger_compilor.Types.Checker.Walk.{type_checker, types_check, init}
use tiger_compilor.Types.Checker.Owned.{Owned, Grown}
use tiger_compilor.Types.Checker.Safe.{types_check-Owned, type_of-Owned, init-Owned}
use tiger_compilor.Tests.Programs.{at}

abbrev no_definitions : ℕ → Option ℕ
no_definitions a = none

-- 1 + "a"
abbrev bad_sum : Exp
bad_sum = op_exp (at 1) (int_exp (at 2) 1) add (string_exp (at 3) "a")

-- One error, and the string counts as an integer from then on.
abbrev bad_sum_checked : State
bad_sum_checked = record init {
  errors = error 3 "right operand must be an integer" ∷ [];
  types = λ a.
      if 1 == a
      then some 0
      else if 3 == a
      then some 0
      else if 3 == a
      then some 1
      else if 2 == a
      then some 0
      else none;
}

type_of-bad_sum :
    type_of (accept_exp (type_checker no_definitions) bad_sum) init ≡ some bad_sum_checked
unfolding type_of accept_exp type_checker Exps.op_exp Exps.int_exp Exps.string_exp type_default
    set_type following check_type report compatible_with compatible_fuel compatible_of same_type
    actual actual_fuel actual_of builtins
type_of-bad_sum = refl

type_of-Owned_example : Owned bad_sum_checked × Grown init bad_sum_checked
type_of-Owned_example =
    type_of-Owned no_definitions bad_sum init bad_sum_checked init-Owned type_of-bad_sum

-- var x := 1
abbrev one_variable : Chunks
one_variable =
    chunks (var_chunk (at 1) (vars (var_dec (at 2) "x" none (an_exp (int_exp (at 3) 1))) no_vars))
      no_chunks

abbrev one_variable_checked : State
one_variable_checked = record init {
  types = λ a. if 2 == a then some 0 else if 3 == a then some 0 else none;
}

types_check-one_variable : types_check no_definitions one_variable ≡ some one_variable_checked
unfolding types_check accept type_checker Exps.int_exp Decs.var_dec Decs.check_nil type_of
    type_default set_type same_type_as following builtins
types_check-one_variable = refl

types_check-Owned_example :
    Owned one_variable_checked × ((a : ℕ) → one_variable_checked.var_read_only a ≡ false)
types_check-Owned_example =
    types_check-Owned no_definitions one_variable one_variable_checked types_check-one_variable
