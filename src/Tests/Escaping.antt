-- ===== src/Tests/Escaping.antt =====
-- The pass of src/escapes on small programs, and its theorem there.
use tiger_compilor.Prelude.{ℕ, Option, false, true, ◌≡◌, refl, some, none}
use mathlib.Core.Option
use tiger_compilor.Misc.ScopedMap.{lookup, insert, put, scope_begin, scope_end, get_last_scope}
use tiger_compilor.Ast.Syntax.{
  var_exp, simple_var, an_exp, int_exp, no_vars, vars, var_dec, function_dec, functions,
  no_functions, function_chunk, var_chunk, Chunks, chunks, no_chunks,
}
use tiger_compilor.Ast.Visitor.{accept, accept_exp}
use tiger_compilor.Ast.Default
use tiger_compilor.Escapes.{State, escapes_compute, use_in_scope, mark_local}
use tiger_compilor.Escapes
use tiger_compilor.Escapes.Marks.{escapes, marks, outside}
use tiger_compilor.Escapes.Follows.{escapes_compute-Marked}
use tiger_compilor.Tests.Programs.{at, loop_program}

-- var x := 0 function f() = x
abbrev inner_use : Chunks
inner_use =
    chunks (var_chunk (at 1) (vars (var_dec (at 3) "x" none (an_exp (int_exp (at 4) 0))) no_vars)) (
      chunks
        (function_chunk (at 2) (
          functions
            (function_dec (at 5) "f" (at 6) no_vars none (an_exp (var_exp (simple_var (at 7) "x"))))
            no_functions))
        no_chunks)

-- each use is of the variable 3
abbrev definitions : ℕ → Option ℕ
definitions a = some 3

-- A use in the function of the variable takes the mark back.
own_use :
    Option.map (λ t. t.escapable 3) (escapes_compute definitions loop_program (λ a. false))
    ≡ some false
unfolding escapes_compute accept accept_exp Default.let_exp Default.chunk_list
    Default.function_chunk Escapes.function_dec Default.function_dec Default.var_chunk
    Escapes.simple_var Escapes.var_dec Default.var_dec Default.int_exp Default.while_exp
    Default.break_exp use_in_scope mark_local Default.simple_var get_last_scope lookup insert put
    scope_begin scope_end
own_use = refl

-- One in an inner function does not.
inner_used :
    Option.map (λ t. t.escapable 3) (escapes_compute definitions inner_use (λ a. false)) ≡ some true
unfolding escapes_compute accept accept_exp Default.chunk_list Default.function_chunk
    Escapes.function_dec Default.function_dec Default.var_chunk Escapes.simple_var Escapes.var_dec
    Default.var_dec Default.int_exp use_in_scope Default.simple_var get_last_scope lookup insert put
    scope_begin scope_end
inner_used = refl

escapes_compute-Marked_example :
    (t : State) × (escapes_compute definitions loop_program (λ a. false) ≡ some t)
    × ((a : ℕ) → t.escapable a ≡ escapes definitions (accept marks loop_program outside).1 a false)
unfolding accept accept_exp
escapes_compute-Marked_example =
    escapes_compute-Marked definitions loop_program (λ a. false) ((3, refl), tt)
