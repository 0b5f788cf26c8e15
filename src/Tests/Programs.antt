-- ===== src/Tests/Programs.antt =====
-- Small programs of Tiger, as trees.
use tiger_compilor.Prelude.{ℕ, none}
use tiger_compilor.Ast.Syntax.{
  Node, simple_var, Exp, var_exp, int_exp, call_exp, seq_exp, while_exp, for_exp, break_exp,
  let_exp, an_exp, no_exps, var_dec, no_vars, vars, function_dec, no_functions, functions,
  var_chunk, function_chunk, Chunks, no_chunks, chunks,
}

abbrev pub at : ℕ → Node
at a = record { address = a; location = a }

-- function _main() = let var x := 0 in while x do break end
abbrev pub loop_program : Chunks
loop_program =
    chunks
      (function_chunk (at 10) (
        functions
          (function_dec (at 1) "_main" (at 11) no_vars none (
            an_exp (
              let_exp (at 2)
                (chunks
                  (var_chunk (at 12)
                    (vars (var_dec (at 3) "x" none (an_exp (int_exp (at 4) 0))) no_vars))
                  no_chunks)
                (while_exp (at 5) (var_exp (simple_var (at 6) "x")) (break_exp (at 7))))))
          no_functions))
      no_chunks

-- var x := x
abbrev pub self_program : Chunks
self_program =
    chunks
      (var_chunk (at 10)
        (vars (var_dec (at 1) "x" none (an_exp (var_exp (simple_var (at 2) "x")))) no_vars))
      no_chunks

-- for i := 0 to i do ()
abbrev pub bound_in_bound : Exp
bound_in_bound =
    for_exp (at 1) (var_dec (at 2) "i" none (an_exp (int_exp (at 3) 0)))
      (var_exp (simple_var (at 4) "i")) (seq_exp (at 5) no_exps)

-- while 1 do let function f() = break in f() end
abbrev pub break_in_function : Exp
break_in_function = while_exp (at 1) (int_exp (at 2) 1) (
    let_exp (at 3)
      (chunks
        (function_chunk (at 4) (
          functions (function_dec (at 5) "f" (at 6) no_vars none (an_exp (break_exp (at 7))))
            no_functions))
        no_chunks)
      (call_exp (at 8) "f" no_exps))

-- var y := while 1 do break
abbrev pub loop_in_vardec : Chunks
loop_in_vardec =
    chunks
      (var_chunk (at 10) (
        vars
          (var_dec (at 1) "y" none
            (an_exp (while_exp (at 2) (int_exp (at 3) 1) (break_exp (at 4)))))
          no_vars))
      no_chunks

-- function f() = g()  function g() = ()
abbrev pub forward_call : Chunks
forward_call =
    chunks
      (function_chunk (at 10) (
        functions
          (function_dec (at 1) "f" (at 11) no_vars none (an_exp (call_exp (at 2) "g" no_exps)))
          (functions
            (function_dec (at 3) "g" (at 12) no_vars none (an_exp (seq_exp (at 4) no_exps)))
            no_functions)))
      no_chunks
