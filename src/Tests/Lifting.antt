-- ===== src/Tests/Lifting.antt =====
-- The collector of escaped variables of src/llvmtranslate on small programs.
use tiger_compilor.Prelude.{
  ℕ, ◌≡◌, refl, true, none, some, List, [], ◌∷◌, ◌>>=◌, if◌then◌else◌, ◌==◌, arith,
}
use tiger_compilor.Types.Chains.{contains, Distinct}
use tiger_compilor.Ast.Syntax.{
  Chunks, chunks, no_chunks, function_chunk, functions, no_functions, function_dec, vars, no_vars,
  var_dec, var_chunk, an_exp, int_exp, let_exp, no_exps, call_exp, var_exp, simple_var,
}
use tiger_compilor.Ast.Visitor.{accept, accept_exp}
use tiger_compilor.Ast.Default
use tiger_compilor.Collector.Grows.{Escaping}
use tiger_compilor.Collector.Runs.{Numbered}
use tiger_compilor.Collector.Ends.{collect_escapes-Ends}
use tiger_compilor.Collector.{
  State, Tables, insert_escaped, insert_all, push_function, pop_function, pop, iterate,
  collect_callee, collect_escapes,
}
use tiger_compilor.Collector
use tiger_compilor.Tests.Programs.{at}

-- function _main() = let var x := 0 function f() = g() function g() = x in f() end
abbrev mutual_program : Chunks
mutual_program =
    chunks
      (function_chunk (at 20) (
        functions
          (function_dec (at 0) "_main" (at 21) no_vars none (
            an_exp (
              let_exp (at 4)
                (chunks
                  (var_chunk (at 22)
                    (vars (var_dec (at 3) "x" none (an_exp (int_exp (at 5) 0))) no_vars))
                  (chunks
                    (function_chunk (at 23) (
                      functions
                        (function_dec (at 1) "f" (at 24) no_vars none
                          (an_exp (call_exp (at 6) "g" no_exps)))
                        (functions
                          (function_dec (at 2) "g" (at 25) no_vars none
                            (an_exp (var_exp (simple_var (at 7) "x"))))
                          no_functions)))
                    no_chunks))
                (call_exp (at 8) "f" no_exps))))
          no_functions))
      no_chunks

-- The call at 6 is of g, that at 8 of f, and all other uses are of x.
abbrev bound : Tables
bound = record {
  def = λ a. some (if a == 6 then 2 else if a == 8 then 1 else 3);
  function_type = λ a. if a == 0 then 0 else if a == 1 then 1 else 2;
  is_escapable = λ v. true;
}

-- f has what g has, although it comes before it; so has `_main`, where x is declared.
collected :
    (collect_escapes 14 bound mutual_program >>= λ e. some (e 0 ∷ e 1 ∷ e 2 ∷ []))
    ≡ some ((3 ∷ []) ∷ (3 ∷ []) ∷ (3 ∷ []) ∷ [])
unfolding collect_escapes accept accept_exp Collector.function_chunk Collector.function_dec
    Collector.call_exp Collector.simple_var collect_callee insert_escaped insert_all push_function
    pop_function pop iterate contains Default.function_dec Default.call_exp Default.let_exp
    Default.int_exp Default.var_chunk Default.var_dec Default.chunk_list
collected = refl

bound-Numbered : Numbered bound 3 4
bound-Numbered = record { function_type = λ a. ground arith; def = λ a. (_, refl, ground arith) }

collect_escapes-Ends_example :
    (e : ℕ → List ℕ) × (collect_escapes 14 bound mutual_program ≡ some e)
    × ((f : ℕ) → Distinct (e f) × Escaping bound (e f))
collect_escapes-Ends_example =
    collect_escapes-Ends 14 bound 3 4 bound-Numbered (omega arith) mutual_program tt
