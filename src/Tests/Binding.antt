-- ===== src/Tests/Binding.antt =====
-- The passes of src/bind on small programs, and their theorems there.
use tiger_compilor.Prelude.{◌≡◌, refl, ◌⊎◌, some, [], ◌∷◌}
use mathlib.Core.Option
use tiger_compilor.Misc.ScopedMap.{lookup, insert, scope_begin, scope_end, put, get}
use tiger_compilor.Ast.Visitor.{accept, accept_exp}
use tiger_compilor.Ast.Default
use tiger_compilor.Bind.State.{to_variable, break_in_var_dec, init}
use tiger_compilor.Bind.Binder.{
  binder, Outcome, break_exp, call_exp, bind_function, simple_var, check_main, function_dec,
  var_dec, let_exp, for_exp, while_exp, declare_first, function_chunk, var_chunk,
}
use tiger_compilor.Bind.Scoping.{scoping}
use tiger_compilor.Bind.Frames.{view, Uses, Declares, Runs}
use tiger_compilor.Bind.Correct.Programs.{
  accept-Scoping, accept_exp-Scoping, no_names, init-IsReady,
}
use tiger_compilor.Bind.Outcome.{IsBound, IsRefused, break_exp-cases}
use tiger_compilor.Tests.Programs.{
  at, loop_program, self_program, bound_in_bound, break_in_function, loop_in_vardec,
}

accept-Scoping_example : Runs (accept binder loop_program init) λ t.
    Declares
      (view init)
      (accept scoping loop_program no_names).0
      (accept scoping loop_program no_names).1
      (view t)
accept-Scoping_example = accept-Scoping loop_program

accept_exp-Scoping_example :
    Runs
      (accept_exp binder bound_in_bound init)
      λ t. Uses (view init) (accept_exp scoping bound_in_bound no_names).1 (view t)
accept_exp-Scoping_example = accept_exp-Scoping bound_in_bound init no_names init-IsReady

break_exp-cases_example : Runs (break_exp (at 7) init) λ t. IsBound (at 7) init t ⊎ IsRefused init t
break_exp-cases_example = break_exp-cases (at 7) init

-- The initialiser of a variable is bound to the variable itself.
self_binding :
    Option.map (λ t. t.bindings) (accept binder self_program init) ≡ some (to_variable 2 1 ∷ [])
unfolding accept accept_exp Default.chunk_list var_chunk declare_first var_dec simple_var put get
    lookup insert
self_binding = refl

-- The upper bound of a loop is bound to the variable of the loop.
bound_binding :
    Option.map (λ t. t.bindings) (accept_exp binder bound_in_bound init)
    ≡ some (to_variable 4 2 ∷ [])
unfolding accept_exp for_exp var_dec simple_var put get lookup insert scope_begin scope_end
    Default.int_exp Default.seq_exp
bound_binding = refl

-- A `break` in the body of a function is bound to a loop around the function.
break_binding :
    Option.map (λ t. t.breaks) (accept_exp binder break_in_function init) ≡ some ((7, 1) ∷ [])
unfolding accept_exp while_exp let_exp Default.let_exp Default.chunk_list function_chunk
    declare_first function_dec check_main var_chunk break_exp call_exp bind_function put get lookup
    insert scope_begin scope_end Default.int_exp
break_binding = refl

-- A loop in the initialiser of a variable cannot be left by `break`.
vardec_break :
    Option.map (λ t. t.errors) (accept binder loop_in_vardec init) ≡ some (break_in_var_dec 4 ∷ [])
unfolding accept accept_exp Default.chunk_list var_chunk declare_first var_dec while_exp break_exp
    put get lookup insert scope_begin scope_end Default.int_exp
vardec_break = refl
