-- ===== src/Collector/Ends.antt =====
-- src/llvmtranslate/escapes-collector.cc: the collection over a whole program.
use tiger_compilor.Prelude.{ℕ, ◌+◌, ◌*◌, ◌<◌, ◌≡◌, refl, some, List, [], ◌>>=◌, false}
use tiger_compilor.Types.Chains.{Distinct}
use tiger_compilor.Ast.Syntax.{
  FunctionDecs, no_functions, functions, function_dec, function_chunk, var_chunk, type_chunk,
  Chunks, no_chunks, chunks,
}
use tiger_compilor.Ast.Visitor.{Visitor, accept, accept_exp, accept_functions, accept_chunks}
use tiger_compilor.Ast.Default.{Action, each, each_decl}
use tiger_compilor.Ast.Default
use tiger_compilor.Ast.Laws.{Laws}
use tiger_compilor.Ast.Related.{vars-Related, opt_name_ty-Related, opt_exp-Related}
use tiger_compilor.Ast.Summary.{summary, Closed, default-Laws, each-joined, each_decl-joined}
use tiger_compilor.Collector.Grows.{Escaping, Sound}
use tiger_compilor.Collector.Runs.{
  Inside, Anywhere, Numbered, Runs, skip-Runs, then-Runs, simple_var-Runs, collect_callee-Runs,
  function_chunk-Runs, function_dec-Runs,
}
use tiger_compilor.Collector.{State, Tables, call_exp, collector, collect_escapes}

-- A program as the translator takes it: its outermost declarations are functions.
abbrev pub AllFunctions : Chunks → Type 0
AllFunctions no_chunks = Unit
AllFunctions (chunks (function_chunk n fs) cs) = AllFunctions cs
AllFunctions (chunks (var_chunk n ds) cs) = ⊥
AllFunctions (chunks (type_chunk n ts) cs) = ⊥

-- beside a visitor that collects nothing
abbrev Nothing : Type 0
Nothing = Unit

abbrev nothing : Visitor Nothing
nothing = summary tt (λ u v. tt)

module _ (fuel : ℕ) (d : Tables) (nf nv : ℕ) (numbered : Numbered d nf nv)
    (enough : nf * nv + 1 < fuel) where
  abbrev R : Action State → Nothing → Type 0
  R a u = Runs d nf nv Inside a

  closed : Closed tt (λ u v. tt) R
  closed = record { skip_rule = skip-Runs d nf nv; seq_rule = λ a b x y h k. then-Runs d nf nv h k }

  collector-Laws : Laws R R R R (collector fuel d) nothing
  unfolding call_exp Default.call_exp
  collector-Laws =
      let l = default-Laws tt (λ u v. tt) closed in
      record {
        simple_var = λ n x. simple_var-Runs d nf nv fuel numbered n x;
        field_var = l.field_var;
        subscript_var = l.subscript_var;
        nil_exp = l.nil_exp;
        int_exp = l.int_exp;
        string_exp = l.string_exp;
        call_exp = λ n x as_ ys h.
            then-Runs d nf nv (each-joined tt (λ u v. tt) closed as_ ys h)
              (collect_callee-Runs d nf nv fuel numbered n);
        op_exp = l.op_exp;
        record_exp = l.record_exp;
        field_init = l.field_init;
        seq_exp = l.seq_exp;
        assign_exp = l.assign_exp;
        if_exp = l.if_exp;
        while_exp = l.while_exp;
        for_exp = l.for_exp;
        break_exp = l.break_exp;
        let_exp = l.let_exp;
        array_exp = l.array_exp;
        cast_exp = l.cast_exp;
        chunk_list = l.chunk_list;
        var_chunk = l.var_chunk;
        weaken = l.weaken;
        function_chunk = λ n ds es h.
            function_chunk-Runs d nf nv fuel numbered n ds enough
              (each_decl-joined tt (λ u v. tt) closed ds es h);
        type_chunk = l.type_chunk;
        var_dec = l.var_dec;
        function_dec = λ n x f u a c v w h k m.
            function_dec-Runs d nf nv fuel numbered n x f a c
              (l.function_dec n x f u a c v w h k m);
        type_dec = l.type_dec;
        name_ty = l.name_ty;
        record_ty = l.record_ty;
        array_ty = l.array_ty;
        field = l.field;
      }

  functions-Runs :
      (fs : FunctionDecs)
      → Runs d nf nv Anywhere (each_decl (accept_functions (collector fuel d) fs))
  unfolding accept_exp
  functions-Runs no_functions = skip-Runs d nf nv
  functions-Runs (functions (function_dec n x c ds t b) fs) =
      let l = default-Laws tt (λ u v. tt) closed in
      then-Runs d nf nv
        (function_dec-Runs d nf nv fuel numbered n x _ _ _ (
          l.function_dec n x _ _ _ _ _ _ (l.var_chunk c _ _ (vars-Related collector-Laws ds))
            (opt_name_ty-Related collector-Laws t) (opt_exp-Related collector-Laws b)))
        (functions-Runs fs)

  chunks-Runs :
      (cs : Chunks)
      → AllFunctions cs
      → Runs d nf nv Anywhere (each (accept_chunks (collector fuel d) cs))
  unfolding accept_exp
  chunks-Runs no_chunks h = skip-Runs d nf nv
  chunks-Runs (chunks (function_chunk n fs) cs) h =
      then-Runs d nf nv (function_chunk-Runs d nf nv fuel numbered n _ enough (functions-Runs fs))
        (chunks-Runs cs h)
  chunks-Runs (chunks (var_chunk n ds) cs) h = absurd h
  chunks-Runs (chunks (type_chunk n ts) cs) h = absurd h

  -- The collection over a program of functions ends, with any fuel that is more by two than the
  -- pairs of a function and a variable: no loop goes on for ever, and the stack of functions is
  -- never read when it is empty. Each function has different variables, all of them escapable.
  pub collect_escapes-Ends :
      (tree : Chunks)
      → AllFunctions tree
      → (e : ℕ → List ℕ) × (collect_escapes fuel d tree ≡ some e)
        × ((f : ℕ) → Distinct (e f) × Escaping d (e f))
  unfolding collect_escapes accept Default.chunk_list
  collect_escapes-Ends tree h =
      let start : State = record {
        did_modify = false;
        escaped = λ f. [];
        function_type_stack = [];
      } in
      let good : Sound d nf nv start = record {
        functions = tt;
        different = λ f. tt;
        variables = λ f. tt;
        are_escapable = λ f. tt;
      } in
      let (t, run, g) = (chunks-Runs tree h).run start good tt in
      (
        t.escaped,
        rw (collect_escapes, ◌>>=◌, run) refl,
        λ f. (g.is_sound.different f, g.is_sound.are_escapable f),
      )
