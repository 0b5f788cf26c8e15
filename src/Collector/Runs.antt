-- ===== src/Collector/Runs.antt =====
-- src/llvmtranslate/escapes-collector.cc: the operations of the collector end, also the loop over the
-- functions of a chunk.
use tiger_compilor.Prelude.{
  ℕ, zero, suc, ◌+◌, ◌*◌, ◌≤◌, ◌<◌, ◌≡◌, refl, sym, subst, ◌∙◌, false, not, List, [], ◌∷◌, Option,
  some, String, arith, inl, inr, Bool-cases, ◌>>=◌,
}
use tiger_compilor.Types.Chains.{Below}
use tiger_compilor.Ast.Syntax.{Node}
use tiger_compilor.Ast.Visitor.{Decl}
use tiger_compilor.Ast.Default.{Action, skip, ◌⨾◌, each, each_decl}
use tiger_compilor.Ast.Default
use tiger_compilor.Collector.Grows.{
  Sound, size, size-le, Grows, Grows-refl, Grows-trans, insert_escaped-Grows, insert_all-Grows,
}
use tiger_compilor.Collector.{
  State, Tables, last_function, is_empty, pop, iterate, push_function, pop_function, function_chunk,
  function_dec, collect_callee, simple_var, insert_all, insert_escaped,
}

-- Within a function the stack has its last element.
abbrev pub Inside : List ℕ → Type 0
Inside [] = ⊥
Inside (f ∷ fs) = Unit

abbrev pub Anywhere : List ℕ → Type 0
Anywhere fs = Unit

-- Each use of a name is bound, and functions and variables have numbers below `nf` and `nv`.
pub record Numbered (d : Tables) (nf nv : ℕ) : Type 0 where
  pub function_type : (a : ℕ) → d.function_type a < nf
  pub def : (a : ℕ) → (v : ℕ) × (d.def a ≡ some v) × (v < nv)

current-lem :
    (n : ℕ) (fs : List ℕ) → Inside fs → Below n fs → (f : ℕ) × (last_function fs ≡ some f) × (f < n)
current-lem n [] q h = absurd q
current-lem n (f ∷ fs) q h = (f, refl, h.0)

iterate-stops :
    (decs : List (Decl (Action State))) (rounds : ℕ) (s : State)
    → s.did_modify ≡ false
    → 0 < rounds
    → iterate rounds decs s ≡ some s
unfolding iterate
iterate-stops decs zero s e h = absurd (omega arith)
iterate-stops decs (suc rounds) s e h = simp (iterate, e)

module _ (d : Tables) (nf nv : ℕ) where
  -- From each is_sound state with such a stack the action ends.
  pub record Runs (Q : List ℕ → Type 0) (a : Action State) : Type 0 where
    pub run :
        (s : State)
        → Sound d nf nv s
        → Q s.function_type_stack
        → (t : State) × (a s ≡ some t) × Grows d nf nv s t

  pub skip-Runs : {Q : List ℕ → Type 0} → Runs Q skip
  skip-Runs = record { run = λ s h q. (s, refl, Grows-refl d nf nv s h) }

  pub then-Runs : {Q : List ℕ → Type 0} {a b : Action State} → Runs Q a → Runs Q b → Runs Q (a ⨾ b)
  then-Runs {Q} h k = record {
    run = λ s good q.
        let (t, run, g) = h.run s good q in
        let (u, run', g') = k.run t g.is_sound (subst Q (sym g.functions) q) in
        (u, rw run run', Grows-trans d nf nv s t u g g');
  }

  module _ (fuel : ℕ) (numbered : Numbered d nf nv) where
    pub simple_var-Runs : (n : Node) (x : String) → Runs Inside (simple_var fuel d n x)
    unfolding simple_var
    simple_var-Runs n x = record {
      run = λ s h q.
          let (f, top, here) = current-lem nf s.function_type_stack q h.functions in
          let (v, bound, below) = numbered.def n.address in
          elim (Bool-cases (d.is_escapable v)) [
            | inl escapes ↦ (
              insert_escaped f v s,
              rw (simple_var, top, bound, escapes) refl,
              insert_escaped-Grows d nf nv f v s h here below escapes,
            )
            | inr stays ↦ (s, rw (simple_var, top, bound, stays) refl, Grows-refl d nf nv s h)
          ];
    }

    pub collect_callee-Runs : (n : Node) → Runs Inside (collect_callee fuel d n)
    unfolding collect_callee
    collect_callee-Runs n = record {
      run = λ s h q.
          let (f, top, here) = current-lem nf s.function_type_stack q h.functions in
          let (g, bound, below) = numbered.def n.address in
          let vs = s.escaped (d.function_type g) in
          (
            insert_all f vs s,
            rw (collect_callee, top, bound) refl,
            insert_all-Grows d nf nv f vs s h here (h.variables (d.function_type g))
                (h.are_escapable (d.function_type g)),
          );
    }

    -- Any rounds that are more than the pairs of a function and a variable are enough for a loop.
    iterate-Runs :
        {Q : List ℕ → Type 0} (decs : List (Decl (Action State)))
        → Runs Q (each_decl decs)
        → (rounds : ℕ) (s : State) → Sound d nf nv s
        → Q s.function_type_stack
        → nf * nv + 1 < size d nf nv s + rounds
        → (t : State) × (iterate rounds decs s ≡ some t)
          × Sound d nf nv t
          × (t.function_type_stack ≡ s.function_type_stack)
          × (size d nf nv s ≤ size d nf nv t)
    unfolding iterate
    iterate-Runs {Q} decs body zero s h q r = absurd (omega (arith, size-le d nf nv s h))
    iterate-Runs {Q} decs body (suc rounds) s h q r = elim (Bool-cases s.did_modify) [
      | inr unset ↦ (s, iterate-stops decs (suc rounds) s unset (omega arith), h, refl, omega arith)
      | inl set ↦
          let start = record s { did_modify = false } in
          let good : Sound d nf nv start = record {
            functions = h.functions;
            different = h.different;
            variables = h.variables;
            are_escapable = h.are_escapable;
          } in
          let (t, run, g) = body.run start good q in
          let q' = subst Q (sym g.functions) q in
          elim (Bool-cases t.did_modify) [
            | inl changed ↦
                let (u, run', is_sound, same, bigger) =
                  iterate-Runs decs body rounds t g.is_sound q'
                    (omega (arith, g.flag refl changed)) in
                (
                  u,
                  rw (iterate, set, ◌>>=◌, run) run',
                  is_sound,
                  same ∙ g.functions,
                  omega (arith, g.bigger, bigger),
                )
            | inr unchanged ↦ (
              t,
              rw (iterate, set, ◌>>=◌, run)
                  (iterate-stops decs rounds t unchanged (omega (arith, size-le d nf nv s h))),
              g.is_sound,
              g.functions,
              g.bigger,
            )
          ]
    ]

    pub function_chunk-Runs :
        {Q : List ℕ → Type 0} (n : Node) (decs : List (Decl (Action State)))
        → nf * nv + 1 < fuel
        → Runs Q (each_decl decs)
        → Runs Q (function_chunk fuel d n decs)
    unfolding function_chunk
    function_chunk-Runs n decs enough body = record {
      run = λ s h q.
          let start = record s { did_modify = not (is_empty decs) } in
          let good : Sound d nf nv start = record {
            functions = h.functions;
            different = h.different;
            variables = h.variables;
            are_escapable = h.are_escapable;
          } in
          let (t, run, is_sound, same, bigger) =
            iterate-Runs decs body fuel start good q (omega arith) in
          (
            record t { did_modify = s.did_modify },
            rw (function_chunk, ◌>>=◌, run) refl,
            record {
              is_sound = record {
                functions = is_sound.functions;
                different = is_sound.different;
                variables = is_sound.variables;
                are_escapable = is_sound.are_escapable;
              };
              functions = same;
              bigger = bigger;
              flag = λ e f. cc;
            },
          );
    }

    -- A function is visited within itself, wherever it is declared.
    pub function_dec-Runs :
        {Q : List ℕ → Type 0} (n : Node) (x : String) (formals : Action State)
        (result body : Option (Action State))
        → Runs Inside (Default.function_dec n x formals result body)
        → Runs Q (function_dec fuel d n x formals result body)
    unfolding function_dec push_function pop_function pop
    function_dec-Runs n x formals result body inner = record {
      run = λ s h q.
          let f = d.function_type n.address in
          let start = record s { function_type_stack = f ∷ s.function_type_stack } in
          let good : Sound d nf nv start = record {
            functions = (numbered.function_type n.address, h.functions);
            different = h.different;
            variables = h.variables;
            are_escapable = h.are_escapable;
          } in
          let (t, run, g) = inner.run start good tt in
          (
            record t { function_type_stack = s.function_type_stack },
            rw (function_dec, push_function, ◌>>=◌, run, pop_function, g.functions) refl,
            record {
              is_sound = record {
                functions = h.functions;
                different = g.is_sound.different;
                variables = g.is_sound.variables;
                are_escapable = g.is_sound.are_escapable;
              };
              functions = refl;
              bigger = g.bigger;
              flag = g.flag;
            },
          );
    }
