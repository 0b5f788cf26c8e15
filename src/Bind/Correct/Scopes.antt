-- ===== src/Bind/Correct/Scopes.antt =====
-- src/bind/binder.cc: the expressions that open scopes.
use tiger_compilor.Prelude.{ℕ, refl, false, List, ◌∷◌}
use tiger_compilor.Misc.ScopedMap.{scope_begin}
use tiger_compilor.Ast.Syntax.{Node}
use tiger_compilor.Ast.Default.{Action, ◌⨾◌, if_present}
use tiger_compilor.Ast.Default
use tiger_compilor.Bind.State.{State, Binding, end_variables, pop_loop}
use tiger_compilor.Bind.Binder.{let_exp, for_exp, while_exp}
use tiger_compilor.Bind.Scoping.{Meaning, Env, scoping}
use tiger_compilor.Bind.Frames.{
  View, view, IsReady, Uses, DeclaresVars, Uses-IsReady, Uses-trans, Declares-IsReady,
  Declares-trans, DeclaresVars-trans, DeclaresVars-Declares, Uses-Declares, Uses-DeclaresVars, Runs,
  Runs-bind, Runs-map, scope_end-begin, SameOuter-begin, begin-Answers,
}
use tiger_compilor.Bind.Correct.Uses.{BindsUses}
use tiger_compilor.Bind.Correct.Declares.{BindsVars, Binds}

-- What a `let` sees when its scopes are open.
begin_let-IsReady :
    (s : View) {ρ : Env}
    → IsReady s ρ
    → IsReady
        (record s {
          functions = scope_begin s.functions;
          variables = scope_begin s.variables;
          types = scope_begin s.types;
        })
        ρ
begin_let-IsReady s {ρ} r = record {
  functions = SameOuter-begin s.functions;
  variables = SameOuter-begin s.variables;
  types = SameOuter-begin s.types;
  sees = record {
    functions = begin-Answers s.functions ρ.functions r.sees.functions;
    variables = begin-Answers s.variables ρ.variables r.sees.variables;
    types = begin-Answers s.types ρ.types r.sees.types;
  };
}

pub let_exp-BindsUses :
    (n : Node) (a b : Action State) (m k : Meaning)
    → Binds a m
    → BindsUses b k
    → BindsUses (let_exp n a b) (scoping.let_exp n m k)
unfolding let_exp Default.let_exp
let_exp-BindsUses n a b m k p q s ρ r =
    Runs-bind ((a ⨾ b) _) _
      (Runs-bind (a _) b (p _ ρ (begin_let-IsReady (view s) r)) λ t d.
        Runs-map (b t) (q t _ (Declares-IsReady d))
          λ u v. Declares-trans d (Uses-Declares (Declares-IsReady d) v))
      λ t d.
        rw
          (
            scope_end-begin s.functions t.functions r.functions d.functions,
            scope_end-begin s.variables t.variables r.variables d.variables,
            scope_end-begin s.types t.types r.types d.types,
          )
          (
            _,
            refl,
            record {
              functions = refl;
              variables = refl;
              types = refl;
              loops = d.loops;
              bindings = d.bindings;
            },
          )

begin_loop-IsReady :
    (s : View) (a : ℕ) {ρ : Env}
    → IsReady s ρ
    → IsReady (record s { variables = scope_begin s.variables; loops = a ∷ s.loops }) ρ
begin_loop-IsReady s a {ρ} r = record {
  functions = r.functions;
  variables = SameOuter-begin s.variables;
  types = r.types;
  sees = record {
    functions = r.sees.functions;
    variables = begin-Answers s.variables ρ.variables r.sees.variables;
    types = r.sees.types;
  };
}

-- The end of a loop: its scope is closed, and it is taken from the stack of loops.
end_loop-Uses :
    (s t : State) (a : ℕ) {ρ σ : Env} {bs : List Binding}
    → IsReady (view s) ρ
    → DeclaresVars
        (record (view s) { variables = scope_begin s.variables; loops = a ∷ s.loop_stack })
        σ
        bs
        (view t)
    → Runs ((end_variables ⨾ pop_loop) t) λ u. Uses (view s) bs (view u)
end_loop-Uses s t a r d =
    rw (scope_end-begin s.variables t.variables r.variables d.variables, d.loops)
      (
        _,
        refl,
        record {
          functions = d.functions;
          variables = refl;
          types = d.types;
          loops = refl;
          bindings = d.bindings;
        },
      )

pub while_exp-BindsUses :
    (n : Node) (a b : Action State) (m k : Meaning)
    → BindsUses a m
    → BindsUses b k
    → BindsUses (while_exp n a b) (scoping.while_exp n m k)
unfolding while_exp
while_exp-BindsUses n a b m k p q s ρ r =
    let r' = begin_loop-IsReady (view s) n.address r in
    Runs-bind (a _) _ (p _ ρ r') λ t u.
      Runs-bind (b (record t { in_loop = false })) _ (q _ ρ (Uses-IsReady u r'))
        λ t' u'. end_loop-Uses s t' n.address r (Uses-DeclaresVars r' (Uses-trans u u'))

pub for_exp-BindsUses :
    (n : Node) (a b c : Action State) (m k l : Meaning)
    → BindsVars a m
    → BindsUses b k
    → BindsUses c l
    → BindsUses (for_exp n a b c) (scoping.for_exp n m k l)
unfolding for_exp
for_exp-BindsUses n a b c m k l p q h s ρ r =
    let r' = begin_loop-IsReady (view s) n.address r in
    Runs-bind (a _) _ (p _ ρ r') λ t d.
      let rt = Declares-IsReady (DeclaresVars-Declares r' d) in
      Runs-bind (b t) _ (q t _ rt) λ t' u.
        Runs-bind (c (record t' { in_loop = false })) _ (h _ _ (Uses-IsReady u rt)) λ t'' u'.
          end_loop-Uses s t'' n.address r
            (DeclaresVars-trans d (Uses-DeclaresVars rt (Uses-trans u u')))
