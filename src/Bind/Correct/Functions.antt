-- ===== src/Bind/Correct/Functions.antt =====
-- src/bind/binder.cc: the declaration of a function, with its scopes.
use tiger_compilor.Prelude.{String, refl, false, Option, List, [], Both, str_eq}
use tiger_compilor.Misc.ScopedMap.{scope_begin}
use tiger_compilor.Ast.Syntax.{Node}
use tiger_compilor.Ast.Default.{Action, ◌⨾◌, if_present}
use tiger_compilor.Bind.State.{State, Binding, put_function, end_functions, end_variables}
use tiger_compilor.Bind.Binder.{check_main, function_dec}
use tiger_compilor.Bind.Scoping.{Meaning, Env, scoping}
use tiger_compilor.Bind.Frames.{
  View, view, IsReady, Uses, DeclaresVars, Uses-IsReady, Uses-trans, Declares-IsReady,
  Declares-trans, DeclaresVars-trans, DeclaresVars-Declares, Uses-Declares, Uses-DeclaresVars, Runs,
  Runs-bind, Runs-map, Runs-if, scope_end-begin, SameOuter-begin, begin-Answers,
}
use tiger_compilor.Bind.Correct.Uses.{BindsUses, Uses-refl, if_present-BindsUses}
use tiger_compilor.Bind.Correct.Declares.{BindsVars, Binds}
use tiger_compilor.Bind.Correct.Decs.{put_function-Binds}

check_main-Uses :
    (n : Node) (x : String) (s : State) → Runs (check_main n x s) λ t. Uses (view s) [] (view t)
unfolding check_main
check_main-Uses n x s =
    Runs-if (str_eq x "_main") _ _
      (Runs-if s.is_main_defined _ _ (_, refl, Uses-refl (view s)) (_, refl, Uses-refl (view s)))
      (_, refl, Uses-refl (view s))

begin_function-IsReady :
    (s : View) {ρ : Env}
    → IsReady s ρ
    → IsReady
        (record s { functions = scope_begin s.functions; variables = scope_begin s.variables })
        ρ
begin_function-IsReady s {ρ} r = record {
  functions = SameOuter-begin s.functions;
  variables = SameOuter-begin s.variables;
  types = r.types;
  sees = record {
    functions = begin-Answers s.functions ρ.functions r.sees.functions;
    variables = begin-Answers s.variables ρ.variables r.sees.variables;
    types = r.sees.types;
  };
}

-- The end of a function: its two scopes are closed.
end_function-Uses :
    (s t : State) {ρ σ : Env} {bs : List Binding}
    → IsReady (view s) ρ
    → DeclaresVars
        (record (view s) {
          functions = scope_begin s.functions;
          variables = scope_begin s.variables;
        })
        σ
        bs
        (view t)
    → Runs ((end_functions ⨾ end_variables) t) λ u. Uses (view s) bs (view u)
end_function-Uses s t r d =
    rw
      (
        d.functions,
        scope_end-begin s.functions _ r.functions (SameOuter-begin s.functions),
        scope_end-begin s.variables t.variables r.variables d.variables,
      )
      (
        _,
        refl,
        record {
          functions = refl;
          variables = refl;
          types = d.types;
          loops = d.loops;
          bindings = d.bindings;
        },
      )

pub function_dec-Binds :
    (n : Node) (x : String) (f : Action State) (g : Meaning) (a b : Option (Action State))
    (m k : Option Meaning)
    → BindsVars f g
    → Both BindsUses a m
    → Both BindsUses b k
    → Binds (function_dec n x f a b) (scoping.function_dec n x g m k)
unfolding function_dec
function_dec-Binds n x f g a b m k h p q s ρ r =
    Runs-bind (check_main n x s) _ (check_main-Uses n x s) λ t₀ u₀.
      Runs-bind (put_function x n t₀) _ (put_function-Binds x n t₀ ρ (Uses-IsReady u₀ r)) λ t d.
        let rt = Declares-IsReady d in
        let ri = begin_function-IsReady (view t) rt in
        Runs-bind (f _) _ (h _ _ ri) λ t₁ d₁.
          let r₁ = Declares-IsReady (DeclaresVars-Declares ri d₁) in
          Runs-bind (if_present a (record t₁ { in_formals = false })) _
            (if_present-BindsUses a m p _ _ r₁)
            λ t₂ u₂.
              Runs-bind (if_present b t₂) _ (if_present-BindsUses b k q t₂ _ (Uses-IsReady u₂ r₁))
                λ t₃ u₃.
                  Runs-map _
                    (end_function-Uses t t₃ rt
                      (DeclaresVars-trans d₁ (Uses-DeclaresVars r₁ (Uses-trans u₂ u₃))))
                    λ v w.
                      Declares-trans (Uses-Declares r u₀) (Declares-trans d (Uses-Declares rt w))
