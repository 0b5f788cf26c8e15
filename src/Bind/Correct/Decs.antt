-- ===== src/Bind/Correct/Decs.antt =====
-- src/bind/binder.cc: the declarations of one variable, one function name, one type.
use tiger_compilor.Prelude.{String, refl, sym, true, Option, [], append-nil, Both, ◌>>=◌}
use tiger_compilor.Ast.Syntax.{Node}
use tiger_compilor.Ast.Default.{Action, ◌⨾◌, if_present}
use tiger_compilor.Ast.Default
use tiger_compilor.Bind.State.{State, put_function, put_variable, put_type}
use tiger_compilor.Bind.Binder.{type_dec, var_dec}
use tiger_compilor.Bind.Scoping.{Meaning, scoping, with_function, with_variable, with_type}
use tiger_compilor.Bind.Frames.{
  Uses-IsReady, Uses-trans, Declares-IsReady, Declares-trans, DeclaresVars-trans,
  DeclaresVars-Declares, Uses-Declares, Uses-DeclaresVars, Runs-bind, Runs-map, Put-Put,
}
use tiger_compilor.Bind.Correct.Uses.{BindsUses, if_present-BindsUses}
use tiger_compilor.Bind.Correct.Declares.{BindsVars, Binds}

-- A declaration of one name, and nothing else.
pub put_variable-BindsVars :
    (x : String) (n : Node) → BindsVars (put_variable x n) (λ ρ. (with_variable x n ρ, []))
put_variable-BindsVars x n s ρ r =
    let p = Put-Put x n.address s.variables ρ.variables r.variables r.sees.variables in
    rw (p.runs, ◌>>=◌)
      (
        _,
        refl,
        record {
          functions = refl;
          variables = p.outer;
          types = refl;
          loops = refl;
          sees = record {
            functions = r.sees.functions;
            variables = p.answers;
            types = r.sees.types;
          };
          bindings = sym (append-nil s.bindings);
        },
      )

pub put_function-Binds :
    (x : String) (n : Node) → Binds (put_function x n) (λ ρ. (with_function x n ρ, []))
put_function-Binds x n s ρ r =
    let p = Put-Put x n.address s.functions ρ.functions r.functions r.sees.functions in
    rw (p.runs, ◌>>=◌)
      (
        _,
        refl,
        record {
          functions = p.outer;
          variables = r.variables;
          types = r.types;
          loops = refl;
          sees = record {
            functions = p.answers;
            variables = r.sees.variables;
            types = r.sees.types;
          };
          bindings = sym (append-nil s.bindings);
        },
      )

pub put_type-Binds : (x : String) (n : Node) → Binds (put_type x n) (λ ρ. (with_type x n ρ, []))
put_type-Binds x n s ρ r =
    let p = Put-Put x n.address s.types ρ.types r.types r.sees.types in
    rw (p.runs, ◌>>=◌)
      (
        _,
        refl,
        record {
          functions = r.functions;
          variables = r.variables;
          types = p.outer;
          loops = refl;
          sees = record {
            functions = r.sees.functions;
            variables = r.sees.variables;
            types = p.answers;
          };
          bindings = sym (append-nil s.bindings);
        },
      )

pub var_dec-BindsVars :
    (n : Node) (x : String) (a b : Option (Action State)) (m k : Option Meaning)
    → Both BindsUses a m
    → Both BindsUses b k
    → BindsVars (var_dec n x a b) (scoping.var_dec n x m k)
unfolding var_dec
var_dec-BindsVars n x a b m k p q s ρ r =
    Runs-bind (put_variable x n s) _ (put_variable-BindsVars x n s ρ r) λ t d.
      let rt = Declares-IsReady (DeclaresVars-Declares r d) in
      Runs-bind (if_present a t) _ (if_present-BindsUses a m p t _ rt) λ t' u.
        Runs-bind (if_present b (record t' { in_vardec = true })) _
          (if_present-BindsUses b k q _ _ (Uses-IsReady u rt))
          λ t'' u'. (_, refl, DeclaresVars-trans d (Uses-DeclaresVars rt (Uses-trans u u')))

pub type_dec-Binds :
    (n : Node) (x : String) (a : Action State) (m : Meaning)
    → BindsUses a m
    → Binds (type_dec n x a) (scoping.type_dec n x m)
unfolding type_dec Default.type_dec
type_dec-Binds n x a m p s ρ r = Runs-bind (put_type x n s) _ (put_type-Binds x n s ρ r) λ t d.
    Runs-map (a t) (p t _ (Declares-IsReady d))
      λ u v. Declares-trans d (Uses-Declares (Declares-IsReady d) v)
