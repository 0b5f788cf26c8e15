-- ===== src/Bind/Correct/Chunks.antt =====
-- src/bind/binder.cc: the visits of chunks.
use tiger_compilor.Prelude.{refl, List, [], All₂}
use tiger_compilor.Ast.Syntax.{Node}
use tiger_compilor.Ast.Visitor.{Decl}
use tiger_compilor.Ast.Laws.{SameDecl}
use tiger_compilor.Ast.Default.{Action, skip, each_decl}
use tiger_compilor.Bind.State.{
  State, put_function, put_type, redeclared_function, redeclared_type, redeclared_formal,
}
use tiger_compilor.Bind.Binder.{declare_first, type_chunk, function_chunk, var_chunk}
use tiger_compilor.Bind.Scoping.{Meaning, scoping, with_function, with_type, introduce}
use tiger_compilor.Bind.Frames.{
  view, Declares, DeclaresVars, Declares-IsReady, Declares-trans, DeclaresVars-trans,
  DeclaresVars-Declares, Runs-bind, Runs-map,
}
use tiger_compilor.Bind.Correct.Declares.{
  BindsVars, Binds, Declares-refl, DeclaresVars-refl, each_decl-Binds, each_decl-BindsVars,
}
use tiger_compilor.Bind.Correct.Decs.{put_function-Binds, put_type-Binds}
use tiger_compilor.Bind.Correct.Names.{
  heads-SameDecl, introduce-with_function, introduce-with_type, declare_first-firsts,
}

declare_functions-Binds :
    (n : Node) (xs : List (Decl (Action State))) (ms : List (Decl Meaning))
    → All₂ (SameDecl Binds) xs ms
    → Binds
        (declare_first n redeclared_function put_function [] xs)
        (λ ρ. (introduce with_function ms ρ, []))
declare_functions-Binds n xs ms h s ρ r =
    rw (introduce-with_function ms ρ, ← heads-SameDecl Binds xs ms h)
      (declare_first-firsts n redeclared_function put_function
        (λ f t. Declares (view s) (record ρ { functions = f }) [] (view t))
        (λ e f t d. (_, refl, d))
        (λ x a f t d.
          Runs-map _ (put_function-Binds x a t _ (Declares-IsReady d)) λ u d'. Declares-trans d d')
        xs ρ.functions s (Declares-refl r))

declare_types-Binds :
    (n : Node) (xs : List (Decl (Action State))) (ms : List (Decl Meaning))
    → All₂ (SameDecl Binds) xs ms
    → Binds (declare_first n redeclared_type put_type [] xs) (λ ρ. (introduce with_type ms ρ, []))
declare_types-Binds n xs ms h s ρ r =
    rw (introduce-with_type ms ρ, ← heads-SameDecl Binds xs ms h)
      (declare_first-firsts n redeclared_type put_type
        (λ f t. Declares (view s) (record ρ { types = f }) [] (view t)) (λ e f t d. (_, refl, d))
        (λ x a f t d.
          Runs-map _ (put_type-Binds x a t _ (Declares-IsReady d)) λ u d'. Declares-trans d d')
        xs ρ.types s (Declares-refl r))

pub function_chunk-Binds :
    (n : Node) (xs : List (Decl (Action State))) (ms : List (Decl Meaning))
    → All₂ (SameDecl Binds) xs ms
    → Binds (function_chunk n xs) (scoping.function_chunk n ms)
unfolding function_chunk
function_chunk-Binds n xs ms h s ρ r =
    Runs-bind (declare_first n redeclared_function put_function [] xs s) (each_decl xs)
      (declare_functions-Binds n xs ms h s ρ r)
      λ t d.
        Runs-map _ (each_decl-Binds xs ms h t _ (Declares-IsReady d)) λ u d'. Declares-trans d d'

pub type_chunk-Binds :
    (n : Node) (xs : List (Decl (Action State))) (ms : List (Decl Meaning))
    → All₂ (SameDecl Binds) xs ms
    → Binds (type_chunk n xs) (scoping.type_chunk n ms)
unfolding type_chunk
type_chunk-Binds n xs ms h s ρ r =
    Runs-bind (declare_first n redeclared_type put_type [] xs s) (each_decl xs)
      (declare_types-Binds n xs ms h s ρ r)
      λ t d.
        Runs-map _ (each_decl-Binds xs ms h t _ (Declares-IsReady d)) λ u d'. Declares-trans d d'

-- A chunk of variables is only searched for a name that stands twice.
pub var_chunk-BindsVars :
    (n : Node) (xs : List (Decl (Action State))) (ms : List (Decl Meaning))
    → All₂ (SameDecl BindsVars) xs ms
    → BindsVars (var_chunk n xs) (scoping.var_chunk n ms)
unfolding var_chunk
var_chunk-BindsVars n xs ms h s ρ r =
    Runs-bind (declare_first n redeclared_formal (λ x d. skip) [] xs s) (each_decl xs)
      (declare_first-firsts n redeclared_formal (λ x d. skip)
        (λ f t. DeclaresVars (view s) ρ [] (view t)) (λ e f t d. (_, refl, d))
        (λ x a f t d. (t, refl, d)) xs ρ.variables s (DeclaresVars-refl r))
      λ t d.
        Runs-map _ (each_decl-BindsVars xs ms h t _ (Declares-IsReady (DeclaresVars-Declares r d)))
          λ u d'. DeclaresVars-trans d d'
