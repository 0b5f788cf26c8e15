-- ===== src/Bind/Correct/Declares.antt =====
-- src/bind/binder.cc: the visits of declarations and chunks, and of what opens scopes.
use tiger_compilor.Prelude.{refl, sym, List, [], ◌∷◌, append-nil, All₂}
use tiger_compilor.Ast.Visitor.{Decl}
use tiger_compilor.Ast.Laws.{SameDecl}
use tiger_compilor.Ast.Default.{Action, each, each_decl}
use tiger_compilor.Bind.State.{State}
use tiger_compilor.Bind.Scoping.{Meaning, Env, each_in_turn, each_decl_in_turn}
use tiger_compilor.Bind.Frames.{
  View, view, IsReady, Declares, DeclaresVars, Declares-IsReady, Declares-trans, DeclaresVars-trans,
  DeclaresVars-Declares, Runs, Runs-bind, Runs-map,
}

abbrev pub BindsVars : Action State → Meaning → Type 0
BindsVars a m =
    (s : State) (ρ : Env)
    → IsReady (view s) ρ
    → Runs (a s) λ t. DeclaresVars (view s) (m ρ).0 (m ρ).1 (view t)

abbrev pub Binds : Action State → Meaning → Type 0
Binds a m =
    (s : State) (ρ : Env)
    → IsReady (view s) ρ
    → Runs (a s) λ t. Declares (view s) (m ρ).0 (m ρ).1 (view t)

pub DeclaresVars-refl : {s : View} {ρ : Env} → IsReady s ρ → DeclaresVars s ρ [] s
DeclaresVars-refl {s} r = record {
  functions = refl;
  variables = r.variables;
  types = refl;
  loops = refl;
  sees = r.sees;
  bindings = sym (append-nil s.bindings);
}

pub Declares-refl : {s : View} {ρ : Env} → IsReady s ρ → Declares s ρ [] s
Declares-refl {s} r = DeclaresVars-Declares r (DeclaresVars-refl r)

pub each_decl-BindsVars :
    (xs : List (Decl (Action State))) (ms : List (Decl Meaning))
    → All₂ (SameDecl BindsVars) xs ms
    → BindsVars (each_decl xs) (each_decl_in_turn ms)
each_decl-BindsVars [] [] h s ρ r = (s, refl, DeclaresVars-refl r)
each_decl-BindsVars (d ∷ ds) (m ∷ ms) ((_, _, h), hs) s ρ r =
    Runs-bind (d.visit s) _ (h s ρ r) λ t p.
      Runs-map (each_decl ds t)
        (each_decl-BindsVars ds ms hs t _ (Declares-IsReady (DeclaresVars-Declares r p)))
        λ u q. DeclaresVars-trans p q
each_decl-BindsVars [] (m ∷ ms) h s ρ r = absurd h
each_decl-BindsVars (d ∷ ds) [] h s ρ r = absurd h

pub each_decl-Binds :
    (xs : List (Decl (Action State))) (ms : List (Decl Meaning))
    → All₂ (SameDecl Binds) xs ms
    → Binds (each_decl xs) (each_decl_in_turn ms)
each_decl-Binds [] [] h s ρ r = (s, refl, Declares-refl r)
each_decl-Binds (d ∷ ds) (m ∷ ms) ((_, _, h), hs) s ρ r = Runs-bind (d.visit s) _ (h s ρ r) λ t p.
    Runs-map (each_decl ds t) (each_decl-Binds ds ms hs t _ (Declares-IsReady p))
      λ u q. Declares-trans p q
each_decl-Binds [] (m ∷ ms) h s ρ r = absurd h
each_decl-Binds (d ∷ ds) [] h s ρ r = absurd h

pub each-Binds :
    (xs : List (Action State)) (ms : List Meaning)
    → All₂ Binds xs ms
    → Binds (each xs) (each_in_turn ms)
each-Binds [] [] h s ρ r = (s, refl, Declares-refl r)
each-Binds (a ∷ xs) (m ∷ ms) (h, hs) s ρ r = Runs-bind (a s) _ (h s ρ r) λ t p.
    Runs-map (each xs t) (each-Binds xs ms hs t _ (Declares-IsReady p)) λ u q. Declares-trans p q
each-Binds [] (m ∷ ms) h s ρ r = absurd h
each-Binds (a ∷ xs) [] h s ρ r = absurd h
