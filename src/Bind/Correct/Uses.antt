-- ===== src/Bind/Correct/Uses.antt =====
-- src/bind/binder.cc: the visits of expressions and types, which declare nothing.
use tiger_compilor.Prelude.{
  ℕ, String, refl, sym, true, false, Option, none, some, List, [], ◌∷◌, ◌++◌, append-nil, All₂,
  Both, Bool-cases, Option-cases, inl, inr, str_eq, ◌||◌,
}
use tiger_compilor.Misc.ScopedMap.{get}
use tiger_compilor.Ast.Syntax.{Node}
use tiger_compilor.Ast.Default.{Action, skip, ◌⨾◌, each, if_present}
use tiger_compilor.Bind.State.{State, Binding, to_function, to_variable, to_type}
use tiger_compilor.Bind.Binder.{
  bind_function, bind_type, simple_var, name_ty, call_exp, bind_break, break_exp,
}
use tiger_compilor.Bind.Scoping.{Meaning, Env, each_use, use_if_present, pure, bind_at, scoping}
use tiger_compilor.Bind.Frames.{
  View, view, IsReady, Uses, Uses-IsReady, Uses-trans, Runs, Runs-bind, Runs-map, Runs-if,
}

-- The action binds the uses that the rules give, and leaves the scopes as they were.
abbrev pub BindsUses : Action State → Meaning → Type 0
BindsUses a m =
    (s : State) (ρ : Env) → IsReady (view s) ρ → Runs (a s) λ t. Uses (view s) (m ρ).1 (view t)

pub Uses-refl : (s : View) → Uses s [] s
Uses-refl s = record {
  functions = refl;
  variables = refl;
  types = refl;
  loops = refl;
  bindings = sym (append-nil s.bindings);
}

pub skip-BindsUses : BindsUses skip (pure λ ρ. [])
skip-BindsUses s ρ r = (s, refl, Uses-refl (view s))

module _ (a b : Action State) (m k : Meaning) where
  pub ⨾-BindsUses : BindsUses a m → BindsUses b k → BindsUses (a ⨾ b) (pure λ ρ. (m ρ).1 ++ (k ρ).1)
  ⨾-BindsUses p q s ρ r =
      Runs-bind (a s) b (p s ρ r)
        λ t u. Runs-map (b t) (q t ρ (Uses-IsReady u r)) λ t' u'. Uses-trans u u'

pub each-BindsUses :
    (xs : List (Action State)) (ms : List Meaning)
    → All₂ BindsUses xs ms
    → BindsUses (each xs) (pure (each_use ms))
each-BindsUses [] [] h = skip-BindsUses
each-BindsUses (a ∷ xs) (m ∷ ms) h =
    ⨾-BindsUses a (each xs) m (pure (each_use ms)) h.0 (each-BindsUses xs ms h.1)
each-BindsUses [] (m ∷ ms) h = absurd h
each-BindsUses (a ∷ xs) [] h = absurd h

pub if_present-BindsUses :
    (a : Option (Action State)) (m : Option Meaning)
    → Both BindsUses a m
    → BindsUses (if_present a) (pure (use_if_present m))
if_present-BindsUses none none h = skip-BindsUses
if_present-BindsUses (some a) (some m) h = h
if_present-BindsUses none (some m) h = absurd h
if_present-BindsUses (some a) none h = absurd h

Uses-bound :
    (s : View) (b : Binding) → Uses s (b ∷ []) (record s { bindings = s.bindings ++ b ∷ [] })
Uses-bound s b = record {
  functions = refl;
  variables = refl;
  types = refl;
  loops = refl;
  bindings = refl;
}

pub simple_var-BindsUses :
    (n : Node) (x : String)
    → BindsUses (simple_var n x) (pure λ ρ. bind_at to_variable n (ρ.variables x))
unfolding simple_var
simple_var-BindsUses n x s ρ r =
    rw (← r.sees.variables x) (elim (Option-cases (get x s.variables)) [
      | inl e ↦ rw (e, simple_var) (_, refl, Uses-refl (view s))
      | inr (d, e) ↦ rw (e, simple_var) (_, refl, Uses-bound (view s) _)
    ])

bind_function-BindsUses :
    (n : Node) (x : String)
    → BindsUses (bind_function n x) (pure λ ρ. bind_at to_function n (ρ.functions x))
unfolding bind_function
bind_function-BindsUses n x s ρ r =
    rw (← r.sees.functions x) (elim (Option-cases (get x s.functions)) [
      | inl e ↦ rw (e, bind_function) (_, refl, Uses-refl (view s))
      | inr (d, e) ↦ rw (e, bind_function) (_, refl, Uses-bound (view s) _)
    ])

bind_type-BindsUses :
    (n : Node) (x : String) → BindsUses (bind_type n x) (pure λ ρ. bind_at to_type n (ρ.types x))
unfolding bind_type
bind_type-BindsUses n x s ρ r = rw (← r.sees.types x) (elim (Option-cases (get x s.types)) [
  | inl e ↦ rw (e, bind_type) (_, refl, Uses-refl (view s))
  | inr (d, e) ↦ rw (e, bind_type) (_, refl, Uses-bound (view s) _)
])

pub name_ty-BindsUses : (n : Node) (x : String) → BindsUses (name_ty n x) (scoping.name_ty n x)
unfolding name_ty
name_ty-BindsUses n x s ρ r = elim (Bool-cases (str_eq x "string" || str_eq x "int")) [
  | inl e ↦ rw (e, name_ty) (s, refl, Uses-refl (view s))
  | inr e ↦ rw (e, name_ty) (bind_type-BindsUses n x s ρ r)
]

-- The arguments of a call run with a flag, which the rules of scope do not read.
pub call_exp-BindsUses :
    (n : Node) (x : String) (args : List (Action State)) (ms : List Meaning)
    → All₂ BindsUses args ms
    → BindsUses (call_exp n x args) (scoping.call_exp n x ms)
unfolding call_exp
call_exp-BindsUses n x args ms h s ρ r =
    Runs-bind (bind_function n x s) _ (bind_function-BindsUses n x s ρ r) λ t u.
      Runs-bind (each args (record t { in_formals = true })) _
        (each-BindsUses args ms h (record t { in_formals = true }) ρ (Uses-IsReady u r))
        λ t' u'. (record t' { in_formals = false }, refl, Uses-trans u u')

bind_break-Uses :
    (n : Node) (l : List ℕ) (s : State) → Runs (bind_break n l s) λ t. Uses (view s) [] (view t)
unfolding bind_break
bind_break-Uses n [] s = (_, refl, Uses-refl (view s))
bind_break-Uses n (loop ∷ outer) s =
    Runs-if s.in_loop _ _ (_, refl, Uses-refl (view s))
      (Runs-if s.in_vardec _ _ (_, refl, Uses-refl (view s))
        (Runs-if s.in_formals _ _ (_, refl, Uses-refl (view s)) (_, refl, Uses-refl (view s))))

-- A `break` is bound to a loop: no name is.
pub break_exp-BindsUses : (n : Node) → BindsUses (break_exp n) (scoping.break_exp n)
unfolding break_exp
break_exp-BindsUses n s ρ r = bind_break-Uses n s.loop_stack s
