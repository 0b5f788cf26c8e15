-- ===== src/Bind/Frames.antt =====
-- src/bind/binder.cc: what an action of the binder does to the scopes, with the environment that
-- the scopes stand for.
use tiger_compilor.Prelude.{
  ℕ, String, ◌≡◌, refl, ◌∙◌, Option, some, List, [], ◌∷◌, ◌++◌, append_assoc, ◌>>=◌, Bool, true,
  false, if◌then◌else◌,
}
use tiger_compilor.Misc.ScopedMap.{ScopedMap, insert, scope_begin, scope_end, put, get}
use tiger_compilor.Misc.ScopedMap.Laws.{get-put, get-scope_begin}
use tiger_compilor.Ast.Default.{Action}
use tiger_compilor.Bind.State.{State, Binding}
use tiger_compilor.Bind.Scoping.{Env, update}

-- Two stacks, not empty, that differ in the innermost scope at most.
abbrev pub SameOuter : ScopedMap ℕ → ScopedMap ℕ → Type 0
SameOuter [] m' = ⊥
SameOuter (x ∷ m) [] = ⊥
SameOuter (x ∷ m) (y ∷ m') = m' ≡ m

pub SameOuter-trans : (a b c : ScopedMap ℕ) → SameOuter a b → SameOuter b c → SameOuter a c
SameOuter-trans (x ∷ a) (y ∷ b) (z ∷ c) h k = k ∙ h
SameOuter-trans (x ∷ a) (y ∷ b) [] h k = absurd k
SameOuter-trans (x ∷ a) [] c h k = absurd h
SameOuter-trans [] b c h k = absurd h

pub SameOuter-right : (a b : ScopedMap ℕ) → SameOuter a b → SameOuter b b
SameOuter-right (x ∷ a) (y ∷ b) h = refl
SameOuter-right (x ∷ a) [] h = absurd h
SameOuter-right [] b h = absurd h

-- Closing a scope gives back the stack on which it was opened.
pub scope_end-begin :
    (m m' : ScopedMap ℕ) → SameOuter m m → SameOuter (scope_begin m) m' → scope_end m' ≡ some m
unfolding scope_end scope_begin
scope_end-begin (x ∷ m) (y ∷ z ∷ m') h k = cc
scope_end-begin (x ∷ m) (y ∷ []) h k = cc
scope_end-begin (x ∷ m) [] h k = absurd k
scope_end-begin [] m' h k = absurd h

pub SameOuter-begin : (m : ScopedMap ℕ) → SameOuter (scope_begin m) (scope_begin m)
unfolding scope_begin
SameOuter-begin m = refl

-- A stack stands for the lookups that it answers.
abbrev pub Answers : ScopedMap ℕ → (String → Option ℕ) → Type 0
Answers m f = (x : String) → get x m ≡ f x

pub begin-Answers :
    (m : ScopedMap ℕ) (f : String → Option ℕ) → Answers m f → Answers (scope_begin m) f
begin-Answers m f h x = get-scope_begin x m ∙ h x

-- `put` into a stack that is not empty.
pub record Put (x : String) (a : ℕ) (m : ScopedMap ℕ) (f : String → Option ℕ) : Type 0 where
  pub result : ScopedMap ℕ
  pub runs : put x a m ≡ some result
  pub outer : SameOuter m result
  pub answers : Answers result (update x a f)

pub Put-Put :
    (x : String) (a : ℕ) (m : ScopedMap ℕ) (f : String → Option ℕ)
    → SameOuter m m
    → Answers m f
    → Put x a m f
unfolding put
Put-Put x a [] f o h = absurd o
Put-Put x a (scope ∷ m) f o h = record {
  result = insert x a scope ∷ m;
  runs = refl;
  outer = refl;
  answers = λ y. rw (get-put x y a scope m, h y);
}

-- The part of the state that the rules of scope speak of, without flags and errors.
pub record View : Type 0 where
  pub functions : ScopedMap ℕ
  pub variables : ScopedMap ℕ
  pub types : ScopedMap ℕ
  pub loops : List ℕ
  pub bindings : List Binding

abbrev pub view : State → View
view s = record {
  functions = s.functions;
  variables = s.variables;
  types = s.types;
  loops = s.loop_stack;
  bindings = s.bindings;
}

-- The scopes of the binder stand for the environment.
pub record Sees (s : View) (ρ : Env) : Type 0 where
  pub functions : Answers s.functions ρ.functions
  pub variables : Answers s.variables ρ.variables
  pub types : Answers s.types ρ.types

pub record IsReady (s : View) (ρ : Env) : Type 0 where
  pub functions : SameOuter s.functions s.functions
  pub variables : SameOuter s.variables s.variables
  pub types : SameOuter s.types s.types
  pub sees : Sees s ρ

-- `t` is `s` with uses bound.
pub record Uses (s : View) (bs : List Binding) (t : View) : Type 0 where
  pub functions : t.functions ≡ s.functions
  pub variables : t.variables ≡ s.variables
  pub types : t.types ≡ s.types
  pub loops : t.loops ≡ s.loops
  pub bindings : t.bindings ≡ s.bindings ++ bs

-- `t` is `s` with declarations in the innermost scopes, as in `ρ`, and uses bound.
pub record Declares (s : View) (ρ : Env) (bs : List Binding) (t : View) : Type 0 where
  pub functions : SameOuter s.functions t.functions
  pub variables : SameOuter s.variables t.variables
  pub types : SameOuter s.types t.types
  pub loops : t.loops ≡ s.loops
  pub sees : Sees t ρ
  pub bindings : t.bindings ≡ s.bindings ++ bs

-- The same with variables only.
pub record DeclaresVars (s : View) (ρ : Env) (bs : List Binding) (t : View) : Type 0 where
  pub functions : t.functions ≡ s.functions
  pub variables : SameOuter s.variables t.variables
  pub types : t.types ≡ s.types
  pub loops : t.loops ≡ s.loops
  pub sees : Sees t ρ
  pub bindings : t.bindings ≡ s.bindings ++ bs

module _ {s t : View} {ρ : Env} where
  pub Uses-Sees : {bs : List Binding} → Uses s bs t → Sees s ρ → Sees t ρ
  Uses-Sees u h = record {
    functions = λ x. rw u.functions (h.functions x);
    variables = λ x. rw u.variables (h.variables x);
    types = λ x. rw u.types (h.types x);
  }

  pub Uses-IsReady : {bs : List Binding} → Uses s bs t → IsReady s ρ → IsReady t ρ
  Uses-IsReady u r = record {
    functions = rw u.functions r.functions;
    variables = rw u.variables r.variables;
    types = rw u.types r.types;
    sees = Uses-Sees u r.sees;
  }

  pub Declares-IsReady : {bs : List Binding} → Declares s ρ bs t → IsReady t ρ
  Declares-IsReady d = record {
    functions = SameOuter-right s.functions t.functions d.functions;
    variables = SameOuter-right s.variables t.variables d.variables;
    types = SameOuter-right s.types t.types d.types;
    sees = d.sees;
  }

  -- Declarations of variables are declarations.
  pub DeclaresVars-Declares :
      {bs : List Binding} {σ : Env} → IsReady s σ → DeclaresVars s ρ bs t → Declares s ρ bs t
  DeclaresVars-Declares r d = record {
    functions = rw d.functions r.functions;
    variables = d.variables;
    types = rw d.types r.types;
    loops = d.loops;
    sees = d.sees;
    bindings = d.bindings;
  }

module _ {s t : View} {ρ : Env} {bs : List Binding} where
  -- Uses are declarations of nothing.
  pub Uses-DeclaresVars : IsReady s ρ → Uses s bs t → DeclaresVars s ρ bs t
  Uses-DeclaresVars r u = record {
    functions = u.functions;
    variables = rw u.variables r.variables;
    types = u.types;
    loops = u.loops;
    sees = Uses-Sees u r.sees;
    bindings = u.bindings;
  }

  pub Uses-Declares : IsReady s ρ → Uses s bs t → Declares s ρ bs t
  Uses-Declares r u = DeclaresVars-Declares r (Uses-DeclaresVars r u)

-- The bindings of one step after another.
pub bindings_trans :
    (a xs ys : List Binding) {b c : List Binding} → b ≡ a ++ xs → c ≡ b ++ ys → c ≡ a ++ (xs ++ ys)
bindings_trans a xs ys p q = rw (q, p) (append_assoc a xs ys)

module _ {s t u : View} {xs ys : List Binding} where
  pub Uses-trans : Uses s xs t → Uses t ys u → Uses s (xs ++ ys) u
  Uses-trans p q = record {
    functions = q.functions ∙ p.functions;
    variables = q.variables ∙ p.variables;
    types = q.types ∙ p.types;
    loops = q.loops ∙ p.loops;
    bindings = bindings_trans s.bindings xs ys p.bindings q.bindings;
  }

  pub Declares-trans :
      {ρ σ : Env} → Declares s ρ xs t → Declares t σ ys u → Declares s σ (xs ++ ys) u
  Declares-trans p q = record {
    functions = SameOuter-trans s.functions t.functions u.functions p.functions q.functions;
    variables = SameOuter-trans s.variables t.variables u.variables p.variables q.variables;
    types = SameOuter-trans s.types t.types u.types p.types q.types;
    loops = q.loops ∙ p.loops;
    sees = q.sees;
    bindings = bindings_trans s.bindings xs ys p.bindings q.bindings;
  }

  pub DeclaresVars-trans :
      {ρ σ : Env} → DeclaresVars s ρ xs t → DeclaresVars t σ ys u → DeclaresVars s σ (xs ++ ys) u
  DeclaresVars-trans p q = record {
    functions = q.functions ∙ p.functions;
    variables = SameOuter-trans s.variables t.variables u.variables p.variables q.variables;
    types = q.types ∙ p.types;
    loops = q.loops ∙ p.loops;
    sees = q.sees;
    bindings = bindings_trans s.bindings xs ys p.bindings q.bindings;
  }

-- An action ends without an exception, in a state with the property.
abbrev pub Runs : Option State → (State → Type 0) → Type 0
Runs o P = (t : State) × (o ≡ some t) × P t

pub Runs-bind :
    {P Q : State → Type 0} (o : Option State) (b : Action State)
    → Runs o P
    → ((t : State) → P t → Runs (b t) Q)
    → Runs (o >>= b) Q
Runs-bind o b (t, e, p) k = rw (e, ◌>>=◌) (k t p)

pub Runs-map :
    {P Q : State → Type 0} (o : Option State) → Runs o P → ((t : State) → P t → Q t) → Runs o Q
Runs-map o (t, e, p) k = (t, e, k t p)

pub Runs-if :
    {P : State → Type 0} (b : Bool) (x y : Option State)
    → Runs x P
    → Runs y P
    → Runs (if b then x else y) P
Runs-if true x y p q = p
Runs-if false x y p q = q
