-- ===== src/Bind/Correct/Names.antt =====
-- src/bind/binder.cc: the names that a chunk declares, with the loop that keeps a map of the names
-- seen.
use tiger_compilor.Prelude.{
  ℕ, String, ◌≡◌, refl, ap, Option, none, some, List, [], ◌∷◌, All₂, Option-cases, inl, inr, arith,
  eq_iff,
}
use mathlib.Core.Path.{fun_ext}
use tiger_compilor.Misc.ScopedMap.{lookup, insert}
use tiger_compilor.Misc.ScopedMap.Laws.{lookup-insert}
use tiger_compilor.Ast.Syntax.{Node}
use tiger_compilor.Ast.Visitor.{Decl}
use tiger_compilor.Ast.Laws.{SameDecl}
use tiger_compilor.Ast.Default.{Action}
use tiger_compilor.Bind.State.{State, Error, report}
use tiger_compilor.Bind.Binder.{declare_first}
use tiger_compilor.Bind.Scoping.{Env, Meaning, update, introduce, with_function, with_type}
use tiger_compilor.Bind.Frames.{Runs, Runs-bind}

abbrev pub heads : {X : Type 0} → List (Decl X) → List (String × Node)
heads [] = []
heads (d ∷ ds) = (d.name, d.node) ∷ heads ds

pub heads-SameDecl :
    {X Y : Type 0} (R : X → Y → Type 0) (xs : List (Decl X)) (ys : List (Decl Y))
    → All₂ (SameDecl R) xs ys
    → heads xs ≡ heads ys
heads-SameDecl R [] [] h = refl
heads-SameDecl R (x ∷ xs) (y ∷ ys) ((p, q, _), h) = rw (p, q, heads-SameDecl R xs ys h)
heads-SameDecl R [] (y ∷ ys) h = absurd h
heads-SameDecl R (x ∷ xs) [] h = absurd h

-- The first declaration of each name counts.
abbrev pub firsts : List (String × Node) → (String → Option ℕ) → String → Option ℕ
firsts [] f = f
firsts ((x, n) ∷ hs) f = update x n.address (firsts hs f)

-- What the loop with the map `seen` leaves.
later : List (String × Node) → List (String × Node) → (String → Option ℕ) → String → Option ℕ
later seen [] f = f
later seen ((x, n) ∷ hs) f = elim (lookup x seen) [
  | some first ↦ later seen hs f
  | none ↦ later (insert x n seen) hs (update x n.address f)
]

firsts-cong :
    (hs : List (String × Node)) (f g : String → Option ℕ) (y : String)
    → f y ≡ g y
    → firsts hs f y ≡ firsts hs g y
firsts-cong [] f g y h = h
firsts-cong ((x, n) ∷ hs) f g y h = ground (arith, firsts-cong hs f g y h)

later-firsts :
    (seen hs : List (String × Node)) (f : String → Option ℕ) (y : String)
    → later seen hs f y ≡ elim (lookup y seen) [ some first ↦ f y | none ↦ firsts hs f y ]
unfolding later
later-firsts seen [] f y = ground arith
later-firsts seen ((x, n) ∷ hs) f y = ground (
  arith,
  eq_iff x y,
  later-firsts seen hs f y,
  later-firsts (insert x n seen) hs (update x n.address f) y,
  lookup-insert x y n seen,
  firsts-cong hs (update x n.address f) f y,
)

later-eq-firsts : (hs : List (String × Node)) (f : String → Option ℕ) → later [] hs f ≡ firsts hs f
unfolding lookup
later-eq-firsts hs f = fun_ext (later-firsts [] hs f)

pub introduce-with_function :
    (ds : List (Decl Meaning)) (ρ : Env)
    → introduce with_function ds ρ ≡ record ρ { functions = firsts (heads ds) ρ.functions }
introduce-with_function [] ρ = refl
introduce-with_function (d ∷ ds) ρ = ap (with_function d.name d.node) (introduce-with_function ds ρ)

pub introduce-with_type :
    (ds : List (Decl Meaning)) (ρ : Env)
    → introduce with_type ds ρ ≡ record ρ { types = firsts (heads ds) ρ.types }
introduce-with_type [] ρ = refl
introduce-with_type (d ∷ ds) ρ = ap (with_type d.name d.node) (introduce-with_type ds ρ)

-- A property of the state and of the names declared so far, which each declaration keeps.
module _ (chunk : Node) (redeclared : ℕ → String → ℕ → Error)
    (declare : String → Node → Action State) (P : (String → Option ℕ) → State → Type 0)
    (reported : (e : Error) (f : String → Option ℕ) (s : State) → P f s → Runs (report e s) (P f))
    (declared : (x : String) (n : Node) (f : String → Option ℕ) (s : State)
      → P f s
      → Runs (declare x n s) (P (update x n.address f))) where
  declare_first-later :
      (seen : List (String × Node)) (ds : List (Decl (Action State))) (f : String → Option ℕ)
      (s : State)
      → P f s
      → Runs (declare_first chunk redeclared declare seen ds s) (P (later seen (heads ds) f))
  unfolding declare_first later
  declare_first-later seen [] f s h = (s, refl, h)
  declare_first-later seen (d ∷ ds) f s h = elim (Option-cases (lookup d.name seen)) [
    | inr (first, e) ↦
        rw (e, declare_first, later)
          (Runs-bind (report (redeclared chunk.location d.name first.location) s) _
            (reported _ f s h) λ t p. declare_first-later seen ds f t p)
    | inl e ↦
        rw (e, declare_first, later)
          (Runs-bind (declare d.name d.node s) _ (declared d.name d.node f s h)
            λ t p. declare_first-later (insert d.name d.node seen) ds _ t p)
  ]

  pub declare_first-firsts :
      (ds : List (Decl (Action State))) (f : String → Option ℕ) (s : State)
      → P f s
      → Runs (declare_first chunk redeclared declare [] ds s) (P (firsts (heads ds) f))
  declare_first-firsts ds f s h =
      rw (← later-eq-firsts (heads ds) f) (declare_first-later [] ds f s h)
