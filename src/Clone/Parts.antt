-- ===== src/Clone/Parts.antt =====
-- src/astclone/cloner.hxx: what a part of an operation of the `Cloner` gives.
use tiger_compilor.Prelude.{◌≤◌, ◌≡◌, refl, Option, none, some, List, [], ◌∷◌, arith, All₂, Both}
use tiger_compilor.Ast.Syntax.{Node}
use tiger_compilor.Ast.Default.{Action}
use tiger_compilor.Clone.Nodes.{
  Any, State, Part, ◌▹◌, recurse, recurse_option, recurse_collection, build,
}

-- From any state the visit ends with a result that is the node of some value with the property,
-- and no address is given twice.
pub record Produces {T : Type 0} (visit : Action State) (wrap : T → Any) (Q : T → Type 0)
    : Type 0 where
  pub run :
      (s : State)
      → (t : State) × (v : T) × (visit s ≡ some t)
        × (t.result ≡ some (wrap v))
        × Q v
        × (s.next ≤ t.next)

pub record Gives {T : Type 0} (part : Part T) (Q : T → Type 0) : Type 0 where
  pub run : (s : State) → (v : T) × (t : State) × (part s ≡ some (v, t)) × Q v × (s.next ≤ t.next)

module _ {T : Type 0} (cast : Any → Option T) (wrap : T → Any)
    (casts : (v : T) → cast (wrap v) ≡ some v) where
  pub recurse-Gives :
      {visit : Action State} {Q : T → Type 0} → Produces visit wrap Q → Gives (recurse cast visit) Q
  unfolding recurse
  recurse-Gives h = record {
    run = λ s.
        let (t, v, e, r, q, le) = h.run s in (v, t, rw (e, r, recurse) (rw (casts v) refl), q, le);
  }

  pub option-Gives :
      {X : Type 0} {Q : X → T → Type 0} (visit : Option (Action State)) (x : Option X)
      → Both (λ a y. Produces a wrap (Q y)) visit x
      → Gives (recurse_option cast visit) (λ o. Both (λ v y. Q y v) o x)
  unfolding recurse_option
  option-Gives none none h = record { run = λ s. (none, s, refl, tt, omega arith) }
  option-Gives none (some y) h = absurd h
  option-Gives (some a) none h = absurd h
  option-Gives (some a) (some y) h = record {
    run = λ s. let (v, t, e, q, le) = (recurse-Gives h).run s in (some v, t, rw e refl, q, le);
  }

  pub collection-Gives :
      {X : Type 0} {Q : X → T → Type 0} (visits : List (Action State)) (xs : List X)
      → All₂ (λ a y. Produces a wrap (Q y)) visits xs
      → Gives (recurse_collection cast visits) (λ vs. All₂ (λ v y. Q y v) vs xs)
  unfolding recurse_collection
  collection-Gives [] [] h = record { run = λ s. ([], s, refl, tt, omega arith) }
  collection-Gives [] (y ∷ ys) h = absurd h
  collection-Gives (a ∷ as_) [] h = absurd h
  collection-Gives (a ∷ as_) (y ∷ ys) h = record {
    run = λ s.
        let (v, t, e, q, le) = (recurse-Gives h.0).run s in
        let (vs, u, f, qs, le') = (collection-Gives as_ ys h.1).run t in
        (v ∷ vs, u, rw e (rw f refl), (q, qs), omega (arith, le, le'));
  }

-- A part, and what is done with its value.
pub then-Produces :
    {S T : Type 0} {part : Part S} {f : S → Action State} {wrap : T → Any} {P : S → Type 0}
    {Q : T → Type 0}
    → Gives part P
    → ((v : S) → P v → Produces (f v) wrap Q)
    → Produces (part ▹ f) wrap Q
then-Produces h k = record {
  run = λ s.
      let (v, t, e, p, le) = h.run s in
      let (u, w, f, r, q, le') = (k v p).run t in (u, w, rw e f, r, q, omega (arith, le, le'));
}

pub build-Produces :
    {T : Type 0} (n : Node) (f : Node → T) {wrap : T → Any} {Q : T → Type 0}
    → ((m : Node) → m.location ≡ n.location → Q (f m))
    → Produces (build n (λ m. wrap (f m))) wrap Q
unfolding build
build-Produces n f h = record {
  run = λ s.
      let m : Node = record { address = s.next; location = n.location } in
      (_, f m, refl, refl, h m refl, omega arith);
}

-- a value that is one of a more general class
pub as-Produces :
    {S T : Type 0} {visit : Action State} {wrap : T → Any} (g : S → T) {P : S → Type 0}
    {Q : T → Type 0}
    → Produces visit (λ v. wrap (g v)) P
    → ((v : S) → P v → Q (g v))
    → Produces visit wrap Q
as-Produces g h k = record {
  run = λ s. let (t, v, e, r, p, le) = h.run s in (t, g v, e, r, k v p, le);
}

-- a result that has no node of its own
pub set-Produces :
    {T : Type 0} {wrap : T → Any} {Q : T → Type 0} (v : T)
    → Q v
    → Produces (λ s. some (record s { result = some (wrap v) })) wrap Q
set-Produces v q = record { run = λ s. (_, v, refl, refl, q, omega arith) }
