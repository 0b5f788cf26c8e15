-- ===== src/Bind/Renamer/Names.antt =====
-- src/bind/renamer.cc: the names that the nodes have in the end.
use tiger_compilor.Prelude.{
  ℕ, ◌+◌, String, ◌≡◌, refl, sym, ap, subst, ◌∙◌, Bool, true, false, ◌||◌, Option, none, some, List,
  [], ◌∷◌, str_eq, if◌then◌else◌, ◌==◌, arith, Bool-cases, inl, inr,
}
use tiger_compilor.Ast.Syntax.{Node, Chunks}
use tiger_compilor.Ast.Visitor.{accept}
use tiger_compilor.Bind.Renamer.{State, unique_name, rename_program}
use tiger_compilor.Bind.Renamer.Steps.{
  Step, declares, declares_function, uses, steps, renamed, used, step, run, rename_program-Takes,
}

abbrev pub node : Step → Node
node (declares n) = n
node (declares_function n) = n
node (uses n) = n

abbrev pub mem : ℕ → List Step → Bool
mem a [] = false
mem a (x ∷ l) = (node x).address == a || mem a l

-- No node has two steps.
abbrev pub Distinct : List Step → Type 0
Distinct [] = Unit
Distinct (x ∷ l) = (mem (node x).address l ≡ false) × Distinct l

abbrev pub add : Step → (ℕ → Bool) → ℕ → Bool
add x seen a = (node x).address == a || seen a

module _ (def : ℕ → Option ℕ) (names : ℕ → String) (t : State) where
  -- A use has the name that its definition has in the end, if that stands before it, and the name
  -- that its definition had, if not.
  abbrev pub UseName : (ℕ → Bool) → Node → Option ℕ → Type 0
  UseName seen n none = t.name n.address ≡ names n.address
  UseName seen n (some d) = t.name n.address ≡ (if seen d then t.name d else names d)

  -- A function with a body keeps its name if that is `_main`.
  abbrev pub FunctionName : Bool → Node → ℕ → Type 0 → Type 0 → Type 0
  FunctionName true n k Kept Next = (t.name n.address ≡ names n.address) × Kept
  FunctionName false n k Kept Next = (t.name n.address ≡ unique_name (names n.address) k) × Next

  -- The names in the end, from the names before, by the number of renamed declarations that stand
  -- before each one.
  abbrev pub Final : ℕ → (ℕ → Bool) → List Step → Type 0
  Final k seen [] = t.unique_number ≡ k
  Final k seen (declares n ∷ l) =
      (t.name n.address ≡ unique_name (names n.address) k) × Final (k + 1) (add (declares n) seen) l
  Final k seen (declares_function n ∷ l) =
      FunctionName (str_eq (names n.address) "_main") n k
        (Final k (add (declares_function n) seen) l)
        (Final (k + 1) (add (declares_function n) seen) l)
  Final k seen (uses n ∷ l) = UseName seen n (def n.address) × Final k (add (uses n) seen) l

abbrev Disjoint : (ℕ → Bool) → List Step → Type 0
Disjoint seen l = (a : ℕ) → seen a ≡ true → mem a l ≡ false

add-Disjoint :
    (x : Step) (l : List Step) (seen : ℕ → Bool)
    → mem (node x).address l ≡ false
    → Disjoint seen (x ∷ l)
    → Disjoint (add x seen) l
add-Disjoint x l seen h d a e = elim (Bool-cases ((node x).address == a)) [
  | inl p ↦
      let same : (node x).address ≡ a = ground (arith, p) in
      subst (λ (b : ℕ). mem b l ≡ false) same h
  | inr p ↦ let there : seen a ≡ true = ground (arith, e, p) in ground (arith, d a there)
]

fresh-lem :
    (x : Step) (l : List Step) (seen : ℕ → Bool)
    → Disjoint seen (x ∷ l)
    → seen (node x).address ≡ false
fresh-lem x l seen d = elim (Bool-cases (seen (node x).address)) [
  | inr p ↦ p
  | inl p ↦ let gone = d (node x).address p in ground (arith, gone)
]

renamed-other :
    (n : Node) (s : State) (a : ℕ) → (n.address == a) ≡ false → (renamed n s).name a ≡ s.name a
renamed-other n s a h = rw h refl

module _ (def : ℕ → Option ℕ) where
  used-other :
      (n : Node) (o : Option ℕ) (s : State) (a : ℕ)
      → (n.address == a) ≡ false
      → (used def n o s).name a ≡ s.name a
  used-other n none s a h = refl
  used-other n (some d) s a h = rw h refl

  step-other :
      (x : Step) (s : State) (a : ℕ)
      → ((node x).address == a) ≡ false
      → (step def x s).name a ≡ s.name a
  unfolding step
  step-other (declares n) s a h = renamed-other n s a h
  step-other (declares_function n) s a h = elim (Bool-cases (str_eq (s.name n.address) "_main")) [
    | inl e ↦ rw e refl
    | inr e ↦ rw e (renamed-other n s a h)
  ]
  step-other (uses n) s a h = used-other n (def n.address) s a h

  run-other :
      (l : List Step) (s : State) (a : ℕ) → mem a l ≡ false → (run def l s).name a ≡ s.name a
  run-other [] s a h = refl
  run-other (x ∷ l) s a h =
      run-other l (step def x s) a (ground (arith, h)) ∙ step-other x s a (ground (arith, h))

  module _ (names : ℕ → String) where
    -- What is not seen has its name from before.
    abbrev Unchanged : (ℕ → Bool) → State → Type 0
    Unchanged seen s = (a : ℕ) → seen a ≡ false → s.name a ≡ names a

    step-Unchanged :
        (x : Step) (s : State) (seen : ℕ → Bool)
        → Unchanged seen s
        → Unchanged (add x seen) (step def x s)
    step-Unchanged x s seen u a h = step-other x s a (ground (arith, h)) ∙ u a (ground (arith, h))

    use-UseName :
        (n : Node) (o : Option ℕ) (l : List Step) (s : State) (seen : ℕ → Bool)
        → mem n.address l ≡ false
        → Disjoint seen (uses n ∷ l)
        → Unchanged seen s
        → UseName def names (run def l (used def n o s)) seen n o
    use-UseName n none l s seen h d u =
        run-other l s n.address h ∙ u n.address (fresh-lem (uses n) l seen d)
    use-UseName n (some c) l s seen h d u =
        let t = used def n (some c) s in
        let set : t.name n.address ≡ s.name c = ground arith in
        let mine = run-other l t n.address h ∙ set in
        elim (Bool-cases (seen c)) [
          | inr e ↦ rw e (mine ∙ u c e)
          | inl e ↦
              let gone = d c e in
              let kept =
                run-other l t c (ground (arith, gone))
                ∙ used-other n (some c) s c (ground (arith, gone)) in
              rw e (mine ∙ sym kept)
        ]

    renamed-lem :
        (n : Node) (l : List Step) (s : State) (k : ℕ)
        → mem n.address l ≡ false
        → s.unique_number ≡ k
        → s.name n.address ≡ names n.address
        → (run def l (renamed n s)).name n.address ≡ unique_name (names n.address) k
    renamed-lem n l s k h e u =
        let set : (renamed n s).name n.address ≡ unique_name (s.name n.address) s.unique_number =
          ground arith in
        run-other l (renamed n s) n.address h ∙ set ∙ rw (e, u) refl

    used-number :
        (n : Node) (o : Option ℕ) (s : State) → (used def n o s).unique_number ≡ s.unique_number
    used-number n none s = refl
    used-number n (some d) s = refl

    -- a function with a body, by what its name is
    function-Final :
        (n : Node) (l : List Step) (k : ℕ) (seen : ℕ → Bool) (s : State)
        → mem n.address l ≡ false
        → s.unique_number ≡ k
        → s.name n.address ≡ names n.address
        → Unchanged seen s
        → ((j : ℕ) (s' : State)
            → s'.unique_number ≡ j
            → Unchanged (add (declares_function n) seen) s'
            → Final def names (run def l s') j (add (declares_function n) seen) l)
        → (b c : Bool) → b ≡ c
        → FunctionName def names
            (run def l (if b then s else renamed n s))
            c
            n
            k
            (Final def names
              (run def l (if b then s else renamed n s))
              k
              (add (declares_function n) seen)
              l)
            (Final def names
              (run def l (if b then s else renamed n s))
              (k + 1)
              (add (declares_function n) seen)
              l)
    function-Final n l k seen s h e same u rest true true q =
        (run-other l s n.address h ∙ same, rest k s e (λ a g. u a (ground (arith, g))))
    function-Final n l k seen s h e same u rest false false q = (
      renamed-lem n l s k h e same,
      rest (k + 1) (renamed n s) (ap (λ (j : ℕ). j + 1) e)
          (λ a g. renamed-other n s a (ground (arith, g)) ∙ u a (ground (arith, g))),
    )
    function-Final n l k seen s h e same u rest true false q = cc
    function-Final n l k seen s h e same u rest false true q = cc

    run-Final :
        (l : List Step) (k : ℕ) (seen : ℕ → Bool) (s : State)
        → s.unique_number ≡ k
        → Distinct l
        → Disjoint seen l
        → Unchanged seen s
        → Final def names (run def l s) k seen l
    unfolding step
    run-Final [] k seen s e h d u = e
    run-Final (declares n ∷ l) k seen s e h d u =
        let x = declares n in
        (
          renamed-lem n l s k h.0 e (u n.address (fresh-lem x l seen d)),
          run-Final l (k + 1) (add x seen) (renamed n s) (ap (λ (j : ℕ). j + 1) e) h.1
              (add-Disjoint x l seen h.0 d) (step-Unchanged x s seen u),
        )
    run-Final (declares_function n ∷ l) k seen s e h d u =
        let x = declares_function n in
        let same = u n.address (fresh-lem x l seen d) in
        function-Final n l k seen s h.0 e same u
          (λ j s' e' u'. run-Final l j (add x seen) s' e' h.1 (add-Disjoint x l seen h.0 d) u')
          (str_eq (s.name n.address) "_main") (str_eq (names n.address) "_main")
          (ap (λ (y : String). str_eq y "_main") same)
    run-Final (uses n ∷ l) k seen s e h d u =
        let x = uses n in
        (
          use-UseName n (def n.address) l s seen h.0 d u,
          run-Final l k (add x seen) (used def n (def n.address) s)
              (used-number n (def n.address) s ∙ e) h.1 (add-Disjoint x l seen h.0 d)
              (step-Unchanged x s seen u),
        )

  -- Where no two declarations or uses share a node, the renaming of a program ends. Each declaration
  -- of a variable or a type, and each of a function with a body that is not `_main`, has its name with
  -- the number of those before it in the end, and `_main` its own; each use has the name that its
  -- definition has in the end, if that stands before it, and had before, if not; and no other name is
  -- changed.
  pub rename_program-Final :
      (tree : Chunks) (names : ℕ → String)
      → Distinct (accept steps tree)
      → (t : State) × (rename_program def tree names ≡ some t)
        × Final def names t 0 (λ a. false) (accept steps tree)
        × ((a : ℕ) → mem a (accept steps tree) ≡ false → t.name a ≡ names a)
  rename_program-Final tree names h =
      let l = accept steps tree in
      let s : State = record { unique_number = 0; name = names } in
      (
        run def l s,
        rename_program-Takes def tree names,
        run-Final names l 0 (λ a. false) s refl h (λ a e. cc) (λ a e. refl),
        run-other l s,
      )
