-- ===== src/Bind/Renamer/Laws.antt =====
-- src/bind/renamer.cc: what a walk of the renamer changes.
use tiger_compilor.Prelude.{
  ℕ, String, ◌+◌, ◌≤◌, ◌≡◌, refl, ◌≢◌, false, not, ◌&&◌, Option, some, List, arith, All₂, Both,
  str_eq, Option-cases, Bool-cases, inl, inr, ap, sym, ◌∙◌, subst,
}
use mathlib.Core.Option.{some-injective}
use tiger_compilor.Prelude.Suffix.{suffix_inj}
use tiger_compilor.Ast.Syntax.{Node, Exp}
use tiger_compilor.Ast.Visitor.{Visitor, accept_exp}
use tiger_compilor.Ast.Default.{Action, skip, ◌⨾◌, each, if_present}
use tiger_compilor.Ast.Default
use tiger_compilor.Ast.Laws.{Laws}
use tiger_compilor.Ast.Related.{accept_exp-Related}
use tiger_compilor.Ast.Summary.{
  summary, joined, Closed, each-joined, two_options-joined, three-joined, if_present-joined,
}
use tiger_compilor.Ast.Overrides.{overriding-Laws}
use tiger_compilor.Bind.Renamer.{
  State, name_set, unique_name, rename, is_present, function_dec, type_dec, var_dec, rename_use,
  call_exp, name_ty, simple_var, renamer,
}
use tiger_compilor.Ast.Addresses.{Addresses, nowhere, union, present, at_node}

-- The nodes that have a name which the pass may set.
abbrev pub named : Visitor Addresses
named = record (summary nowhere union) {
  simple_var = λ n x. at_node n nowhere;
  call_exp = λ n x fs. at_node n (joined nowhere union fs);
  var_dec = λ n x f g. at_node n (union (present f) (present g));
  function_dec = λ n x f g h. at_node n (union f (union (present g) (present h)));
  type_dec = λ n x f. at_node n f;
  name_ty = λ n x. at_node n nowhere;
}

-- The action ends, the counter does not go back, and no name is changed but those of `f`.
pub record Renamed (f : Addresses) (s t : State) : Type 0 where
  pub counter : s.unique_number ≤ t.unique_number
  pub kept : (a : ℕ) → f a ≡ false → t.name a ≡ s.name a

abbrev pub Renames : Action State → Addresses → Type 0
Renames a f = (s : State) → (t : State) × (a s ≡ some t) × Renamed f s t

skip-Renames : Renames skip nowhere
skip-Renames s = (s, refl, record { counter = omega arith; kept = λ a h. refl })

⨾-Renames :
    (a b : Action State) (f g : Addresses) → Renames a f → Renames b g → Renames (a ⨾ b) (union f g)
⨾-Renames a b f g h k s =
    let (t, e, r) = h s in
    let (u, e', r') = k t in
    (
      u,
      rw e e',
      record {
        counter = omega (arith, r.counter, r'.counter);
        kept = λ c p. r'.kept c (ground arith) ∙ r.kept c (ground arith);
      },
    )

Renames-Closed : Closed nowhere union Renames
Renames-Closed = record { skip_rule = skip-Renames; seq_rule = ⨾-Renames }

-- the name of one node is set
set-Renamed :
    (n : Node) (x : String) (k : ℕ) (s : State)
    → s.unique_number ≤ k
    → Renamed (at_node n nowhere) s (name_set n.address x (record s { unique_number = k }))
set-Renamed n x k s le = record { counter = le; kept = λ a h. ground arith }

rename-Renames : (n : Node) → Renames (rename n) (at_node n nowhere)
unfolding rename
rename-Renames n s = (_, refl, set-Renamed n _ (s.unique_number + 1) s (omega arith))

-- the state after a declaration is renamed
rename-name :
    (n : Node) (s t : State)
    → rename n s ≡ some t
    → (t.unique_number ≡ s.unique_number + 1)
      × (t.name n.address ≡ unique_name (s.name n.address) s.unique_number)
      × ((a : ℕ) → n.address ≢ a → t.name a ≡ s.name a)
unfolding rename
rename-name n s t e =
    subst
      (λ u.
        (u.unique_number ≡ s.unique_number + 1)
        × (u.name n.address ≡ unique_name (s.name n.address) s.unique_number)
        × ((a : ℕ) → n.address ≢ a → u.name a ≡ s.name a))
      (some-injective _ t e) (refl, ground arith, λ a d. ground arith)

-- and what is below the node
below-Renames :
    {a : Action State} {b : Action State} (n : Node) (f : Addresses)
    → Renames a (at_node n nowhere)
    → Renames b f
    → Renames (a ⨾ b) (at_node n f)
below-Renames {a} {b} n f h k s =
    let (t, e, r) = ⨾-Renames a b (at_node n nowhere) f h k s in
    (t, e, record { counter = r.counter; kept = λ c p. r.kept c (ground arith) })

module _ (def : ℕ → Option ℕ) where
  rename_use-Renames : (n : Node) → Renames (rename_use def n) (at_node n nowhere)
  unfolding rename_use
  rename_use-Renames n s = elim (Option-cases (def n.address)) [
    | inl e ↦ rw (e, rename_use) (s, refl, record { counter = omega arith; kept = λ a h. refl })
    | inr (d, e) ↦
        rw (e, rename_use) (_, refl, set-Renamed n (s.name d) s.unique_number s (omega arith))
  ]

  call_exp-Renames :
      (n : Node) (x : String) (as_ : List (Action State)) (fs : List Addresses)
      → All₂ Renames as_ fs
      → Renames (call_exp def n x as_) (at_node n (joined nowhere union fs))
  unfolding call_exp Default.call_exp
  call_exp-Renames n x as_ fs h =
      below-Renames n (joined nowhere union fs) (rename_use-Renames n)
        (each-joined nowhere union Renames-Closed as_ fs h)

  name_ty-Renames : (n : Node) (x : String) → Renames (name_ty def n x) (at_node n nowhere)
  unfolding name_ty
  name_ty-Renames n x = rename_use-Renames n

  simple_var-Renames : (n : Node) (x : String) → Renames (simple_var def n x) (at_node n nowhere)
  unfolding simple_var
  simple_var-Renames n x = rename_use-Renames n

  type_dec-Renames :
      (n : Node) (x : String) (a : Action State) (f : Addresses)
      → Renames a f
      → Renames (type_dec n x a) (at_node n f)
  unfolding type_dec Default.type_dec
  type_dec-Renames n x a f h = below-Renames n f (rename-Renames n) h

  var_dec-Renames :
      (n : Node) (x : String) (a b : Option (Action State)) (f g : Option Addresses)
      → Both Renames a f
      → Both Renames b g
      → Renames (var_dec n x a b) (at_node n (union (present f) (present g)))
  unfolding var_dec Default.var_dec
  var_dec-Renames n x a b f g h k =
      below-Renames n (union (present f) (present g)) (rename-Renames n)
        (two_options-joined nowhere union Renames-Closed a b f g h k)

  function_dec-Renames :
      (n : Node) (x : String) (formals : Action State) (f : Addresses) (a b : Option (Action State))
      (g h : Option Addresses)
      → Renames formals f
      → Both Renames a g
      → Both Renames b h
      → Renames (function_dec n x formals a b) (at_node n (union f (union (present g) (present h))))
  unfolding function_dec Default.function_dec
  function_dec-Renames n x formals f a b g h j k l s =
      let all = union f (union (present g) (present h)) in
      let inside =
        three-joined nowhere union Renames-Closed formals (if_present a) (if_present b) f
          (present g) (present h) j (if_present-joined nowhere union Renames-Closed a g k)
          (if_present-joined nowhere union Renames-Closed b h l) in
      elim (Bool-cases (is_present b && not (str_eq (s.name n.address) "_main"))) [
        | inl e ↦ rw (e, function_dec) (below-Renames n all (rename-Renames n) inside s)
        | inr e ↦
            rw (e, function_dec)
              (let (t, q, r) = inside s in
                (t, q, record { counter = r.counter; kept = λ c p. r.kept c (ground arith) }))
      ]

  renamer-Laws : Laws Renames Renames Renames Renames (renamer def) named
  renamer-Laws = overriding-Laws nowhere union Renames-Closed _ _ (record {
    simple_var = simple_var-Renames;
    call_exp = call_exp-Renames;
    var_dec = var_dec-Renames;
    function_dec = function_dec-Renames;
    type_dec = type_dec-Renames;
    name_ty = name_ty-Renames;
  })

  -- From any counter and any names, the renaming of an expression ends without an exception, the
  -- counter does not go back, and no name changes but those of the declarations and of the uses
  -- of names in the expression.
  accept_exp-Renamed :
      (e : Exp) (s : State)
      → (t : State) × (accept_exp (renamer def) e s ≡ some t) × Renamed (accept_exp named e) s t
  accept_exp-Renamed e = accept_exp-Related renamer-Laws e

  -- When a declaration is renamed, then an expression in which the node of that declaration is
  -- neither a declaration nor a use of a name is visited, and then another declaration is renamed,
  -- the two declarations have different names in the end.
  pub rename-distinct :
      (n m : Node) (e : Exp) (s t u v : State)
      → rename n s ≡ some t
      → accept_exp (renamer def) e t ≡ some u
      → rename m u ≡ some v
      → accept_exp named e n.address ≡ false
      → n.address ≢ m.address
      → v.name n.address ≢ v.name m.address
  rename-distinct n m e s t u v p q r h k same =
      let (w, q', c) = accept_exp-Renamed e t in
      let same_state = some-injective w u (sym q' ∙ q) in
      let (j, x, _) = rename-name n s t p in
      let (_, y, others) = rename-name m u v r in
      let kept = ap (λ z. z.name n.address) (sym same_state) ∙ c.kept n.address h ∙ x in
      let later : t.unique_number ≤ u.unique_number =
        subst (λ z. t.unique_number ≤ z.unique_number) same_state c.counter in
      let equal =
        suffix_inj (s.name n.address) (u.name m.address) s.unique_number u.unique_number
          (sym (others n.address (λ z. k (sym z)) ∙ kept) ∙ same ∙ y) in
      absurd (omega (arith, equal, later, j))
