-- ===== src/Bind/Renamer/Steps.antt =====
-- src/bind/renamer.cc: a walk of the renamer as a sequence of steps, in the order of the text.
use tiger_compilor.Prelude.{
  Bool, true, false, ℕ, String, ◌≡◌, refl, ◌∙◌, not, Option, none, some, List, [], ◌∷◌, ◌++◌, All₂,
  Both, str_eq, if◌then◌else◌, ◌+◌, Option-cases, inl, inr, ap,
}
use tiger_compilor.Ast.Syntax.{Node, Chunks}
use tiger_compilor.Ast.Visitor.{Visitor, accept}
use tiger_compilor.Ast.Default.{Action, skip, ◌⨾◌, each, if_present}
use tiger_compilor.Ast.Default
use tiger_compilor.Ast.Laws.{Laws}
use tiger_compilor.Ast.Related.{accept-Related}
use tiger_compilor.Ast.Summary.{
  summary, joined, joined_option, Closed, each-joined, two_options-joined, three-joined,
  if_present-joined,
}
use tiger_compilor.Ast.Overrides.{overriding-Laws}
use tiger_compilor.Bind.Renamer.{
  State, name_set, unique_name, rename, function_dec, type_dec, var_dec, rename_use, call_exp,
  name_ty, simple_var, renamer, rename_program,
}

-- A declaration of a variable or a type, one of a function that has a body, or a use of a name.
pub data Step : Type 0 where
  declares declares_function uses : Node → Step

abbrev pub function_step : {X : Type 0} → Node → Option X → List Step
function_step n none = []
function_step n (some body) = declares_function n ∷ []

abbrev pub present : Option (List Step) → List Step
present o = joined_option [] ◌++◌ o

-- the steps of a tree
abbrev pub steps : Visitor (List Step)
steps = record (summary [] ◌++◌) {
  simple_var = λ n x. uses n ∷ [];
  call_exp = λ n x fs. uses n ∷ joined [] ◌++◌ fs;
  var_dec = λ n x f g. declares n ∷ present f ++ present g;
  function_dec = λ n x f g h. function_step n h ++ (f ++ (present g ++ present h));
  type_dec = λ n x f. declares n ∷ f;
  name_ty = λ n x. uses n ∷ [];
}

abbrev pub renamed : Node → State → State
renamed n s =
    name_set n.address (unique_name (s.name n.address) s.unique_number)
      (record s { unique_number = s.unique_number + 1 })

module _ (def : ℕ → Option ℕ) where
  abbrev pub used : Node → Option ℕ → State → State
  used n none s = s
  used n (some d) s = name_set n.address (s.name d) s

  unfoldable pub step : Step → State → State
  step (declares n) s = renamed n s
  step (declares_function n) s = if str_eq (s.name n.address) "_main" then s else renamed n s
  step (uses n) s = used n (def n.address) s

  abbrev pub run : List Step → State → State
  run [] s = s
  run (x ∷ l) s = run l (step x s)

  run-append : (l m : List Step) (s : State) → run (l ++ m) s ≡ run m (run l s)
  run-append [] m s = refl
  run-append (x ∷ l) m s = run-append l m (step x s)

  -- An action takes the steps.
  abbrev pub Takes : Action State → List Step → Type 0
  Takes a l = (s : State) → a s ≡ some (run l s)

  ⨾-Takes : (a b : Action State) (l m : List Step) → Takes a l → Takes b m → Takes (a ⨾ b) (l ++ m)
  ⨾-Takes a b l m h k s =
      rw (h s) (k (run l s) ∙ ap (λ (u : State). some u) (rw (run-append l m s) refl))

  Takes-Closed : Closed [] ◌++◌ Takes
  Takes-Closed = record { skip_rule = λ s. refl; seq_rule = ⨾-Takes }

  rename-Takes : (n : Node) → Takes (rename n) (declares n ∷ [])
  unfolding rename step
  rename-Takes n s = refl

  rename_use-Takes : (n : Node) → Takes (rename_use def n) (uses n ∷ [])
  unfolding rename_use step
  rename_use-Takes n s = elim (Option-cases (def n.address)) [
    | inl e ↦ rw (e, rename_use, step) refl
    | inr (d, e) ↦ rw (e, rename_use, step) refl
  ]

  simple_var-Takes : (n : Node) (x : String) → Takes (simple_var def n x) (uses n ∷ [])
  unfolding simple_var
  simple_var-Takes n x = rename_use-Takes n

  name_ty-Takes : (n : Node) (x : String) → Takes (name_ty def n x) (uses n ∷ [])
  unfolding name_ty
  name_ty-Takes n x = rename_use-Takes n

  call_exp-Takes :
      (n : Node) (x : String) (as_ : List (Action State)) (fs : List (List Step))
      → All₂ Takes as_ fs
      → Takes (call_exp def n x as_) (uses n ∷ joined [] ◌++◌ fs)
  unfolding call_exp Default.call_exp
  call_exp-Takes n x as_ fs h =
      ⨾-Takes (rename_use def n) (each as_) (uses n ∷ []) (joined [] ◌++◌ fs) (rename_use-Takes n)
        (each-joined [] ◌++◌ Takes-Closed as_ fs h)

  type_dec-Takes :
      (n : Node) (x : String) (a : Action State) (l : List Step)
      → Takes a l
      → Takes (type_dec n x a) (declares n ∷ l)
  unfolding type_dec Default.type_dec
  type_dec-Takes n x a l h = ⨾-Takes (rename n) a (declares n ∷ []) l (rename-Takes n) h

  var_dec-Takes :
      (n : Node) (x : String) (a b : Option (Action State)) (f g : Option (List Step))
      → Both Takes a f
      → Both Takes b g
      → Takes (var_dec n x a b) (declares n ∷ present f ++ present g)
  unfolding var_dec Default.var_dec
  var_dec-Takes n x a b f g h k =
      ⨾-Takes (rename n) (if_present a ⨾ if_present b) (declares n ∷ []) (present f ++ present g)
        (rename-Takes n) (two_options-joined [] ◌++◌ Takes-Closed a b f g h k)

  -- a declaration that is renamed unless it is `_main`
  unless-lem :
      (b : Bool) (n : Node) (rest : Action State) (all : List Step)
      → Takes rest all
      → (s : State)
      → (if not b then (rename n ⨾ rest) s else rest s)
        ≡ some (run all (if b then s else renamed n s))
  unfolding rename
  unless-lem true n rest all h s = h s
  unless-lem false n rest all h s = h (renamed n s)

  function_dec-Takes :
      (n : Node) (x : String) (formals : Action State) (f : List Step) (a b : Option (Action State))
      (g h : Option (List Step))
      → Takes formals f
      → Both Takes a g
      → Both Takes b h
      → Takes (function_dec n x formals a b) (function_step n h ++ (f ++ (present g ++ present h)))
  unfolding function_dec Default.function_dec step
  function_dec-Takes n x formals f a none g none j k l s =
      three-joined [] ◌++◌ Takes-Closed formals (if_present a) skip f (present g) [] j
        (if_present-joined [] ◌++◌ Takes-Closed a g k) (λ u. refl) s
  function_dec-Takes n x formals f a (some b) g (some h) j k l s =
      let all = f ++ (present g ++ h) in
      let inside =
        three-joined [] ◌++◌ Takes-Closed formals (if_present a) b f (present g) h j
          (if_present-joined [] ◌++◌ Takes-Closed a g k) l in
      unless-lem (str_eq (s.name n.address) "_main") n (Default.function_dec n x formals a (some b))
        all inside s
  function_dec-Takes n x formals f a none g (some h) j k l s = absurd l
  function_dec-Takes n x formals f a (some b) g none j k l s = absurd l

  renamer-Laws : Laws Takes Takes Takes Takes (renamer def) steps
  renamer-Laws = overriding-Laws [] ◌++◌ Takes-Closed _ _ (record {
    simple_var = simple_var-Takes;
    call_exp = call_exp-Takes;
    var_dec = var_dec-Takes;
    function_dec = function_dec-Takes;
    type_dec = type_dec-Takes;
    name_ty = name_ty-Takes;
  })

  pub rename_program-Takes :
      (tree : Chunks) (names : ℕ → String)
      → rename_program def tree names
        ≡ some (run (accept steps tree) (record { unique_number = 0; name = names }))
  unfolding rename_program
  rename_program-Takes tree names =
      accept-Related renamer-Laws tree (record { unique_number = 0; name = names })
