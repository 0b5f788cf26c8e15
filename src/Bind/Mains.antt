-- ===== src/Bind/Mains.antt =====
-- src/bind/binder.cc: the functions named `_main` of a program, and the flag `is_main_defined_`.
pub mod Checks
pub mod Visits
use tiger_compilor.Prelude.{
  ◌⊎◌, ◌||◌, ℕ, ◌+◌, String, ◌≡◌, refl, sym, ap, ◌∙◌, Bool, true, false, Option, none, some, List,
  [], ◌∷◌, ◌++◌, ◌≢◌, str_eq, if◌then◌else◌, ◌>>=◌, arith, All₂, Both, Bool-cases, Option-cases,
  inl, inr, subst,
}
use mathlib.Core.Option.{some-injective}
use tiger_compilor.Misc.ScopedMap.{ScopedMap, lookup, get, insert, put, scope_begin, scope_end}
use tiger_compilor.Ast.Syntax.{Node, Chunks}
use tiger_compilor.Ast.Visitor.{Decl, Visitor, accept}
use tiger_compilor.Ast.Default.{Action, skip, ◌⨾◌, each, if_present, each_decl}
use tiger_compilor.Ast.Default
use tiger_compilor.Ast.Laws.{Laws, SameDecl}
use tiger_compilor.Ast.Related.{accept-Related}
use tiger_compilor.Ast.Summary.{
  summary, joined, joined_option, joined_decls, Closed, each-joined, if_present-joined,
  each_decl-joined, three-joined, default-Laws,
}
use tiger_compilor.Bind.State.{
  Error, break_outside_loop, break_in_condition, break_in_var_dec, break_in_call, set_break,
  redeclared_main, redeclared_formal, redeclared_function, redeclared_type, Binding, State, init,
  report, set_def, put_function, put_variable, put_type, begin_functions, begin_variables,
  begin_types, end_functions, end_variables, end_types, set_in_loop, set_in_formals, set_in_vardec,
  push_loop, pop_loop,
}
use tiger_compilor.Bind.Binder.{
  bind_break, break_exp, bind_function, call_exp, bind_type, name_ty, simple_var, check_main,
  function_dec, type_dec, var_dec, let_exp, for_exp, while_exp, declare_first, type_chunk,
  function_chunk, var_chunk, binder,
}

abbrev pub number : Bool → ℕ
number true = 1
number false = 0

-- the number of declarations of a function named `_main`
abbrev pub mains : Visitor ℕ
mains = record (summary 0 ◌+◌) {
  function_dec = λ n x a b c.
      number (str_eq x "_main") + (a + (joined_option 0 ◌+◌ b + joined_option 0 ◌+◌ c));
}

-- Errors are not taken back, and without one the flag counts the declarations.
abbrev pub At : Action State → ℕ → State → Type 0
At a k s =
    (t : State)
    → a s ≡ some t
    → t.errors ≡ []
    → (s.errors ≡ []) × (number s.is_main_defined + k ≡ number t.is_main_defined)

abbrev pub Counts : Action State → ℕ → Type 0
Counts a k = (s : State) → At a k s

pub skip-Counts : Counts skip 0
skip-Counts s t e h =
    let same = some-injective s t e in
    (
      ap (λ (u : State). u.errors) same ∙ h,
      ap (λ (u : State). number u.is_main_defined + 0) same ∙ omega arith,
    )

pub ⨾-Counts : (a b : Action State) (j k : ℕ) → Counts a j → Counts b k → Counts (a ⨾ b) (j + k)
⨾-Counts a b j k h l s u e g = elim (Option-cases (a s)) [
  | inl r ↦ cc (rw r at e)
  | inr (t, r) ↦
      let (clear, second) = l t u (rw r at e) g in
      let (clear', first) = h s t r clear in (clear', omega (arith, first, second))
]

pub Counts-Closed : Closed 0 ◌+◌ Counts
Counts-Closed = record { skip_rule = skip-Counts; seq_rule = ⨾-Counts }

-- with an action that declares no function
pub before-Counts : {a b : Action State} (k : ℕ) → Counts a 0 → Counts b k → Counts (a ⨾ b) k
before-Counts {a} {b} k h l s t e g =
    let (clear, counted) = ⨾-Counts a b 0 k h l s t e g in (clear, omega (arith, counted))

pub after-Counts : {a b : Action State} (k : ℕ) → Counts a k → Counts b 0 → Counts (a ⨾ b) k
after-Counts {a} {b} k h l s t e g =
    let (clear, counted) = ⨾-Counts a b k 0 h l s t e g in (clear, omega (arith, counted))

-- a change of the other members
pub update-Counts :
    (f : State → State)
    → ((s : State) → ((f s).errors ≡ s.errors) × ((f s).is_main_defined ≡ s.is_main_defined))
    → Counts (λ s. some (f s)) 0
update-Counts f h s t e g =
    let same = some-injective (f s) t e in
    let (errors, flag) = h s in
    (
      sym errors ∙ ap (λ (u : State). u.errors) same ∙ g,
      omega (arith, ap number (sym flag ∙ ap (λ (u : State). u.is_main_defined) same)),
    )

pub maybe-Counts :
    {A : Type 0} (f : State → Option A) (g : A → State → State)
    → ((m : A) (s : State)
        → ((g m s).errors ≡ s.errors) × ((g m s).is_main_defined ≡ s.is_main_defined))
    → Counts (λ s. f s >>= λ m. some (g m s)) 0
maybe-Counts {A} f g h s t e q = elim (Option-cases (f s)) [
  | inl r ↦ cc (rw r at e)
  | inr (m, r) ↦ update-Counts (g m) (h m) s t (rw r at e) q
]

pub snoc-ne-nil : (es : List Error) (e : Error) → es ++ e ∷ [] ≢ []
snoc-ne-nil [] e h = cc
snoc-ne-nil (x ∷ es) e h = cc

pub report-Counts : (x : Error) (k : ℕ) → Counts (report x) k
report-Counts x k s t e g =
    let same = some-injective (record s { errors = s.errors ++ x ∷ [] }) t e in
    absurd (snoc-ne-nil s.errors x (ap (λ (u : State). u.errors) same ∙ g))

loops-cases : (l : List ℕ) → (l ≡ []) ⊎ ((a : ℕ) × (rest : List ℕ) × (l ≡ a ∷ rest))
loops-cases [] = inl refl
loops-cases (a ∷ rest) = inr (a, rest, refl)

pub pop_loop-Counts : Counts pop_loop 0
pop_loop-Counts s t e g = elim (loops-cases s.loop_stack) [
  | inl r ↦ cc (rw r at e)
  | inr (a, rest, r) ↦
      update-Counts (λ u. record u { loop_stack = rest }) (λ u. (refl, refl)) s t (rw r at e) g
]

pub put_function-Counts : (x : String) (n : Node) → Counts (put_function x n) 0
put_function-Counts x n =
    maybe-Counts (λ s. put x n.address s.functions) (λ m s. record s { functions = m })
      λ m s. (refl, refl)

pub put_variable-Counts : (x : String) (n : Node) → Counts (put_variable x n) 0
put_variable-Counts x n =
    maybe-Counts (λ s. put x n.address s.variables) (λ m s. record s { variables = m })
      λ m s. (refl, refl)

pub put_type-Counts : (x : String) (n : Node) → Counts (put_type x n) 0
put_type-Counts x n =
    maybe-Counts (λ s. put x n.address s.types) (λ m s. record s { types = m }) λ m s. (refl, refl)

pub end_functions-Counts : Counts end_functions 0
end_functions-Counts =
    maybe-Counts (λ s. scope_end s.functions) (λ m s. record s { functions = m })
      λ m s. (refl, refl)

pub end_variables-Counts : Counts end_variables 0
end_variables-Counts =
    maybe-Counts (λ s. scope_end s.variables) (λ m s. record s { variables = m })
      λ m s. (refl, refl)

pub end_types-Counts : Counts end_types 0
end_types-Counts =
    maybe-Counts (λ s. scope_end s.types) (λ m s. record s { types = m }) λ m s. (refl, refl)

pub begin_functions-Counts : Counts begin_functions 0
begin_functions-Counts =
    update-Counts (λ s. record s { functions = scope_begin s.functions }) λ s. (refl, refl)

pub begin_variables-Counts : Counts begin_variables 0
begin_variables-Counts =
    update-Counts (λ s. record s { variables = scope_begin s.variables }) λ s. (refl, refl)

pub begin_types-Counts : Counts begin_types 0
begin_types-Counts = update-Counts (λ s. record s { types = scope_begin s.types }) λ s. (refl, refl)

pub set_def-Counts : (b : Binding) → Counts (set_def b) 0
set_def-Counts b =
    update-Counts (λ s. record s { bindings = s.bindings ++ b ∷ [] }) λ s. (refl, refl)

pub set_in_formals-Counts : (b : Bool) → Counts (set_in_formals b) 0
set_in_formals-Counts b = update-Counts (λ s. record s { in_formals = b }) λ s. (refl, refl)

pub set_in_vardec-Counts : (b : Bool) → Counts (set_in_vardec b) 0
set_in_vardec-Counts b = update-Counts (λ s. record s { in_vardec = b }) λ s. (refl, refl)

pub set_in_loop-Counts : (b : Bool) → Counts (set_in_loop b) 0
set_in_loop-Counts b = update-Counts (λ s. record s { in_loop = b }) λ s. (refl, refl)

pub push_loop-Counts : (a : ℕ) → Counts (push_loop a) 0
push_loop-Counts a =
    update-Counts (λ s. record s { loop_stack = a ∷ s.loop_stack }) λ s. (refl, refl)
