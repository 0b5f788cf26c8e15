-- ===== src/Bind/Mains/Checks.antt =====
-- src/bind/binder.cc: what the binder does at one node counts no `_main` but the one declared there.
use tiger_compilor.Prelude.{
  ◌||◌, ℕ, ◌+◌, String, ◌≡◌, refl, ap, ◌∙◌, Bool, true, false, some, List, [], ◌∷◌, ◌++◌, str_eq,
  if◌then◌else◌, arith, All₂, Bool-cases, Option-cases, inl, inr,
}
use mathlib.Core.Option.{some-injective}
use tiger_compilor.Misc.ScopedMap.{lookup, get, insert}
use tiger_compilor.Ast.Syntax.{Node}
use tiger_compilor.Ast.Visitor.{Decl}
use tiger_compilor.Ast.Default.{Action, skip, ◌⨾◌, each_decl}
use tiger_compilor.Ast.Laws.{SameDecl}
use tiger_compilor.Ast.Summary.{joined_decls, each_decl-joined}
use tiger_compilor.Bind.State.{
  Error, break_outside_loop, break_in_condition, break_in_var_dec, break_in_call, set_break,
  redeclared_main, State, report,
}
use tiger_compilor.Bind.Binder.{
  bind_break, break_exp, bind_function, bind_type, name_ty, simple_var, check_main, declare_first,
}
use tiger_compilor.Bind.Mains.{
  number, At, Counts, skip-Counts, ⨾-Counts, Counts-Closed, before-Counts, update-Counts,
  report-Counts, set_def-Counts,
}

-- a test, at one state
pub if-Counts :
    (b : Bool) (x y : Action State) (k : ℕ) (s : State)
    → (b ≡ true → At x k s)
    → (b ≡ false → At y k s)
    → At (λ u. if b then x u else y u) k s
if-Counts true x y k s h l = h refl
if-Counts false x y k s h l = l refl

pub bind_break-Counts : (n : Node) (l : List ℕ) → Counts (bind_break n l) 0
unfolding bind_break
bind_break-Counts n [] s = report-Counts (break_outside_loop n.location) 0 s
bind_break-Counts n (loop ∷ outer) s =
    if-Counts s.in_loop (report (break_in_condition n.location))
      (λ u.
        if s.in_vardec
        then report (break_in_var_dec n.location) u
        else if s.in_formals
        then report (break_in_call n.location) u
        else set_break n.address loop u)
      0 s (λ p. report-Counts _ 0 s)
      λ p.
        if-Counts s.in_vardec (report (break_in_var_dec n.location))
          (λ u.
            if s.in_formals
            then report (break_in_call n.location) u
            else set_break n.address loop u)
          0 s (λ q. report-Counts _ 0 s)
          λ q.
            if-Counts s.in_formals (report (break_in_call n.location)) (set_break n.address loop) 0
              s (λ r. report-Counts _ 0 s)
              λ r.
                update-Counts (λ u. record u { breaks = u.breaks ++ (n.address, loop) ∷ [] })
                  (λ u. (refl, refl)) s

pub break_exp-Counts : (n : Node) → Counts (break_exp n) 0
unfolding break_exp
break_exp-Counts n s = bind_break-Counts n s.loop_stack s

pub bind_function-Counts : (n : Node) (x : String) → Counts (bind_function n x) 0
unfolding bind_function
bind_function-Counts n x s = elim (Option-cases (get x s.functions)) [
  | inl p ↦ rw (bind_function, p) (report-Counts _ 0 s)
  | inr (d, p) ↦ rw (bind_function, p) (set_def-Counts _ s)
]

pub bind_type-Counts : (n : Node) (x : String) → Counts (bind_type n x) 0
unfolding bind_type
bind_type-Counts n x s = elim (Option-cases (get x s.types)) [
  | inl p ↦ rw (bind_type, p) (report-Counts _ 0 s)
  | inr (d, p) ↦ rw (bind_type, p) (set_def-Counts _ s)
]

pub simple_var-Counts : (n : Node) (x : String) → Counts (simple_var n x) 0
unfolding simple_var
simple_var-Counts n x s = elim (Option-cases (get x s.variables)) [
  | inl p ↦ rw (simple_var, p) (report-Counts _ 0 s)
  | inr (d, p) ↦ rw (simple_var, p) (set_def-Counts _ s)
]

pub name_ty-Counts : (n : Node) (x : String) → Counts (name_ty n x) 0
unfolding name_ty
name_ty-Counts n x = elim (Bool-cases (str_eq x "string" || str_eq x "int")) [
  | inl p ↦ rw p skip-Counts
  | inr p ↦ rw p (bind_type-Counts n x)
]

pub check_main-Counts :
    (n : Node) (x : String) → Counts (check_main n x) (number (str_eq x "_main"))
unfolding check_main
check_main-Counts n x s =
    let b = str_eq x "_main" in
    if-Counts b
      (λ u.
        if s.is_main_defined
        then report (redeclared_main n.location) u
        else some (record u { is_main_defined = true }))
      skip (number b) s
      (λ main.
        if-Counts s.is_main_defined (report (redeclared_main n.location))
          (λ u. some (record u { is_main_defined = true })) (number b) s
          (λ p. report-Counts _ (number b) s)
          λ p t e g.
            let same = some-injective (record s { is_main_defined = true }) t e in
            (
              ap (λ (u : State). u.errors) same ∙ g,
              omega (
                arith,
                ap number main,
                ap number p,
                ap (λ (u : State). number u.is_main_defined) same,
              ),
            ))
      λ other t e g.
        let (clear, counted) = skip-Counts s t e g in
        (clear, omega (arith, ap number other, counted))

module _ (chunk : Node) (redeclared : ℕ → String → ℕ → Error)
    (declare : String → Node → Action State)
    (quiet : (x : String) (n : Node) → Counts (declare x n) 0) where
  pub declare_first-Counts :
      (seen : List (String × Node)) (ds : List (Decl (Action State)))
      → Counts (declare_first chunk redeclared declare seen ds) 0
  unfolding declare_first
  declare_first-Counts seen [] s = skip-Counts s
  declare_first-Counts seen (d ∷ ds) s = elim (Option-cases (lookup d.name seen)) [
    | inr (first, p) ↦
        rw (declare_first, p)
          (⨾-Counts (report (redeclared chunk.location d.name first.location)) _ 0 0
            (report-Counts _ 0) (declare_first-Counts seen ds) s)
    | inl p ↦
        rw (declare_first, p)
          (⨾-Counts (declare d.name d.node) _ 0 0 (quiet d.name d.node)
            (declare_first-Counts (insert d.name d.node seen) ds) s)
  ]

  pub chunk-Counts :
      (ds : List (Decl (Action State))) (ks : List (Decl ℕ))
      → All₂ (SameDecl Counts) ds ks
      → Counts (declare_first chunk redeclared declare [] ds ⨾ each_decl ds) (joined_decls 0 ◌+◌ ks)
  chunk-Counts ds ks h =
      before-Counts (joined_decls 0 ◌+◌ ks) (declare_first-Counts [] ds)
        (each_decl-joined 0 ◌+◌ Counts-Closed ds ks h)
