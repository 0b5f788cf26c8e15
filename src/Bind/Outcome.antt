-- ===== src/Bind/Outcome.antt =====
-- src/bind/libbind.cc and the `break`s of src/bind/binder.cc: how the pass ends.
use tiger_compilor.Prelude.{
  ℕ, ◌≡◌, refl, false, ◌≢◌, ◌⊎◌, inl, inr, List, [], ◌∷◌, ◌++◌, Bool-cases,
}
use tiger_compilor.Ast.Syntax.{Node, Chunks}
use tiger_compilor.Bind.State.{State, Error}
use tiger_compilor.Bind.Binder.{bind_break, break_exp, Outcome, bound, exit}
use tiger_compilor.Bind.Frames.{Runs}
use tiger_compilor.Ast.Visitor.{accept}
use tiger_compilor.Bind.Mains.{mains}

-- The flags under which a `break` is refused.
abbrev pub NoFlag : State → Type 0
NoFlag s = (s.in_loop ≡ false) × (s.in_vardec ≡ false) × (s.in_formals ≡ false)

-- A `break` is bound to the innermost open loop and nothing is reported, exactly where a loop is
-- open and no flag is set.
abbrev pub IsBound : Node → State → State → Type 0
IsBound n s t =
    (loop : ℕ) × (outer : List ℕ) × (s.loop_stack ≡ loop ∷ outer)
    × NoFlag s
    × (t.breaks ≡ s.breaks ++ (n.address, loop) ∷ [])
    × (t.errors ≡ s.errors)

-- It is refused with one error, and stays unbound, where no loop is open or a flag is set.
abbrev pub IsRefused : State → State → Type 0
IsRefused s t =
    ((s.loop_stack ≡ []) ⊎ (¬ NoFlag s))
    × (t.breaks ≡ s.breaks)
    × ((e : Error) × (t.errors ≡ s.errors ++ e ∷ []))

bind_break-cases :
    (n : Node) (l : List ℕ) (s : State)
    → s.loop_stack ≡ l
    → Runs (bind_break n l s) λ t. IsBound n s t ⊎ IsRefused s t
unfolding bind_break
bind_break-cases n [] s h = (_, refl, inr (inl h, refl, (_, refl)))
bind_break-cases n (loop ∷ outer) s h = elim (Bool-cases s.in_loop) [
  | inl e ↦ rw (e, bind_break) (_, refl, inr (inr (λ k. cc (k.0)), refl, (_, refl)))
  | inr e ↦ elim (Bool-cases s.in_vardec) [
    | inl e' ↦ rw (e, e', bind_break) (_, refl, inr (inr (λ k. cc (k.1)), refl, (_, refl)))
    | inr e' ↦ elim (Bool-cases s.in_formals) [
      | inl e'' ↦ rw (e, e', e'', bind_break) (_, refl, inr (inr (λ k. cc (k.2)), refl, (_, refl)))
      | inr e'' ↦
          rw (e, e', e'', bind_break)
            (_, refl, inl (loop, outer, h, (refl, refl, refl), refl, refl))
    ]
  ]
]

-- Every `break` is either bound to the innermost open loop, with no error, where a loop is open and
-- no flag is set, or reported once and left unbound, where no loop is open or a flag is set.
pub break_exp-cases :
    (n : Node) (s : State) → Runs (break_exp n s) λ t. IsBound n s t ⊎ IsRefused s t
unfolding break_exp
break_exp-cases n s = bind_break-cases n s.loop_stack s refl

-- The tree is bound without an error and has exactly one function named `_main`, or there are errors.
abbrev pub IsOutcome : Chunks → Outcome → Type 0
IsOutcome p (bound t) = (t.errors ≡ []) × (accept mains p ≡ 1)
IsOutcome p (exit es) = es ≢ []
