-- ===== src/Tasks/Register/Steps.antt =====
-- src/task/task-register.cc: the order when tasks are enabled.
use mathlib.Core.Option.{some-injective}
use tiger_compilor.Prelude.{
  ℕ, zero, suc, String, ◌≡◌, refl, sym, ap, subst, ◌∙◌, true, ◌||◌, Option, some, List, [], ◌∷◌,
  ◌++◌, ◌⊎◌, inl, inr, str_eq, eq_iff, arith, bind-some, Bool-cases, Option-cases,
}
use tiger_compilor.Tasks.{Task, is_disjunctive, first_unless, resolve_dependencies}
use tiger_compilor.Tasks.Register.{
  not_registered, unknown_task, Register, find, has, task_error, active_tasks, activate, resolve_in,
  enable_task, enable_tasks,
}
use tiger_compilor.Tasks.Register.Order.{
  Got, AllGot, SomeGot, Alternative, Met, Ordered, snoc-OrderedAfter,
}

-- What holds of the register before and after tasks are enabled.
pub record Step (r s : Register) : Type 0 where
  pub kept : s.task_list ≡ r.task_list
  pub grows : (x : String) → has r.task_order x ≡ true → has s.task_order x ≡ true
  pub in_order : Ordered r.task_list r.task_order → Ordered r.task_list s.task_order

Step-trans : {r s t : Register} → Step r s → Step s t → Step r t
Step-trans {r} {s} {t} h k = record {
  kept = k.kept ∙ h.kept;
  grows = λ x p. k.grows x (h.grows x p);
  in_order = λ p.
      subst (λ l. Ordered l t.task_order) h.kept
        (k.in_order (subst (λ l. Ordered l s.task_order) (sym h.kept) (h.in_order p)));
}

-- only the errors change
same-Step : {r s : Register} → s.task_list ≡ r.task_list → s.task_order ≡ r.task_order → Step r s
same-Step {r} {s} p q = record {
  kept = p;
  grows = λ x h. subst (λ o. has o x ≡ true) (sym q) h;
  in_order = λ h. subst (Ordered r.task_list) (sym q) h;
}

pub find-name : (x : String) (ts : List Task) (t : Task) → find x ts ≡ some t → t.name ≡ x
unfolding find
find-name x [] t e = cc
find-name x (u ∷ ts) t e = elim (Bool-cases (str_eq u.name x)) [
  | inl p ↦
      let same = some-injective u t (rw (p, find) at e) in
      ap (λ v. v.name) (sym same) ∙ (eq_iff u.name x).0 p
  | inr p ↦ find-name x ts t (rw (p, find) at e)
]

later :
    {A : Type 0} (front : List Task) (x : String) (xs : List String)
    → A ⊎ SomeGot front xs
    → A ⊎ SomeGot front (x ∷ xs)
later front x xs (inl a) = inl a
later front x xs (inr h) = inr (inr h)

pub active_tasks-lem :
    (name : String) (deps : List String) (r : Register)
    → ((active_tasks name deps r).1.task_list ≡ r.task_list)
      × ((active_tasks name deps r).1.task_order ≡ r.task_order)
      × (((active_tasks name deps r).0 ≡ []) ⊎ SomeGot r.task_order deps)
unfolding active_tasks
active_tasks-lem name [] r = (refl, refl, inl refl)
active_tasks-lem name (s ∷ deps) r = elim (Option-cases (find s r.task_list)) [
  | inl e ↦
      rw (e, active_tasks)
        (let (p, q, h) = active_tasks-lem name deps (task_error (unknown_task name s) r) in
          (p, q, later r.task_order s deps h))
  | inr (d, e) ↦
      let (p, q, h) = active_tasks-lem name deps r in
      elim (Bool-cases (has r.task_order d.name)) [
        | inl y ↦
            rw (e, active_tasks)
              (
                p,
                q,
                inr (inl (subst (λ z. has r.task_order z ≡ true) (find-name s r.task_list d e) y)),
              )
        | inr y ↦ rw (e, active_tasks, y) (p, q, later r.task_order s deps h)
      ]
]

widen-Got :
    (known : List Task) {r s : Register} (x : String)
    → Step r s
    → Got known r.task_order x
    → Got known s.task_order x
widen-Got known x h (inl e) = inl e
widen-Got known x h (inr e) = inr (h.grows x e)

widen-SomeGot :
    {r s : Register} (xs : List String)
    → Step r s
    → SomeGot r.task_order xs
    → SomeGot s.task_order xs
widen-SomeGot [] h g = g
widen-SomeGot (x ∷ xs) h (inl e) = inl (h.grows x e)
widen-SomeGot (x ∷ xs) h (inr g) = inr (widen-SomeGot xs h g)

Alternative-Met :
    (known en : List Task) (deps : List String) (r s : Register)
    → Step r s
    → (en ≡ []) ⊎ SomeGot r.task_order deps
    → AllGot known s.task_order (first_unless en deps)
    → Alternative known s.task_order deps
Alternative-Met known en [] r s h c got = tt
Alternative-Met known [] (x ∷ deps) r s h c got = elim got.0 [ inl e ↦ inr e | inr y ↦ inl (inl y) ]
Alternative-Met known (e ∷ es) (x ∷ deps) r s h c got = elim c [
  | inl none_enabled ↦ cc
  | inr g ↦ inl (widen-SomeGot (x ∷ deps) h g)
]

pub has-append : (x : String) (ts us : List Task) → has (ts ++ us) x ≡ (has ts x || has us x)
unfolding has
has-append x [] us = refl
has-append x (t ∷ ts) us = ground (arith, has-append x ts us)

-- How a task is enabled below.
abbrev pub Enables : (String → Register → Option Register) → Type 0
Enables enable =
    (x : String) (r s : Register) → enable x r ≡ some s → Step r s × Got r.task_list s.task_order x

module _ (enable : String → Register → Option Register) (enables : Enables enable) where
  activate-Step :
      (deps : List String) (r s : Register)
      → activate enable deps r ≡ some s
      → Step r s × AllGot r.task_list s.task_order deps
  unfolding activate
  activate-Step [] r s e =
      let same = some-injective r s e in
      (same-Step (ap (λ z. z.task_list) (sym same)) (ap (λ z. z.task_order) (sym same)), tt)
  activate-Step (x ∷ deps) r s e = elim (Option-cases (find x r.task_list)) [
    | inl p ↦ let (h, got) = activate-Step deps r s (rw (p, activate) at e) in (h, (inl p, got))
    | inr (d, p) ↦ elim (Bool-cases (has r.task_order d.name)) [
      | inl y ↦
          let (h, got) = activate-Step deps r s (rw (p, y, activate) at e) in
          (
            h,
            (
              inr (
                  h.grows x
                    (subst (λ z. has r.task_order z ≡ true) (find-name x r.task_list d p) y)),
              got,
            ),
          )
      | inr y ↦
          let (t, a, b) =
            bind-some (enable x r) (activate enable deps) s (rw (p, y, activate) at e) in
          let (h, got) = enables x r t a in
          let (k, rest) = activate-Step deps t s b in
          (
            Step-trans h k,
            (widen-Got r.task_list x k got, subst (λ l. AllGot l s.task_order deps) h.kept rest),
          )
    ]
  ]

  -- A task asks for all its dependencies, or for one of them.
  resolve-Met :
      (t : Task) (r s : Register)
      → resolve_in enable t r ≡ some s
      → Step r s × Met r.task_list s.task_order t
  unfolding resolve_in resolve_dependencies
  resolve-Met t r s e =
      let (enabled, r') = active_tasks t.name t.dependencies r in
      let (p, q, c) = active_tasks-lem t.name t.dependencies r in
      let h : Step r r' = same-Step p q in
      elim (Bool-cases (is_disjunctive t.class)) [
        | inl y ↦
            let (k, got) =
              activate-Step (first_unless enabled t.dependencies) r' s
                (rw (y, resolve_in, resolve_dependencies) at e) in
            rw (y, Met)
              (
                Step-trans h k,
                Alternative-Met r.task_list enabled t.dependencies r' s k
                    (subst (λ o. (enabled ≡ []) ⊎ SomeGot o t.dependencies) (sym q) c)
                    (subst (λ l. AllGot l s.task_order (first_unless enabled t.dependencies)) p
                      got),
              )
        | inr y ↦
            let (k, got) =
              activate-Step t.dependencies r' s (rw (y, resolve_in, resolve_dependencies) at e) in
            rw (y, Met) (Step-trans h k, subst (λ l. AllGot l s.task_order t.dependencies) p got)
      ]

-- A task stands in the order behind what it asks for.
add-Step :
    (x : String) (t : Task) (r s : Register)
    → t.name ≡ x
    → Step r s
    → Met r.task_list s.task_order t
    → Step r (record s { task_order = s.task_order ++ t ∷ [] })
      × Got r.task_list (s.task_order ++ t ∷ []) x
unfolding has
add-Step x t r s e h met = (
  record {
    kept = h.kept;
    grows = λ y g. has-append y s.task_order (t ∷ []) ∙ ground (arith, h.grows y g);
    in_order = λ o. snoc-OrderedAfter r.task_list [] s.task_order t (h.in_order o) met;
  },
  inr (has-append x s.task_order (t ∷ []) ∙ ground (arith, (eq_iff t.name x).1 e)),
)

pub enable_task-Enables : (fuel : ℕ) → Enables (enable_task fuel)
unfolding enable_task
enable_task-Enables zero x r s e = cc
enable_task-Enables (suc fuel) x r s e = elim (Option-cases (find x r.task_list)) [
  | inl p ↦
      let same = some-injective (task_error (not_registered x) r) s (rw (p, enable_task) at e) in
      (same-Step (ap (λ z. z.task_list) (sym same)) (ap (λ z. z.task_order) (sym same)), inl p)
  | inr (t, p) ↦
      let (u, a, b) =
        bind-some (resolve_in (enable_task fuel) t r) _ s (rw (p, enable_task) at e) in
      let (h, met) = resolve-Met (enable_task fuel) (enable_task-Enables fuel) t r u a in
      let same = some-injective (record u { task_order = u.task_order ++ t ∷ [] }) s b in
      subst (λ z. Step r z × Got r.task_list z.task_order x) same
        (add-Step x t r u (find-name x r.task_list t p) h met)
]

-- If the enabling of the tasks of a command line returns, whatever their dependencies, the order has
-- grown, each task of the command line that is registered is in it, and, if this held
-- before, each task of the order stands behind all its registered dependencies, or, for a
-- disjunctive task that has dependencies, behind one of them, unless the first is not registered.
pub enable_tasks-Step :
    (fuel : ℕ) (xs : List String) (r s : Register)
    → enable_tasks fuel xs r ≡ some s
    → Step r s × AllGot r.task_list s.task_order xs
unfolding enable_tasks
enable_tasks-Step fuel [] r s e =
    let same = some-injective r s e in
    (same-Step (ap (λ z. z.task_list) (sym same)) (ap (λ z. z.task_order) (sym same)), tt)
enable_tasks-Step fuel (x ∷ xs) r s e =
    let (t, a, b) = bind-some (enable_task fuel x r) (enable_tasks fuel xs) s e in
    let (h, got) = enable_task-Enables fuel x r t a in
    let (k, rest) = enable_tasks-Step fuel xs t s b in
    (
      Step-trans h k,
      (widen-Got r.task_list x k got, subst (λ l. AllGot l s.task_order xs) h.kept rest),
    )
