-- ===== src/Tasks/Register/Acyclic.antt =====
-- src/task/task-register.cc: tasks whose dependencies have no cycle.
use mathlib.Core.Option.{some-injective}
use tiger_compilor.Prelude.{
  ℕ, zero, suc, ◌≤◌, ◌<◌, String, ◌≡◌, refl, sym, subst, ◌∙◌, true, false, Option, some, List, [],
  ◌∷◌, ◌++◌, ◌⊎◌, inl, inr, str_eq, eq_iff, arith, Bool-cases, Option-cases,
}
use tiger_compilor.Tasks.{Task, is_disjunctive, first_unless, resolve_dependencies}
use tiger_compilor.Tasks.Register.{
  Register, find, has, active_tasks, activate, resolve_in, enable_task, enable_tasks,
}
use tiger_compilor.Tasks.Register.Order.{Ordered, AllGot}
use tiger_compilor.Tasks.Register.Steps.{find-name, active_tasks-lem, has-append, enable_tasks-Step}

-- No task stands twice in the list.
abbrev pub Once : List Task → Type 0
Once [] = Unit
Once (t ∷ ts) = (has ts t.name ≡ false) × Once ts

snoc-Once : (ts : List Task) (t : Task) → Once ts → has ts t.name ≡ false → Once (ts ++ t ∷ [])
unfolding has
snoc-Once [] t h e = (refl, tt)
snoc-Once (u ∷ ts) t h e = (
  has-append u.name ts (t ∷ []) ∙ ground (arith, h.0, eq_iff u.name t.name, eq_iff t.name u.name),
  snoc-Once ts t h.1 (ground (arith, e)),
)

module _ (rank : String → ℕ) where
  abbrev pub Below : ℕ → List String → Type 0
  Below n [] = Unit
  Below n (d ∷ ds) = (rank d < n) × Below n ds

  -- A dependency ranks below the task: there is no cycle.
  abbrev pub Ranked : List Task → Type 0
  Ranked known = (x : String) (t : Task) → find x known ≡ some t → Below (rank x) t.dependencies

  -- Task by task.
  abbrev pub EachRanked : List Task → Type 0
  EachRanked [] = Unit
  EachRanked (t ∷ ts) = Below (rank t.name) t.dependencies × EachRanked ts

  pub EachRanked-Ranked : (known : List Task) → EachRanked known → Ranked known
  unfolding find
  EachRanked-Ranked [] h x t e = cc
  EachRanked-Ranked (u ∷ ts) h x t e = elim (Bool-cases (str_eq u.name x)) [
    | inl p ↦
        let same = some-injective u t (rw (p, find) at e) in
        subst (λ z. Below (rank x) z.dependencies) same
          (subst (λ n. Below (rank n) u.dependencies) ((eq_iff u.name x).0 p) h.0)
    | inr p ↦ EachRanked-Ranked ts h.1 x t (rw (p, find) at e)
  ]

  -- What is new in the order ranks below the bound, and nothing comes twice if the task is new.
  record Adds (bound : ℕ) (New : Type 0) (r s : Register) : Type 0 where
    only : (y : String) → has s.task_order y ≡ true → (has r.task_order y ≡ true) ⊎ (rank y < bound)
    once : New → Once r.task_order → Once s.task_order

  append-Adds :
      (n : ℕ) (x : String) (t : Task) (r s : Register)
      → t.name ≡ x
      → rank x < n
      → Adds (rank x) Unit r s
      → Adds n (has r.task_order x ≡ false) r (record s { task_order = s.task_order ++ t ∷ [] })
  unfolding has
  append-Adds n x t r s e h f = record {
    only = λ y q. elim (Bool-cases (has s.task_order y)) [
      | inl there ↦ elim (f.only y there) [ inl w ↦ inl w | inr w ↦ inr (omega (arith, h, w)) ]
      | inr gone ↦
          let tested = sym (has-append y s.task_order (t ∷ [])) ∙ q in
          let same = sym ((eq_iff t.name y).0 (ground (arith, tested, gone))) ∙ e in
          inr (subst (λ z. rank z < n) (sym same) h)
    ];
    once = λ fresh o.
        snoc-Once s.task_order t (f.once tt o) (elim (Bool-cases (has s.task_order t.name)) [
          | inr gone ↦ gone
          | inl there ↦ elim (f.only t.name there) [
            | inl w ↦ cc
            | inr w ↦ absurd (omega (arith, subst (λ z. rank z < rank x) e w))
          ]
        ]);
  }

  first_unless-Below :
      (n : ℕ) (ts : List Task) (ds : List String) → Below n ds → Below n (first_unless ts ds)
  first_unless-Below n [] [] h = tt
  first_unless-Below n [] (d ∷ ds) h = (h.0, tt)
  first_unless-Below n (t ∷ ts) [] h = tt
  first_unless-Below n (t ∷ ts) (d ∷ ds) h = tt

  resolve_dependencies-Below :
      (n : ℕ) (t : Task) (ts : List Task)
      → Below n t.dependencies
      → Below n (resolve_dependencies t ts)
  unfolding resolve_dependencies
  resolve_dependencies-Below n t ts h = elim (Bool-cases (is_disjunctive t.class)) [
    | inl y ↦ rw (y, resolve_dependencies) (first_unless-Below n ts t.dependencies h)
    | inr y ↦ rw (y, resolve_dependencies) h
  ]

  module _ (known : List Task) where
    -- Enabling a task that ranks below the bound ends.
    abbrev Total : ℕ → (String → Register → Option Register) → Type 0
    Total n enable =
        (x : String) (r : Register)
        → rank x < n
        → r.task_list ≡ known
        → (s : Register) × (enable x r ≡ some s)
          × Adds n (has r.task_order x ≡ false) r s
          × (s.task_list ≡ known)

    activate-Total :
        (n : ℕ) (enable : String → Register → Option Register)
        → Total n enable
        → (deps : List String) (r : Register) → Below n deps
        → r.task_list ≡ known
        → (s : Register) × (activate enable deps r ≡ some s)
          × Adds n Unit r s
          × (s.task_list ≡ known)
    unfolding activate
    activate-Total n enable total [] r h k =
        (r, refl, record { only = λ y p. inl p; once = λ _ p. p }, k)
    activate-Total n enable total (x ∷ deps) r h k = elim (Option-cases (find x r.task_list)) [
      | inl p ↦ rw (p, activate) (activate-Total n enable total deps r h.1 k)
      | inr (d, p) ↦ elim (Bool-cases (has r.task_order d.name)) [
        | inl y ↦ rw (p, y, activate) (activate-Total n enable total deps r h.1 k)
        | inr y ↦
            let absent = subst (λ z. has r.task_order z ≡ false) (find-name x r.task_list d p) y in
            let (s, a, f, l) = total x r h.0 k in
            let (t, b, g, m) = activate-Total n enable total deps s h.1 l in
            rw (p, y, activate, a)
              (
                t,
                b,
                record {
                  only = λ z q. elim (g.only z q) [ inl w ↦ f.only z w | inr w ↦ inr w ];
                  once = λ _ q. g.once tt (f.once absent q);
                },
                m,
              )
      ]
    ]

    resolve-Total :
        (n : ℕ) (enable : String → Register → Option Register)
        → Total n enable
        → (t : Task) (r : Register) → Below n t.dependencies
        → r.task_list ≡ known
        → (s : Register) × (resolve_in enable t r ≡ some s)
          × Adds n Unit r s
          × (s.task_list ≡ known)
    unfolding resolve_in
    resolve-Total n enable total t r h k =
        let (enabled, r') = active_tasks t.name t.dependencies r in
        let (p, q, _) = active_tasks-lem t.name t.dependencies r in
        let (s, a, f, l) =
          activate-Total n enable total (resolve_dependencies t enabled) r'
            (resolve_dependencies-Below n t enabled h) (p ∙ k) in
        (
          s,
          a,
          record {
            only = λ y z. subst (λ o. (has o y ≡ true) ⊎ (rank y < n)) q (f.only y z);
            once = λ _ z. f.once tt (subst Once (sym q) z);
          },
          l,
        )

    enable_task-Total : Ranked known → (fuel n : ℕ) → n ≤ fuel → Total n (enable_task fuel)
    unfolding enable_task
    enable_task-Total ranked zero n le x r h k = absurd (omega arith)
    enable_task-Total ranked (suc fuel) n le x r h k = elim (Option-cases (find x r.task_list)) [
      | inl p ↦ rw (p, enable_task) (_, refl, record { only = λ y q. inl q; once = λ _ q. q }, k)
      | inr (t, p) ↦
          let deps = ranked x t (subst (λ l. find x l ≡ some t) k p) in
          let (s, a, f, l) =
            resolve-Total (rank x) (enable_task fuel)
              (enable_task-Total ranked fuel (rank x) (omega arith)) t r deps k in
          rw (p, enable_task, a)
            (_, refl, append-Adds n x t r s (find-name x r.task_list t p) h f, l)
    ]

    enable_tasks-Total :
        Ranked known
        → (fuel : ℕ) (xs : List String) (r : Register) → Below fuel xs
        → r.task_list ≡ known
        → (s : Register) × (enable_tasks fuel xs r ≡ some s) × (s.task_list ≡ known)
    unfolding enable_tasks
    enable_tasks-Total ranked fuel [] r h k = (r, refl, k)
    enable_tasks-Total ranked fuel (x ∷ xs) r h k =
        let (s, e, _, l) = enable_task-Total ranked fuel fuel (omega arith) x r h.0 k in
        let (t, e', m) = enable_tasks-Total ranked fuel xs s h.1 l in (t, rw e e', m)

  -- If there is a rank by which each dependency of a task ranks below the task, enabling a task
  -- that ranks below the fuel ends. If the order had no task twice, and not this one, it has no
  -- task twice then, and what is new in it ranks no higher than the task.
  pub enable_task-Once :
      (fuel : ℕ) (x : String) (r : Register)
      → Ranked r.task_list
      → rank x < fuel
      → has r.task_order x ≡ false
      → Once r.task_order
      → (s : Register) × (enable_task fuel x r ≡ some s)
        × Once s.task_order
        × ((y : String)
            → has s.task_order y ≡ true
            → (has r.task_order y ≡ true) ⊎ (rank y ≤ rank x))
  enable_task-Once fuel x r ranked h fresh once =
      let (s, e, f, _) =
        enable_task-Total r.task_list ranked fuel (suc (rank x)) (omega (arith, h)) x r
          (omega arith) refl in
      (
        s,
        e,
        f.once fresh once,
        λ y q. elim (f.only y q) [ inl w ↦ inl w | inr w ↦ inr (omega (arith, w)) ],
      )

  -- If there is such a rank, enabling tasks that all rank below the fuel ends, and each task that
  -- is then in the order stands behind what it depends on, if this held before.
  pub enable_tasks-ends :
      (fuel : ℕ) (xs : List String) (r : Register)
      → Ranked r.task_list
      → Below fuel xs
      → Ordered r.task_list r.task_order
      → (s : Register) × (enable_tasks fuel xs r ≡ some s)
        × Ordered r.task_list s.task_order
        × AllGot r.task_list s.task_order xs
  enable_tasks-ends fuel xs r ranked h o =
      let (s, e, _) = enable_tasks-Total r.task_list ranked fuel xs r h refl in
      let (step, got) = enable_tasks-Step fuel xs r s e in (s, e, step.in_order o, got)
