-- ===== src/Tasks/Register/Cyclic.antt =====
-- src/task/task-register.cc: tasks whose dependencies have a cycle.
use tiger_compilor.Prelude.{
  ℕ, zero, suc, String, ◌≡◌, refl, ap, ◌∙◌, false, Option, none, some, List, ◌∷◌,
}
use tiger_compilor.Tasks.{Task, is_disjunctive, resolve_dependencies}
use tiger_compilor.Tasks.Register.{
  Register, find, has, active_tasks, activate, resolve_in, enable_task,
}
use tiger_compilor.Tasks.Register.Steps.{find-name, active_tasks-lem}

-- Each name of a set is that of a task that is not disjunctive, and that depends first on a name of
-- the set that is not in the order.
pub record Link (known order : List Task) (In : String → Type 0) (x : String) : Type 0 where
  pub link : Task
  pub found : find x known ≡ some link
  pub all : is_disjunctive link.class ≡ false
  pub next : String
  pub rest : List String
  pub depends : link.dependencies ≡ next ∷ rest
  pub there : In next
  pub absent : has order next ≡ false

all-lem :
    (t : Task) (ts : List Task)
    → is_disjunctive t.class ≡ false
    → resolve_dependencies t ts ≡ t.dependencies
unfolding resolve_dependencies
all-lem t ts e = rw (resolve_dependencies, e) refl

module _ (known order : List Task) (In : String → Type 0)
    (links : (x : String) → In x → Link known order In x) where
  -- The first dependency is asked for, and never enabled.
  activate-Never :
      (enable : String → Register → Option Register) (y : String) (deps : List String)
      (r : Register)
      → ((s : Register) → s.task_list ≡ known → s.task_order ≡ order → enable y s ≡ none)
      → In y
      → has order y ≡ false
      → r.task_list ≡ known
      → r.task_order ≡ order
      → activate enable (y ∷ deps) r ≡ none
  unfolding activate
  activate-Never enable y deps r never there absent k o =
      let l = links y there in
      let found : find y r.task_list ≡ some l.link = ap (find y) k ∙ l.found in
      let named = find-name y known l.link l.found in
      let gone : has r.task_order l.link.name ≡ false =
        ap (λ (z : String). has r.task_order z) named
        ∙ ap (λ (z : List Task). has z y) o
        ∙ absent in
      let raised = never r k o in rw (activate, found, gone, raised) refl

  -- If each task of a set of names is registered, is not disjunctive, and depends first on one of the
  -- set that is not in the order, enabling one of them has no end: no depth of recursion is enough.
  pub enable_task-Never :
      (fuel : ℕ) (x : String) (r : Register)
      → In x
      → r.task_list ≡ known
      → r.task_order ≡ order
      → enable_task fuel x r ≡ none
  unfolding enable_task resolve_in resolve_dependencies
  enable_task-Never zero x r h k o = refl
  enable_task-Never (suc fuel) x r h k o =
      let l = links x h in
      let t = l.link in
      let (enabled, r') = active_tasks t.name t.dependencies r in
      let (p, q, _) = active_tasks-lem t.name t.dependencies r in
      let never =
        activate-Never (enable_task fuel) l.next l.rest r'
          (λ s k' o'. enable_task-Never fuel l.next s l.there k' o') l.there l.absent (p ∙ k)
          (q ∙ o) in
      let resolved : resolve_in (enable_task fuel) t r ≡ none =
        ap (λ (deps : List String). activate (enable_task fuel) deps r')
          (all-lem t enabled l.all ∙ l.depends)
        ∙ never in
      let found : find x r.task_list ≡ some t = ap (find x) k ∙ l.found in
      rw (enable_task, found, resolved) refl
