-- ===== src/Tests/Cycles.antt =====
-- The tasks of src/task with a cycle of dependencies.
use tiger_compilor.Prelude.{String, ◌≡◌, refl, sym, subst, none, [], ◌∷◌, ◌⊎◌, inl, inr}
use tiger_compilor.Tasks.{
  Task, function_task, task, dependencies_of, normalize, option_names, split,
}
use tiger_compilor.Tasks.Register.{Register, find, has, enable_task}
use tiger_compilor.Tasks.Register.Cyclic.{Link, enable_task-Never}

abbrev first : Task
first = task "first" "A" "second" (function_task "first")

abbrev second : Task
second = task "second" "A" "first" (function_task "second")

abbrev tasks : Register
tasks = record { task_list = first ∷ second ∷ []; task_order = []; errors = [] }

abbrev In : String → Type 0
In x = (x ≡ "first") ⊎ (x ≡ "second")

links : (x : String) → In x → Link tasks.task_list [] In x
unfolding find has task normalize option_names dependencies_of split
links x (inl e) =
    subst (λ (y : String). Link tasks.task_list [] In y) (sym e)
      (record {
        link = first;
        found = refl;
        all = refl;
        next = "second";
        rest = [];
        depends = refl;
        there = inr refl;
        absent = refl;
      })
links x (inr e) =
    subst (λ (y : String). Link tasks.task_list [] In y) (sym e)
      (record {
        link = second;
        found = refl;
        all = refl;
        next = "first";
        rest = [];
        depends = refl;
        there = inl refl;
        absent = refl;
      })

enable_task-Never_example : enable_task 1000 "first" tasks ≡ none
enable_task-Never_example =
    enable_task-Never tasks.task_list [] In links 1000 "first" tasks (inl refl) refl refl
