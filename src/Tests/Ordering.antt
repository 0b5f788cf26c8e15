-- ===== src/Tests/Ordering.antt =====
-- The tasks of src/task on a small register.
use tiger_compilor.Prelude.{
  ℕ, String, ◌≡◌, refl, true, Option, some, List, [], ◌∷◌, map, str_eq, if◌then◌else◌, ◌⊎◌, ◌≤◌,
  arith, ◌&&◌,
}
use mathlib.Core.Option
use tiger_compilor.Tasks.{
  Task, disjunctive_task, function_task, task, dependencies_of, normalize, option_names,
  resolve_dependencies,
}
use tiger_compilor.Tasks.Numbers.{pos, leb, to_int, is_int}
use tiger_compilor.Tasks.Arguments.{Parsed, value, Argument, returned, arg_set, arg_set-bounds}
use tiger_compilor.Tasks.Names.{is_plain, dependencies_of-spaced}
use tiger_compilor.Tasks.Register.{Register, find, has, register_task, enable_task, enable_tasks}
use tiger_compilor.Tasks.Register.Order.{Ordered, AllGot}
use tiger_compilor.Tasks.Register.Acyclic.{
  Once, Ranked, EachRanked-Ranked, enable_task-Once, enable_tasks-ends,
}

abbrev parse : Task
parse = task "parse" "Parse" "" (function_task "parse")

abbrev bind : Task
bind = task "b|bind_all" "Bind" "parse" (function_task "bind")

abbrev types : Task
types = task "types" "Types" "bind_all parse" disjunctive_task

-- the register of the three tasks
abbrev tasks : Register
tasks = record { task_list = parse ∷ bind ∷ types ∷ []; task_order = []; errors = [] }

registered :
    register_task types (
      register_task bind
        (register_task parse (record { task_list = []; task_order = []; errors = [] })))
    ≡ tasks
unfolding register_task find task option_names normalize
registered = refl

names :
    map {B = String × String} (λ t. (t.name, t.fullname)) tasks.task_list
    ≡ ("parse", "parse") ∷ ("bind-all", "bind-all,b") ∷ ("types", "types") ∷ []
unfolding task normalize option_names
names = refl

abbrev order_of : Option Register → Option (List String)
order_of = Option.map {B = List String} λ r. map (λ t. t.name) r.task_order

-- The disjunction takes its first dependency, and this its own.
selected : order_of (enable_task 3 "types" tasks) ≡ some ("parse" ∷ "bind-all" ∷ "types" ∷ [])
unfolding enable_task find has task normalize option_names dependencies_of resolve_dependencies
selected = refl

-- A task that another has enabled is enabled again by its own option.
twice :
    order_of (enable_tasks 3 ("bind-all" ∷ "parse" ∷ []) tasks)
    ≡ some ("parse" ∷ "bind-all" ∷ "parse" ∷ [])
unfolding enable_tasks find has task normalize option_names dependencies_of resolve_dependencies
twice = refl

abbrev ranks : String → ℕ
ranks x = if str_eq x "parse" then 0 else if str_eq x "bind-all" then 1 else 2

tasks-Ranked : Ranked ranks tasks.task_list
unfolding task normalize option_names dependencies_of
tasks-Ranked =
    EachRanked-Ranked ranks tasks.task_list
      (tt, ((omega arith, tt), ((omega arith, (omega arith, tt)), tt)))

abbrev bound : Register
bound = record tasks { task_order = parse ∷ bind ∷ [] }

bound-run : enable_tasks 3 ("bind-all" ∷ []) tasks ≡ some bound
unfolding enable_tasks find has task normalize option_names dependencies_of resolve_dependencies
bound-run = refl

enable_task-Once_example :
    (s : Register) × (enable_task 3 "types" tasks ≡ some s)
    × Once s.task_order
    × ((y : String)
        → has s.task_order y ≡ true
        → (has tasks.task_order y ≡ true) ⊎ (ranks y ≤ ranks "types"))
unfolding has
enable_task-Once_example = enable_task-Once ranks 3 "types" tasks tasks-Ranked (omega arith) refl tt

enable_tasks-ends_example :
    (s : Register) × (enable_tasks 3 ("types" ∷ "parse" ∷ []) tasks ≡ some s)
    × Ordered tasks.task_list s.task_order
    × AllGot tasks.task_list s.task_order ("types" ∷ "parse" ∷ [])
enable_tasks-ends_example =
    enable_tasks-ends ranks 3 ("types" ∷ "parse" ∷ []) tasks tasks-Ranked
      (omega arith, (omega arith, tt)) tt

-- The texts of an int, of a `long` that is no int, and of no number.
abbrev stol : String → Parsed
stol x =
    if str_eq x "3"
    then value (pos 3)
    else if str_eq x "4294967297"
    then value (pos 4294967297)
    else Parsed.invalid_argument

abbrev unset : Argument
unset = record { arg = ""; var = pos 0 }

-- A `long` that is no int is cut to its low 32 bits before it is compared with the bounds.
wrapped :
    arg_set stol (pos 0) (pos 5) "4294967297" unset
    ≡ (returned, record { arg = "4294967297"; var = pos 1 })
unfolding arg_set to_int
wrapped = refl

arg_set-bounds_example :
    ((leb (pos 0) (pos 1) && leb (pos 1) (pos 5)) ≡ true) × (is_int (pos 1) ≡ true)
arg_set-bounds_example =
    arg_set-bounds stol (pos 0) (pos 5) "4294967297" unset
      (record { arg = "4294967297"; var = pos 1 }) wrapped

dependencies_of-spaced_example : dependencies_of "parse bind_all" ≡ "parse" ∷ "bind-all" ∷ []
unfolding normalize is_plain
dependencies_of-spaced_example =
    dependencies_of-spaced ("parse" ∷ "bind_all" ∷ []) (refl, (refl, tt))
