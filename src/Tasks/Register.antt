-- ===== src/Tasks/Register.antt =====
-- src/task/task-register.cc: the `TaskRegister`, which orders the tasks for execution.
pub mod Order
pub mod Steps
pub mod Acyclic
pub mod Cyclic
use tiger_compilor.Prelude.{
  ℕ, zero, suc, String, Bool, true, false, ◌||◌, Option, none, some, List, [], ◌∷◌, ◌++◌, str_eq,
  if◌then◌else◌, ◌>>=◌,
}
use tiger_compilor.Tasks.{Task, resolve_dependencies}

-- What `task_error()` is told.
pub data TaskError : Type 0 where
  already_registered : (name : String) → TaskError
  not_registered : (name : String) → TaskError
  unknown_task : (name dependency : String) → TaskError

-- `task_list_` maps the name of each task to it, so that a registered task is known by its name.
pub record Register : Type 0 where
  pub task_list : List Task
  pub task_order : List Task
  pub errors : List TaskError

-- `task_list_.find(name)`
unfoldable pub find : String → List Task → Option Task
find x [] = none
find x (t ∷ ts) = let rest = find x ts in if str_eq t.name x then some t else rest

-- `misc::has(task_order_, task)`
unfoldable pub has : List Task → String → Bool
has [] x = false
has (t ∷ ts) x = str_eq t.name x || has ts x

abbrev pub task_error : TaskError → Register → Register
task_error e r = record r { errors = r.errors ++ e ∷ [] }

-- `TaskRegister::register_task_`
unfoldable pub register_task : Task → Register → Register
register_task t r = elim (find t.name r.task_list) [
  | some _ ↦ task_error (already_registered t.name) r
  | none ↦ record r { task_list = r.task_list ++ t ∷ [] }
]

-- The first loop of `TaskRegister::resolve_dependencies`: the dependencies that are in the order
-- already, and an error for each that is unknown.
unfoldable pub active_tasks : String → List String → Register → List Task × Register
active_tasks name [] r = ([], r)
active_tasks name (s ∷ deps) r = elim (find s r.task_list) [
  | none ↦ active_tasks name deps (task_error (unknown_task name s) r)
  | some d ↦
      let (enabled, r') = active_tasks name deps r in
      (if has r.task_order d.name then d ∷ enabled else enabled, r')
]

-- Its second loop, which enables the dependencies that are known and not in the order.
unfoldable pub activate :
    (String → Register → Option Register) → List String → Register → Option Register
activate enable [] r = some r
activate enable (s ∷ deps) r = elim (find s r.task_list) [
  | none ↦ activate enable deps r
  | some d ↦ elim (has r.task_order d.name) [
    | true ↦ activate enable deps r
    | false ↦ enable s r >>= λ r'. activate enable deps r'
  ]
]

-- `TaskRegister::resolve_dependencies`, given how a task is enabled.
unfoldable pub resolve_in :
    (String → Register → Option Register) → Task → Register → Option Register
unfolding active_tasks activate
resolve_in enable t r =
    let (enabled, r') = active_tasks t.name t.dependencies r in
    activate enable (resolve_dependencies t enabled) r'

-- `TaskRegister::enable_task`. The fuel bounds the depth of the recursion; `none` is a recursion
-- that is deeper.
unfoldable pub enable_task : ℕ → String → Register → Option Register
unfolding resolve_in find
enable_task zero name r = none
enable_task (suc fuel) name r = elim (find name r.task_list) [
  | none ↦ some (task_error (not_registered name) r)
  | some t ↦ resolve_in (enable_task fuel) t r >>= λ r'.
      some (record r' { task_order = r'.task_order ++ t ∷ [] })
]

-- `TaskRegister::parse_arg`: the notifiers of the options of the command line, in their order, where
-- no argument of an option is refused (Tasks/Arguments has what `arg_set` throws).
unfoldable pub enable_tasks : ℕ → List String → Register → Option Register
unfolding enable_task
enable_tasks fuel [] r = some r
enable_tasks fuel (x ∷ xs) r = enable_task fuel x r >>= λ r'. enable_tasks fuel xs r'
