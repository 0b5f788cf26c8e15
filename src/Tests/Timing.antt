-- ===== src/Tests/Timing.antt =====
-- The timer of lib/misc with two nested tasks, and the execution of two tasks with times.
use tiger_compilor.Prelude.{
  ℕ, ◌+◌, ◌≤◌, ◌≡◌, refl, some, List, [], ◌∷◌, arith, ◌>>=◌, map, String, Option, none, false, ◌⊎◌,
  ◌*◌, length,
}
use mathlib.Core.Option
use tiger_compilor.Tasks.{
  Task, task, function_task, normalize, option_names, dependencies_of, split,
}
use tiger_compilor.Tasks.Register.{Register}
use tiger_compilor.Tasks.Execute.{World, label, execute, execute_all, execute_order}
use tiger_compilor.Tasks.Execute.Timed.{labels, execute_each, execute_order-Timed}
use tiger_compilor.Misc.Timer.Known.{AllIn}
use tiger_compilor.Misc.Timer.{
  Time, Timer, new_timer, start, stop, push, pop, pop_from, pop_task, is_top, TimeVar, new_time_var,
  number_name, merge, add_missing,
}
use tiger_compilor.Misc.Timer.Accounts.{wall, measured, part}
use tiger_compilor.Misc.Timer.Bounds.{Event, begins, ends, run, step, latest, run-bounds}

abbrev tick : ℕ → Time
tick n = record { user = 0; sys = 0; wall = n }

-- `parse` begins at 1, is stopped at 4 for `bind`, which ends at 9, and goes on from 10 to 12.
abbrev nested_tasks : List Event
nested_tasks =
    begins "parse" (tick 0) (tick 1)
    ∷ begins "bind" (tick 4) (tick 5)
    ∷ ends (tick 9) (tick 10)
    ∷ ends (tick 12) (tick 13)
    ∷ []

-- 5 ticks and 4 ticks
measured_times :
    (run nested_tasks new_timer >>= λ t. some (map (λ (k, v). v.elapsed.wall) t.tasksmap))
    ≡ some (4 ∷ 5 ∷ [])
unfolding run step push pop pop_from start stop
measured_times = refl

run-bounds_example :
    (t : Timer) × (run nested_tasks new_timer ≡ some t)
    × (measured wall t.tasksmap + 0 ≤ latest wall 0 nested_tasks)
run-bounds_example = run-bounds wall nested_tasks 0 tt (omega arith)

abbrev named : List (String × TimeVar) → List (ℕ × String) → Timer
named tasksmap intmap = record new_timer { tasksmap = tasksmap; intmap = intmap }

-- What the timer had already is kept.
merged :
    Option.map {B = List (String × ℕ) × Option String}
      (λ t. (map (λ (k, v). (k, v.elapsed.wall)) t.tasksmap, number_name 1 t.intmap))
      (merge
        (named
          (("rest", stop (tick 9) new_time_var) ∷ ("bind", stop (tick 4) new_time_var) ∷ [])
          ((1, "new") ∷ []))
        (named (("rest", stop (tick 2) new_time_var) ∷ []) ((1, "old") ∷ [])))
    ≡ some ((("bind", 4) ∷ ("rest", 2) ∷ []), some "old")
unfolding merge add_missing stop
merged = refl

abbrev bind : Task
bind = task "bind_all" "2. Bind" "parse" (function_task "bind")

-- one task that calls a function, and one of a module without a name
abbrev tasks : Register
tasks = record {
  task_list = [];
  task_order = task "parse" "" "" (function_task "parse") ∷ bind ∷ [];
  errors = [];
}

-- The functions that were called, the last first.
abbrev record_call : String → World (List String) → Option (World (List String))
record_call x w = some (record w { rest = x ∷ w.rest })

abbrev record_with : String → String → World (List String) → Option (World (List String))
record_with x y = record_call x

abbrev world : World (List String)
world = record { flag = λ x. false; text = λ x. ""; arg = λ x. ""; rest = [] }

abbrev calls_and_times : World (List String) × Timer → List String × List (String × ℕ)
calls_and_times (w, t) = (w.rest, map {B = String × ℕ} (λ (k, v). (k, v.elapsed.wall)) t.tasksmap)

executed :
    Option.map calls_and_times (execute_order record_call record_with tick tasks world new_timer)
    ≡ some (("bind" ∷ "parse" ∷ [], ("2: bind-all", 1) ∷ ("parse", 1) ∷ []))
unfolding execute_order execute_all execute label task normalize option_names dependencies_of split
    push pop pop_task pop_from is_top start stop
executed = refl

tick_ascends : (k : ℕ) → part wall (tick k) ≤ part wall (tick (k + 1))
tick_ascends k = omega arith

execute_order-Timed_example :
    ((execute_each record_call record_with tasks.task_order world ≡ none)
      × (execute_order record_call record_with tick tasks world new_timer ≡ none))
    ⊎ ((w' : World (List String)) × (t : Timer) × (execute_each record_call record_with
            tasks.task_order world
          ≡ some w')
        × (execute_order record_call record_with tick tasks world new_timer ≡ some (w', t))
        × (t.tasks ≡ [])
        × AllIn (labels tasks.task_order) t.tasksmap
        × (measured wall t.tasksmap + 0 ≤ part wall (tick (4 * length tasks.task_order))))
execute_order-Timed_example =
    execute_order-Timed record_call record_with wall tick tasks world tick_ascends
