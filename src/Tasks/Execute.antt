-- ===== src/Tasks/Execute.antt =====
-- The `execute` methods of src/task/*-task.cc, and `TaskRegister::execute`.
pub mod Timed
use Prim.Native.String
use tiger_compilor.Prelude.{
  ℕ, ◌+◌, str_append, String, Bool, true, Option, some, List, [], ◌∷◌, str_eq, if◌then◌else◌, ◌>>=◌,
}
use tiger_compilor.Tasks.{
  function_task, boolean_task, disjunctive_task, int_task, string_task, multiple_string_task, Task,
  one_char,
}
use tiger_compilor.Misc.Timer.{Time, Timer, push, pop_task}
use tiger_compilor.Tasks.Register.{Register}

-- The variables that the tasks are bound to, `arg_` of each task by its name, and what the
-- functions of the tasks change.
pub record World (W : Type 0) : Type 0 where
  pub flag : String → Bool
  pub text : String → String
  pub arg : String → String
  pub rest : W

-- `pref + t->name_get()`
unfoldable pub label : Task → String
label t = elim t.module_name [
  | String.[] ↦ t.name
  | String.◌∷◌ c _ ↦ str_append (one_char c) (str_append ": " t.name)
]

-- The functions that the tasks call, by their names; `none` is an exception.
module _ {W : Type 0} (call : String → World W → Option (World W))
    (call_with : String → String → World W → Option (World W)) where
  unfoldable pub execute : Task → World W → Option (World W)
  execute t w = elim t.class [
    | function_task callback ↦ call callback w
    | boolean_task flag ↦ some (record w { flag = λ x. if str_eq flag x then true else w.flag x })
    | disjunctive_task ↦ some w
    | int_task var min max ↦ some w
    | string_task var ↦
        some (record w { text = λ x. if str_eq var x then w.arg t.name else w.text x })
    | multiple_string_task callback ↦ call_with callback (w.arg t.name) w
  ]

  -- `timer_.push(...)`, `t->execute()` and `timer_.pop(...)`, for each task; the clock is read four
  -- times at most, from its reading `k` on.
  unfoldable pub execute_all :
      (ℕ → Time) → ℕ → List Task → World W → Timer → Option (World W × Timer)
  unfolding execute label
  execute_all clock k [] w timer = some (w, timer)
  execute_all clock k (t ∷ ts) w timer =
      let timer₁ = push (label t) (clock k) (clock (k + 1)) timer in
      do
        w₁ ← execute t w
        timer₂ ← pop_task (label t) (clock (k + 2)) (clock (k + 3)) timer₁
        execute_all clock (k + 4) ts w₁ timer₂

  -- `TaskRegister::execute`, with the member `timer_`
  unfoldable pub execute_order : (ℕ → Time) → Register → World W → Timer → Option (World W × Timer)
  unfolding execute_all
  execute_order clock r = execute_all clock 0 r.task_order
