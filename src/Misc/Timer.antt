-- ===== src/Misc/Timer.antt =====
-- lib/misc/timer.cc and timer.hxx: times that are spent in named tasks, which may be nested.
pub mod Known
pub mod Accounts
pub mod Bounds
use tiger_compilor.Prelude.{
  ℕ, ◌+◌, ◌-◌, ◌==◌, ◌&&◌, String, Bool, true, false, Option, none, some, List, [], ◌∷◌, ◌++◌,
  str_eq, if◌then◌else◌, ◌>>=◌,
}

-- A reading of the clock, in ticks.
pub record Time : Type 0 where
  pub user : ℕ
  pub sys : ℕ
  pub wall : ℕ

abbrev pub no_time : Time
no_time = record { user = 0; sys = 0; wall = 0 }

pub record TimeVar : Type 0 where
  pub begin : Time
  pub elapsed : Time
  pub first : Time
  pub last : Time
  pub initial : Bool

abbrev pub new_time_var : TimeVar
new_time_var = record {
  begin = no_time;
  elapsed = no_time;
  first = no_time;
  last = no_time;
  initial = true;
}

-- A pointer to a `time_var` is given by its name in `tasksmap`; the top of the stack comes first.
pub record Timer : Type 0 where
  pub tasksmap : List (String × TimeVar)
  pub tasks : List String
  pub intmap : List (ℕ × String)
  pub total : TimeVar

abbrev pub new_timer : Timer
new_timer = record { tasksmap = []; tasks = []; intmap = []; total = new_time_var }

-- The argument is what `times(&tms)` gave.
unfoldable pub start : Time → TimeVar → TimeVar
start now v =
    let v' = record v { begin = now } in
    if v.initial then record v' { initial = false; first = now } else v'

-- The clock does not go back, so that no difference is negative.
unfoldable pub stop : Time → TimeVar → TimeVar
stop now v = record v {
  last = now;
  elapsed = record {
    user = v.elapsed.user + (now.user - v.begin.user);
    sys = v.elapsed.sys + (now.sys - v.begin.sys);
    wall = v.elapsed.wall + (now.wall - v.begin.wall);
  };
}

unfoldable pub is_zero : TimeVar → Bool
is_zero v = v.elapsed.wall == 0 && v.elapsed.user == 0 && v.elapsed.sys == 0

abbrev pub lookup : String → List (String × TimeVar) → Option TimeVar
lookup k [] = none
lookup k ((j, v) ∷ m) = if str_eq j k then some v else lookup k m

-- what is done through a pointer
abbrev pub modify : String → (TimeVar → TimeVar) → List (String × TimeVar) → List (String × TimeVar)
modify k f [] = []
modify k f ((j, v) ∷ m) = if str_eq j k then (j, f v) ∷ m else (j, v) ∷ modify k f m

abbrev pub at_top :
    (TimeVar → TimeVar) → List String → List (String × TimeVar) → List (String × TimeVar)
at_top f [] m = m
at_top f (x ∷ xs) m = modify x f m

-- `if (tasksmap.find(task_name) == tasksmap.end()) tasksmap[task_name] = new time_var;`
abbrev pub with_task : String → List (String × TimeVar) → List (String × TimeVar)
with_task k m = elim (lookup k m) [ none ↦ (k, new_time_var) ∷ m | some v ↦ m ]

-- The times are what the clock gives when the current task is stopped, and when the new one starts.
unfoldable pub push : String → Time → Time → Timer → Timer
push task_name stopped started t = record t {
  tasksmap =
      modify task_name (start started)
        (with_task task_name (at_top (stop stopped) t.tasks t.tasksmap));
  tasks = task_name ∷ t.tasks;
}

unfoldable pub pop_from : List String → Time → Time → Timer → Option Timer
pop_from [] stopped started t = none
pop_from (x ∷ xs) stopped started t = some (record t {
  tasksmap = at_top (start started) xs (modify x (stop stopped) t.tasksmap);
  tasks = xs;
})

-- An empty stack breaks the precondition.
unfoldable pub pop : Time → Time → Timer → Option Timer
pop stopped started t = pop_from t.tasks stopped started t

unfoldable pub is_top : String → List String → Bool
is_top x [] = false
is_top x (y ∷ ys) = str_eq x y

-- `pop(task_name)`, with the precondition that the task is the current one
unfoldable pub pop_task : String → Time → Time → Timer → Option Timer
unfolding is_top
pop_task x stopped started t = if is_top x t.tasks then pop stopped started t else none

abbrev pub number_name : ℕ → List (ℕ × String) → Option String
number_name i [] = none
number_name i ((j, x) ∷ m) = if j == i then some x else number_name i m

unfoldable pub name : ℕ → String → Timer → Timer
name i task_name t = record t { intmap = (i, task_name) ∷ t.intmap }

unfoldable pub push_number : ℕ → Time → Time → Timer → Option Timer
push_number i stopped started t = number_name i t.intmap >>= λ x. some (push x stopped started t)

-- `intmap[i]` makes an empty name for a number that has none.
unfoldable pub pop_number : ℕ → Time → Time → Timer → Option Timer
pop_number i stopped started t = elim (number_name i t.intmap) [
  | none ↦ pop_task "" stopped started (name i "" t)
  | some x ↦ pop_task x stopped started t
]

-- `timer::start` and `timer::stop`
unfoldable pub start_total : Time → Timer → Timer
start_total now t = record t { total = start now t.total }

unfoldable pub stop_total : Time → Timer → Timer
stop_total now t = record t { total = stop now t.total }

-- `if (tasksmap.find(p.first) == tasksmap.end()) tasksmap[p.first] = new time_var(*p.second);` for
-- each entry of the other map
unfoldable pub add_missing :
    List (String × TimeVar) → List (String × TimeVar) → List (String × TimeVar)
add_missing [] m = m
add_missing ((k, v) ∷ rest) m =
    add_missing rest (elim (lookup k m) [ none ↦ (k, v) ∷ m | some _ ↦ m ])

-- The copy of a timer. A task that is running in it breaks the precondition.
unfoldable pub copy : Timer → Option Timer
unfolding add_missing
copy rhs = elim rhs.tasks [
  | [] ↦ some (record rhs { tasksmap = add_missing rhs.tasksmap []; tasks = [] })
  | _ ∷ _ ↦ none
]

-- `timer::operator<<`: a number that has a name keeps it, as the first entry of a number counts.
unfoldable pub merge : Timer → Timer → Option Timer
unfolding add_missing
merge rhs t = elim rhs.tasks [
  | [] ↦
      some (record t {
        tasksmap = add_missing rhs.tasksmap t.tasksmap;
        intmap = t.intmap ++ rhs.intmap;
      })
  | _ ∷ _ ↦ none
]
