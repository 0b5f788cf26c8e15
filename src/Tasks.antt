-- ===== src/Tasks.antt =====
-- src/task/task.cc and the classes of tasks of src/task/*-task.cc.
pub mod Numbers
pub mod Arguments
pub mod Names
pub mod Execute
pub mod Print
pub mod Register
use Prim.Native.Char.{Char, code}
use Prim.Native.String
use tiger_compilor.Prelude.{
  String, Bool, true, false, Option, none, some, List, [], ◌∷◌, map, str_append, if◌then◌else◌,
  ◌==◌,
}
use tiger_compilor.Tasks.Numbers.{ℤ}

-- The classes, each with the members that it adds. A task that calls a function is known by it.
pub data Class : Type 0 where
  function_task : (callback : String) → Class
  boolean_task : (flag : String) → Class
  disjunctive_task : Class
  int_task : (var : String) → (min max : ℤ) → Class
  string_task : (var : String) → Class
  multiple_string_task : (callback : String) → Class

-- `task::Task`
pub record Task : Type 0 where
  pub name : String
  pub fullname : String
  pub module_name : String
  pub dependencies : List String
  pub class : Class

abbrev pub one_char : Char → String
one_char c = String.◌∷◌ c ""

-- `Task::normalize`: `std::ranges::replace_copy(task_name, ..., '_', '-')`
unfoldable pub normalize : String → String
normalize String.[] = ""
normalize (String.◌∷◌ c s) = str_append (if code c == 95 then "-" else one_char c) (normalize s)

abbrev pub word_of : Option String → String
word_of none = ""
word_of (some w) = w

-- The `while` loop of the constructor, over what is left of `deps`. The first argument is what
-- stands between `start` and the place that `find(' ', start)` has come to, or nothing before the
-- test `start < deps.size()`.
unfoldable pub split : Option String → String → List String
split none String.[] = []
split (some w) String.[] = w ∷ []
split o (String.◌∷◌ c s) =
    let next = split none s in
    let same = split (some (str_append (word_of o) (one_char c))) s in
    if code c == 32 then word_of o ∷ next else same

unfoldable pub dependencies_of : String → List String
unfolding split normalize
dependencies_of deps = map normalize (split none deps)

-- `name_` and `fullname_`: a short option, such as "h|help", is cut from the name.
unfoldable pub option_names : String → String × String
option_names (String.◌∷◌ short (String.◌∷◌ bar s)) =
    (if code bar == 124
      then (s, str_append s (str_append "," (one_char short)))
      else (String.◌∷◌ short (String.◌∷◌ bar s), String.◌∷◌ short (String.◌∷◌ bar s)))
option_names s = (s, s)

-- The constructor of `Task`.
unfoldable pub task : String → String → String → Class → Task
unfolding dependencies_of option_names normalize
task name module_name deps class =
    let (short, full) = option_names (normalize name) in
    record {
      name = short;
      fullname = full;
      module_name = module_name;
      dependencies = dependencies_of deps;
      class = class;
    }

-- `Task::deps_type(1, *dependencies_.begin())`, unless a dependency is active or there is none.
abbrev pub first_unless : List Task → List String → List String
first_unless [] (d ∷ ds) = d ∷ []
first_unless _ _ = []

-- `dynamic_cast<const DisjunctiveTask*>(&task)`
abbrev pub is_disjunctive : Class → Bool
is_disjunctive disjunctive_task = true
is_disjunctive _ = false

-- `Task::resolve_dependencies` and its override in `DisjunctiveTask`.
unfoldable pub resolve_dependencies : Task → List Task → List String
resolve_dependencies t active_tasks =
    if is_disjunctive t.class then first_unless active_tasks t.dependencies else t.dependencies
