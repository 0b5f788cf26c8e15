-- ===== src/Tasks/Print.antt =====
-- src/task/task-register.cc and src/task/task.cc: what is printed about tasks, as texts.
use tiger_compilor.Prelude.{String, List, [], ◌∷◌, str_append, if◌then◌else◌}
use tiger_compilor.Tasks.{Task, is_disjunctive}

abbrev pub texts : List String → String
texts [] = ""
texts (s ∷ ss) = str_append s (texts ss)

-- Of every task, in the order of the list.
abbrev pub for_each : (Task → String) → List Task → String
for_each f [] = ""
for_each f (t ∷ ts) = str_append (f t) (for_each f ts)

-- `TaskRegister::print_task_list`, given the tasks in the order of their names
unfoldable pub print_task_list : List Task → String
print_task_list ts = texts (
    "List of registered tasks:\n"
    ∷ for_each (λ t. texts ("\t* " ∷ t.name ∷ "\n" ∷ [])) ts
    ∷ "\n"
    ∷ [])

-- `TaskRegister::print_task_order`
unfoldable pub print_task_order : List Task → String
print_task_order ts =
    texts
      ("List of Task Order:\n" ∷ for_each (λ t. texts ("\t* " ∷ t.name ∷ "\n" ∷ [])) ts ∷ "\n" ∷ [])

abbrev pub quoted : String → String
quoted s = texts ("\"" ∷ s ∷ "\"" ∷ [])

unfoldable pub quoted_each : List String → String
quoted_each [] = ""
quoted_each (s ∷ ss) = str_append " " (str_append (quoted s) (quoted_each ss))

abbrev edges : List String → String
edges [] = ""
edges (d ∷ ds) = texts (" -> {" ∷ quoted_each (d ∷ ds) ∷ " } " ∷ [])

unfoldable pub graph_entry : Task → String
unfolding quoted_each
graph_entry t = texts (
    (if is_disjunctive t.class
      then texts ("  " ∷ quoted t.name ∷ " [shape=diamond]\n" ∷ [])
      else "")
    ∷ "  "
    ∷ quoted t.name
    ∷ edges t.dependencies
    ∷ "\n"
    ∷ [])

-- `TaskRegister::print_task_graph`, given the tasks in the order of their names
unfoldable pub print_task_graph : List Task → String
unfolding graph_entry
print_task_graph ts = texts (
    "/* Task graph */\n"
    ∷ "digraph Tasks {\n"
    ∷ "  node [shape=box, fontsize=14]\n"
    ∷ "  graph [ordering=out]\n"
    ∷ for_each graph_entry ts
    ∷ "}\n"
    ∷ [])

abbrev indented : List String → String
indented [] = ""
indented (s ∷ ss) = texts ("\t" ∷ s ∷ "\n" ∷ indented ss ∷ [])

-- `Task::print_dependencies`
unfoldable pub print_dependencies : Task → String
print_dependencies t =
    texts ("Dependencies for task " ∷ t.name ∷ ":\n" ∷ indented t.dependencies ∷ [])
