-- ===== src/Tests/Renaming.antt =====
-- The renamer of src/bind on small programs.
use tiger_compilor.Prelude.{
  false, ◌≢◌, ◌+◌, arith, ℕ, String, ◌≡◌, refl, some, none, Option, if◌then◌else◌, ◌==◌,
}
use mathlib.Core.Option
use tiger_compilor.Ast.Visitor.{accept, accept_exp}
use tiger_compilor.Ast.Default
use tiger_compilor.Bind.Renamer.{
  State, name_set, unique_name, rename, function_dec, rename_use, call_exp, rename_program,
}
use tiger_compilor.Bind.Renamer.Steps.{steps}
use tiger_compilor.Bind.Renamer.Names.{Distinct, Final, mem, rename_program-Final}
use tiger_compilor.Bind.Renamer.Laws.{rename-distinct}
use tiger_compilor.Ast.Syntax.{Exp, while_exp, int_exp, break_exp}
use tiger_compilor.Prelude.Decimal.{to_string}
use tiger_compilor.Tests.Programs.{at, forward_call}

-- while 1 do break
abbrev loop : Exp
loop = while_exp (at 20) (int_exp (at 21) 1) (break_exp (at 22))

-- the names before the pass, and the definition of the call
abbrev old_names : ℕ → String
old_names a = if a == 1 then "f" else "g"

abbrev definitions : ℕ → Option ℕ
definitions a = if a == 2 then some 3 else none

-- The call keeps the old name of a function that is declared later, and the function does not.
forward_name :
    Option.map {B = String × String}
      (λ t. (t.name 2, t.name 3))
      (rename_program definitions forward_call old_names)
    ≡ some ("g", "g_1")
unfolding rename_program accept accept_exp Default.chunk_list Default.function_chunk function_dec
    rename Default.function_dec call_exp rename_use Default.call_exp Default.seq_exp to_string
    Default.var_chunk
forward_name = refl

different_nodes : Distinct (accept steps forward_call)
unfolding accept accept_exp
different_nodes = (refl, (refl, (refl, tt)))

rename_program-Final_example :
    (t : State) × (rename_program definitions forward_call old_names ≡ some t)
    × Final definitions old_names t 0 (λ a. false) (accept steps forward_call)
    × ((a : ℕ) → mem a (accept steps forward_call) ≡ false → t.name a ≡ old_names a)
rename_program-Final_example =
    rename_program-Final definitions forward_call old_names different_nodes

-- the names after one more declaration is renamed
abbrev later : State → ℕ → State
later s a =
    name_set a (unique_name (s.name a) s.unique_number)
      (record s { unique_number = s.unique_number + 1 })

abbrev renamed_first : State
renamed_first = later (record { unique_number = 0; name = old_names }) 1

rename-distinct_example : (later renamed_first 3).name 1 ≢ (later renamed_first 3).name 3
unfolding rename accept_exp Default.while_exp Default.int_exp Default.break_exp
rename-distinct_example =
    rename-distinct definitions (at 1) (at 3) loop (record { unique_number = 0; name = old_names })
      renamed_first renamed_first (later renamed_first 3) refl refl refl refl
      (λ e. omega (arith, e))
