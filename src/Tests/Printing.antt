-- ===== src/Tests/Printing.antt =====
-- The printer of src/ast on small programs.
use tiger_compilor.Prelude.{String, ◌≡◌, refl, false, Option, none, some}
use mathlib.Core.Option
use tiger_compilor.Prelude.Decimal.{to_string}
use tiger_compilor.Misc.Indent.{write, iendl, incindent, decindent, spaces}
use tiger_compilor.Ast.Syntax.{
  Exp, int_exp, op_exp, add, mul, for_exp, seq_exp, no_exps, var_dec, an_exp, vars, no_vars,
  var_chunk, chunks, no_chunks, Chunks,
}
use tiger_compilor.Ast.Visitor.{accept, accept_exp}
use tiger_compilor.Printer.Actions.{State, Display, print, binding, dec, escaping, indented, str}
use tiger_compilor.Printer.Actions
use tiger_compilor.Printer.{pretty_printer, print_tree}
use tiger_compilor.Printer
use tiger_compilor.Printer.Kept.{Kept}
use tiger_compilor.Printer.Balanced.{print_tree-Kept}
use tiger_compilor.Tests.Programs.{at, loop_program}

abbrev plain : Display
plain = record {
  bindings = false;
  escapes = false;
  def = λ a. none;
  is_escapable = λ a. false;
  pointer = λ p. "0";
}

abbrev empty : State
empty = record {
  stream = record { text = ""; indent = 0 };
  in_varchunk = false;
  in_funcvar = false;
}

abbrev text_of : Option State → Option String
text_of = Option.map {B = String} λ s. s.stream.text

-- (1 + 2) * 3
abbrev product : Exp
product =
    op_exp (at 1) (op_exp (at 2) (int_exp (at 3) 1) add (int_exp (at 4) 2)) mul (int_exp (at 5) 3)

-- The text of the product has no parentheses, and so is that of 1 + (2 * 3).
product_text : text_of (accept_exp (pretty_printer plain) product empty) ≡ some "1 + 2 * 3"
unfolding accept_exp Printer.op_exp Printer.int_exp print str to_string write
product_text = refl

-- var x := for i := 0 to 3 do ()
abbrev loop_in_var : Chunks
loop_in_var =
    chunks
      (var_chunk (at 1) (
        vars
          (var_dec (at 2) "x" none (
            an_exp (
              for_exp (at 3) (var_dec (at 4) "i" none (an_exp (int_exp (at 5) 0)))
                (int_exp (at 6) 3) (seq_exp (at 7) no_exps))))
          no_vars))
      no_chunks

-- The index of the loop is printed as the declaration of a variable.
loop_text :
    text_of (print_tree plain loop_in_var empty) ≡ some "var x := for var i := 0 to 3\n  do ()\n\n"
unfolding print_tree accept accept_exp Printer.chunk_list Printer.var_chunk Printer.var_dec
    Printer.for_exp Printer.int_exp Printer.seq_exp print binding dec escaping indented to_string
    Actions.iendl Actions.incindent Actions.decindent write iendl incindent decindent spaces
loop_text = refl

print_tree-Kept_example :
    (t : State) × (print_tree plain loop_program empty ≡ some t) × Kept empty t
print_tree-Kept_example = print_tree-Kept plain loop_program empty
