-- ===== src/Printer.antt =====
-- src/ast/pretty-printer.cc: the `PrettyPrinter`, one definition for each `operator()`.
pub mod Actions
pub mod Kept
pub mod Balanced
use tiger_compilor.Prelude.{
  ℕ, String, Bool, true, false, ◌&&◌, not, Option, none, some, List, [], ◌∷◌, if◌then◌else◌, ◌>>=◌,
}
use tiger_compilor.Prelude.Decimal.{to_string}
use tiger_compilor.Misc.Indent.{Stream}
use tiger_compilor.Ast.Syntax.{Node, Oper, Chunks}
use tiger_compilor.Ast.Visitor.{Decl, Visitor, accept}
use tiger_compilor.Ast.Default.{Action, skip, ◌⨾◌, each, if_present, each_decl}
use tiger_compilor.Printer.Actions.{
  State, print, iendl, indented, set_in_varchunk, set_in_funcvar, between, visits, if_any, str,
  Display, binding, dec, escaping,
}

-- a text before something that may be absent
abbrev pub labelled : String → Option (Action State) → Action State
labelled x none = skip
labelled x (some a) = print x ⨾ a

abbrev pub labelled_else : Option (Action State) → Action State
labelled_else none = skip
labelled_else (some a) = iendl ⨾ print "else " ⨾ a

abbrev pub keyword : Option (Action State) → String
keyword none = "primitive "
keyword (some a) = "function "

abbrev pub body_of : Option (Action State) → Action State
body_of none = skip
body_of (some a) = print " =" ⨾ indented (iendl ⨾ a) ⨾ iendl

module _ (d : Display) where
  unfoldable pub simple_var : Node → String → Action State
  unfolding print binding
  simple_var n x = print x ⨾ binding d (d.def n.address)

  unfoldable pub field_var : Node → Action State → String → Action State
  unfolding print
  field_var n var x = var ⨾ print "." ⨾ print x

  unfoldable pub subscript_var : Node → Action State → Action State → Action State
  unfolding print indented
  subscript_var n var index = var ⨾ print "[" ⨾ indented index ⨾ print "]"

  unfoldable pub nil_exp : Node → Action State
  unfolding print
  nil_exp n = print "nil"

  unfoldable pub int_exp : Node → ℕ → Action State
  unfolding print to_string
  int_exp n value = print (to_string value)

  unfoldable pub string_exp : Node → String → Action State
  unfolding print
  string_exp n value = print "\"" ⨾ print value ⨾ print "\""

  unfoldable pub call_exp : Node → String → List (Action State) → Action State
  unfolding print binding
  call_exp n name args =
      print name ⨾ binding d (d.def n.address) ⨾ print "(" ⨾ between (print ", ") args ⨾ print ")"

  unfoldable pub op_exp : Node → Action State → Oper → Action State → Action State
  unfolding print str
  op_exp n left oper right = left ⨾ print " " ⨾ print (str oper) ⨾ print " " ⨾ right

  unfoldable pub record_exp : Node → Action State → List (Action State) → Action State
  unfolding print
  record_exp n type_name fields = type_name ⨾ print "{" ⨾ between (print ", ") fields ⨾ print "}"

  unfoldable pub seq_exp : Node → List (Action State) → Action State
  unfolding print iendl indented
  seq_exp n exps =
      print "("
      ⨾ indented (if_any exps iendl ⨾ between (print ";" ⨾ iendl) exps)
      ⨾ if_any exps iendl
      ⨾ print ")"

  unfoldable pub assign_exp : Node → Action State → Action State → Action State
  unfolding print
  assign_exp n var exp = print "(" ⨾ var ⨾ print " := " ⨾ exp ⨾ print ")"

  unfoldable pub if_exp : Node → Action State → Action State → Option (Action State) → Action State
  unfolding print iendl indented
  if_exp n test thenclause elseclause =
      print "if " ⨾ test ⨾ indented (iendl ⨾ print "then " ⨾ thenclause ⨾ labelled_else elseclause)

  unfoldable pub while_exp : Node → Action State → Action State → Action State
  unfolding print iendl indented binding
  while_exp n test body =
      print "while"
      ⨾ binding d (some n.address)
      ⨾ print " "
      ⨾ test
      ⨾ indented (iendl ⨾ print "do " ⨾ body)
      ⨾ iendl

  unfoldable pub for_exp : Node → Action State → Action State → Action State → Action State
  unfolding print iendl indented binding
  for_exp n vardec hi body =
      print "for"
      ⨾ binding d (some n.address)
      ⨾ print " "
      ⨾ vardec
      ⨾ print " to "
      ⨾ hi
      ⨾ indented (iendl ⨾ print "do " ⨾ body)
      ⨾ iendl

  unfoldable pub break_exp : Node → Action State
  unfolding print binding
  break_exp n = print "break" ⨾ binding d (d.def n.address)

  unfoldable pub let_exp : Node → Action State → Action State → Action State
  unfolding print iendl indented
  let_exp n chunks body =
      print "let"
      ⨾ indented (iendl ⨾ chunks)
      ⨾ print "in "
      ⨾ indented (iendl ⨾ body)
      ⨾ iendl
      ⨾ print "end"

  unfoldable pub array_exp : Node → Action State → Action State → Action State → Action State
  unfolding print
  array_exp n type_name size init = type_name ⨾ print "[" ⨾ size ⨾ print "]" ⨾ print " of " ⨾ init

  unfoldable pub cast_exp : Node → Action State → Action State → Action State
  unfolding print
  cast_exp n exp ty = print "_cast(" ⨾ exp ⨾ print ", " ⨾ ty ⨾ print ")"

  unfoldable pub field_init : Node → String → Action State → Action State
  unfolding print
  field_init n name init = print name ⨾ print " = " ⨾ init

  unfoldable pub chunk_list : List (Action State) → Action State
  unfolding iendl
  chunk_list [] = skip
  chunk_list (c ∷ cs) = c ⨾ iendl ⨾ chunk_list cs

  unfoldable pub var_chunk : Node → List (Decl (Action State)) → Action State
  unfolding print iendl
  var_chunk n ds s =
      (set_in_varchunk true
          ⨾ (if s.in_funcvar then between (print ", ") (visits ds) else between iendl (visits ds))
          ⨾ set_in_varchunk false)
        s

  unfoldable pub var_dec :
      Node → String → Option (Action State) → Option (Action State) → Action State
  unfolding print dec escaping
  var_dec n x type_name init s =
      ((if s.in_varchunk && not s.in_funcvar then print "var " else skip)
          ⨾ escaping d n
          ⨾ dec d n x
          ⨾ labelled " : " type_name
          ⨾ labelled " := " init)
        s

  unfoldable pub function_chunk : Node → List (Decl (Action State)) → Action State
  unfolding iendl
  function_chunk n [] = skip
  function_chunk n (f ∷ fs) = f.visit ⨾ iendl ⨾ function_chunk n fs

  unfoldable pub function_dec :
      Node → String → Action State → Option (Action State) → Option (Action State) → Action State
  unfolding print dec indented iendl
  function_dec n x formals result body =
      print (keyword body)
      ⨾ dec d n x
      ⨾ print "("
      ⨾ (set_in_funcvar true ⨾ formals ⨾ set_in_funcvar false)
      ⨾ print ")"
      ⨾ labelled " : " result
      ⨾ body_of body

  unfoldable pub type_chunk : Node → List (Decl (Action State)) → Action State
  type_chunk n ds = each_decl ds

  unfoldable pub type_dec : Node → String → Action State → Action State
  unfolding print dec iendl
  type_dec n x ty = print "type " ⨾ dec d n x ⨾ print " = " ⨾ ty ⨾ iendl

  unfoldable pub name_ty : Node → String → Action State
  unfolding print binding
  name_ty n x = print x ⨾ binding d (d.def n.address)

  unfoldable pub record_ty : Node → List (Action State) → Action State
  unfolding print
  record_ty n fields = print "{" ⨾ between (print ", ") fields ⨾ print "}"

  unfoldable pub array_ty : Node → Action State → Action State
  unfolding print
  array_ty n base_type = print "array of " ⨾ base_type

  unfoldable pub field : Node → String → Action State → Action State
  unfolding print
  field n name type_name = print name ⨾ print " : " ⨾ type_name

  abbrev pub pretty_printer : Visitor (Action State)
  pretty_printer = record {
    simple_var = simple_var;
    field_var = field_var;
    subscript_var = subscript_var;
    nil_exp = nil_exp;
    int_exp = int_exp;
    string_exp = string_exp;
    call_exp = call_exp;
    op_exp = op_exp;
    record_exp = record_exp;
    field_init = field_init;
    seq_exp = seq_exp;
    assign_exp = assign_exp;
    if_exp = if_exp;
    while_exp = while_exp;
    for_exp = for_exp;
    break_exp = break_exp;
    let_exp = let_exp;
    array_exp = array_exp;
    cast_exp = cast_exp;
    chunk_list = chunk_list;
    var_chunk = var_chunk;
    function_chunk = function_chunk;
    type_chunk = type_chunk;
    var_dec = var_dec;
    function_dec = function_dec;
    type_dec = type_dec;
    name_ty = name_ty;
    record_ty = record_ty;
    array_ty = array_ty;
    field = field;
  }

  -- The printing of a whole program, from the level of indentation and the flags of the state.
  unfoldable pub print_tree : Chunks → Action State
  unfolding accept
  print_tree tree = accept pretty_printer tree
