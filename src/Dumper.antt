-- ===== src/Dumper.antt =====
-- src/ast/dumper-dot.cc: the `DumperDot`, which writes a tree as a graph for `dot`, one definition
-- for each `operator()`.
pub mod Escape
pub mod Html
pub mod Links
pub mod Kept
pub mod Parts
pub mod Children
pub mod Balanced
use tiger_compilor.Prelude.{
  ℕ, String, Option, none, some, List, [], ◌∷◌, false, if◌then◌else◌, ◌>>=◌,
}
use tiger_compilor.Prelude.Bytes.{bytes_of, text_of}
use tiger_compilor.Prelude.Decimal.{to_string}
use tiger_compilor.Misc.Escape.{escape}
use tiger_compilor.Misc.Indent.{Stream, resetindent}
use tiger_compilor.Ast.Syntax.{Node, Oper, Chunks}
use tiger_compilor.Ast.Visitor.{Decl, Visitor, accept}
use tiger_compilor.Ast.Default.{Action, skip, ◌⨾◌}
use tiger_compilor.Printer.Actions.{str, visits}
use tiger_compilor.Dumper.Html.{
  State, Tables, prints, iendl, incendl, decendl, node_html_field, node_html_one_port,
  node_html_ports, node_html_port_list, node_html_escapable_field,
}
use tiger_compilor.Dumper.Links.{
  dump, dump_pointer, dump_list, dump_type, dump_def, dump_chunk, dump_node,
}

-- `&e.elseclause_get() != nullptr`
abbrev pub if_ports : Option (Action State) → Action State
if_ports none = node_html_ports ("test" ∷ "thenclause" ∷ [])
if_ports (some e) = node_html_ports ("test" ∷ "thenclause" ∷ "elseclause" ∷ [])

unfoldable pub array_exp : Node → String → Action State → Action State → Action State → Action State
array_exp n name type_name size init =
    dump_node n "ArrayExp"
      (node_html_field "type" name ""
        ⨾ node_html_ports ("type_name" ∷ "size" ∷ "init" ∷ [])
        ⨾ dump_type)
      (dump "type_name" type_name ⨾ dump "size" size ⨾ dump "init" init)

unfoldable pub array_ty : Node → Action State → Action State
array_ty n base_type =
    dump_node n "ArrayTy" (dump_type ⨾ node_html_ports ("base_type" ∷ []))
      (dump "base_type" base_type)

unfoldable pub assign_exp : Node → Action State → Action State → Action State
assign_exp n var exp =
    dump_node n "AssignExp" (node_html_ports ("var" ∷ "exp" ∷ []) ⨾ dump_type)
      (dump "var" var ⨾ dump "exp" exp)

unfoldable pub cast_exp : Node → Action State → Action State → Action State
cast_exp n exp ty =
    dump_node n "CastExp" (dump_type ⨾ node_html_ports ("exp" ∷ "ty" ∷ []))
      (dump "exp" exp ⨾ dump "ty" ty)

unfoldable pub field : Node → String → Action State → Action State
field n name type_name =
    dump_node n "Field" (node_html_field "name" name "" ⨾ node_html_ports ("type_name" ∷ []))
      (dump "type_name" type_name)

unfoldable pub field_init : Node → String → Action State → Action State
field_init n name init =
    dump_node n "FieldInit" (node_html_field "name" name "" ⨾ node_html_ports ("init" ∷ []))
      (dump "init" init)

unfoldable pub field_var : Node → Action State → String → Action State
field_var n var name =
    dump_node n "FieldVar"
      (node_html_field "field" name "" ⨾ node_html_ports ("var" ∷ []) ⨾ dump_type) (dump "var" var)

unfoldable pub for_exp : Node → Action State → Action State → Action State → Action State
for_exp n vardec hi body =
    dump_node n "ForExp" (dump_type ⨾ node_html_ports ("vardec" ∷ "hi" ∷ "body" ∷ []))
      (dump "vardec" vardec ⨾ dump "hi" hi ⨾ dump "body" body)

unfoldable pub function_dec :
    Node → String → Action State → Option (Action State) → Option (Action State) → Action State
function_dec n name formals result body =
    dump_node n "FunctionDec"
      (dump_type
        ⨾ node_html_field "name" name ""
        ⨾ node_html_ports ("formals" ∷ "result" ∷ "body" ∷ []))
      (dump "formals" formals ⨾ dump_pointer "result" result ⨾ dump_pointer "body" body)

unfoldable pub if_exp : Node → Action State → Action State → Option (Action State) → Action State
if_exp n test thenclause elseclause =
    dump_node n "IfExp" (if_ports elseclause ⨾ dump_type)
      (dump "test" test ⨾ dump "thenclause" thenclause ⨾ dump_pointer "elseclause" elseclause)

unfoldable pub int_exp : Node → ℕ → Action State
int_exp n value =
    dump_node n "IntExp" (dump_type ⨾ node_html_field "value" (to_string value) "") (skip)

unfoldable pub let_exp : Node → Action State → Action State → Action State
let_exp n chunks body =
    dump_node n "LetExp" (node_html_ports ("chunks" ∷ "body" ∷ []) ⨾ dump_type)
      (dump "chunks" chunks ⨾ dump "body" body)

unfoldable pub nil_exp : Node → Action State
nil_exp n = dump_node n "NilExp" (dump_type) (skip)

unfoldable pub op_exp : Node → Action State → Oper → Action State → Action State
op_exp n left oper right =
    dump_node n "OpExp"
      (dump_type ⨾ node_html_field "oper" (str oper) "'" ⨾ node_html_ports ("left" ∷ "right" ∷ []))
      (dump "left" left ⨾ dump "right" right)

unfoldable pub record_exp : Node → Action State → List (Action State) → Action State
record_exp n type_name fields =
    dump_node n "RecordExp"
      (node_html_ports ("type_name" ∷ []) ⨾ node_html_port_list "fields" fields false ⨾ dump_type)
      (dump "type_name" type_name ⨾ dump_list "fields" fields)

unfoldable pub record_ty : Node → List (Action State) → Action State
record_ty n fields =
    dump_node n "RecordTy"
      (dump_type ⨾ node_html_ports [] ⨾ node_html_port_list "fields" fields false)
      (dump_list "fields" fields)

unfoldable pub seq_exp : Node → List (Action State) → Action State
seq_exp n exps =
    dump_node n "SeqExp" (dump_type ⨾ node_html_ports [] ⨾ node_html_port_list "exps" exps false)
      (dump_list "exps" exps)

unfoldable pub string_exp : Node → String → Action State
string_exp n value =
    dump_node n "StringExp"
      (node_html_field "string" (text_of (escape (bytes_of value))) "" ⨾ dump_type) (skip)

unfoldable pub subscript_var : Node → Action State → Action State → Action State
subscript_var n var index =
    dump_node n "SubscriptVar" (dump_type ⨾ node_html_ports ("var" ∷ "index" ∷ []))
      (dump "var" var ⨾ dump "index" index)

unfoldable pub type_dec : Node → String → Action State → Action State
type_dec n name ty =
    dump_node n "TypeDec" (dump_type ⨾ node_html_field "name" name "" ⨾ node_html_ports ("ty" ∷ []))
      (dump "ty" ty)

unfoldable pub while_exp : Node → Action State → Action State → Action State
while_exp n test body =
    dump_node n "WhileExp" (dump_type ⨾ node_html_ports ("test" ∷ "body" ∷ []))
      (dump "test" test ⨾ dump "body" body)

unfoldable pub function_chunk : Node → List (Action State) → Action State
function_chunk n decs = dump_chunk n.address "FunctionChunk" decs

unfoldable pub type_chunk : Node → List (Action State) → Action State
type_chunk n decs = dump_chunk n.address "TypeChunk" decs

unfoldable pub var_chunk : Node → List (Action State) → Action State
var_chunk n decs = dump_chunk n.address "VarChunk" decs

-- A child as an operation sees it: its visit, and for an `ast::NameTy` also its name.
pub record Child : Type 0 where
  pub name : String
  pub visit : Action State

abbrev pub unnamed : Action State → Child
unnamed a = record { name = ""; visit = a }

abbrev pub visit_all : List Child → List (Action State)
visit_all [] = []
visit_all (c ∷ cs) = c.visit ∷ visit_all cs

abbrev pub visit_decs : List (Decl Child) → List (Action State)
visit_decs [] = []
visit_decs (c ∷ cs) = c.visit.visit ∷ visit_decs cs

abbrev pub visit_opt : Option Child → Option (Action State)
visit_opt none = none
visit_opt (some c) = some c.visit

module _ (d : Tables) where
  unfoldable pub break_exp : Node → Action State
  break_exp n = dump_node n "BreakExp" (dump_type ⨾ node_html_ports ("def" ∷ [])) (dump_def d n)

  unfoldable pub call_exp : Node → String → List (Action State) → Action State
  call_exp n name args =
      dump_node n "CallExp"
        (node_html_field "name" name ""
          ⨾ dump_type
          ⨾ node_html_ports []
          ⨾ node_html_port_list "args" args false
          ⨾ node_html_one_port "def")
        (dump_def d n ⨾ dump_list "args" args)

  unfoldable pub name_ty : Node → String → Action State
  name_ty n name =
      dump_node n "NameTy"
        (dump_type ⨾ node_html_field "name" name "" ⨾ node_html_ports ("def" ∷ [])) (dump_def d n)

  unfoldable pub simple_var : Node → String → Action State
  simple_var n name =
      dump_node n "SimpleVar"
        (dump_type ⨾ node_html_field "name" name "" ⨾ node_html_ports ("def" ∷ [])) (dump_def d n)

  unfoldable pub var_dec :
      Node → String → Option (Action State) → Option (Action State) → Action State
  var_dec n name type_name init =
      dump_node n "VarDec"
        (dump_type
          ⨾ node_html_field "name" name ""
          ⨾ node_html_ports ("type_name" ∷ "init" ∷ [])
          ⨾ node_html_escapable_field d n)
        (dump_pointer "type_name" type_name ⨾ dump_pointer "init" init)

  unfoldable pub chunk_list : List (Action State) → Action State
  chunk_list chunks s = dump_chunk (d.chunk_list_at s.parent_id) "ChunkList" chunks s

  abbrev pub dumper : Visitor Child
  dumper = record {
    simple_var = λ n x. unnamed (simple_var n x);
    field_var = λ n v x. unnamed (field_var n v.visit x);
    subscript_var = λ n v i. unnamed (subscript_var n v.visit i.visit);
    nil_exp = λ n. unnamed (nil_exp n);
    int_exp = λ n k. unnamed (int_exp n k);
    string_exp = λ n x. unnamed (string_exp n x);
    call_exp = λ n x as_. unnamed (call_exp n x (visit_all as_));
    op_exp = λ n a o b. unnamed (op_exp n a.visit o b.visit);
    record_exp = λ n t fs. unnamed (record_exp n t.visit (visit_all fs));
    field_init = λ n x a. unnamed (field_init n x a.visit);
    seq_exp = λ n as_. unnamed (seq_exp n (visit_all as_));
    assign_exp = λ n a b. unnamed (assign_exp n a.visit b.visit);
    if_exp = λ n a b e. unnamed (if_exp n a.visit b.visit (visit_opt e));
    while_exp = λ n a b. unnamed (while_exp n a.visit b.visit);
    for_exp = λ n a b c. unnamed (for_exp n a.visit b.visit c.visit);
    break_exp = λ n. unnamed (break_exp n);
    let_exp = λ n a b. unnamed (let_exp n a.visit b.visit);
    array_exp = λ n t a b. unnamed (array_exp n t.name t.visit a.visit b.visit);
    cast_exp = λ n a b. unnamed (cast_exp n a.visit b.visit);
    chunk_list = λ cs. unnamed (chunk_list (visit_all cs));
    var_chunk = λ n ds. unnamed (var_chunk n (visit_decs ds));
    function_chunk = λ n ds. unnamed (function_chunk n (visit_decs ds));
    type_chunk = λ n ds. unnamed (type_chunk n (visit_decs ds));
    var_dec = λ n x t e. unnamed (var_dec n x (visit_opt t) (visit_opt e));
    function_dec = λ n x f t e. unnamed (function_dec n x f.visit (visit_opt t) (visit_opt e));
    type_dec = λ n x a. unnamed (type_dec n x a.visit);
    name_ty = λ n x. record { name = x; visit = name_ty n x };
    record_ty = λ n fs. unnamed (record_ty n (visit_all fs));
    array_ty = λ n t. unnamed (array_ty n t.visit);
    field = λ n x t. unnamed (field n x t.visit);
  }

  -- `dump_dot(tree)`
  unfoldable pub dump_tree : Chunks → Action State
  dump_tree tree = (accept dumper tree).visit

  -- `ast::dump_dot` of src/ast/libast.cc, with a dumper of its own, on a stream; an unsigned -1 is
  -- the greatest number of 64 bits.
  unfoldable pub dump_dot : Chunks → Stream → Option Stream
  dump_dot tree ostr =
      (prints ("digraph structs {" ∷ [])
          ⨾ incendl
          ⨾ prints ("splines=line;" ∷ [])
          ⨾ iendl
          ⨾ prints ("node [shape=plaintext]" ∷ [])
          ⨾ iendl
          ⨾ dump_tree tree
          ⨾ decendl
          ⨾ prints ("}" ∷ [])
          ⨾ iendl)
        (record {
          stream = resetindent ostr;
          parent_id = 18446744073709551615;
          parent_field = none;
          inner_fields = 0;
        })
      >>= λ s. some s.stream
