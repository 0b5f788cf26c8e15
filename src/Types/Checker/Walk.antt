-- ===== src/Types/Checker/Walk.antt =====
-- src/type/type-checker.hh: the visitor `TypeChecker`, over the walk of the default visitor.
use tiger_compilor.Prelude.{ℕ, true, false, Option, none, List, [], ◌∷◌}
use tiger_compilor.Ast.Syntax.{Node, Chunks}
use tiger_compilor.Ast.Visitor.{Decl, Visitor, accept}
use tiger_compilor.Ast.Default.{Action, skip, ◌⨾◌}
use tiger_compilor.Types.Heap.{builtins}
use tiger_compilor.Types.Checker.State.{State, Part, part, type_of}
use tiger_compilor.Types.Checker.Access.{
  simple_var, call_exp, field_var, subscript_var, record_exp, array_exp,
}
use tiger_compilor.Types.Checker.Exps.{
  nil_exp, int_exp, string_exp, op_exp, break_exp, if_exp, while_exp, for_exp, let_exp, seq_exp,
  assign_exp, cast_exp,
}
use tiger_compilor.Types.Checker.Decs.{
  typed_fields, function_header, function_body, type_header, type_body, var_dec, name_ty, record_ty,
  array_ty, chunk_visit,
}

-- the visits of the default visitor
abbrev pub visit_vars : List (Decl Part) → Action State
visit_vars [] = skip
visit_vars (d ∷ ds) = d.visit.visit ⨾ visit_vars ds

abbrev pub visit_each : List Part → Action State
visit_each [] = skip
visit_each (p ∷ ps) = p.visit ⨾ visit_each ps

-- the list of chunks is no node that is typed
abbrev pub list_node : Node
list_node = record { address = 0; location = 0 }

-- the fresh visitor
abbrev pub init : State
init = record {
  errors = [];
  var_read_only = λ a. false;
  heap = builtins;
  types = λ a. none;
  constructors = λ a. none;
}

-- The declarations that the binder has set.
module _ (def : ℕ → Option ℕ) where
  unfoldable pub type_checker : Visitor Part
  type_checker = record {
    simple_var = λ n x. record (part n (simple_var def n)) { is_simple_var = true };
    field_var = λ n var x. part n (field_var n var x);
    subscript_var = λ n var index. part n (subscript_var n var index);
    nil_exp = λ n. part n (nil_exp n);
    int_exp = λ n k. part n (int_exp n);
    string_exp = λ n x. part n (string_exp n);
    call_exp = λ n x args. part n (call_exp def n x args);
    op_exp = λ n left oper right. part n (op_exp n left oper right);
    record_exp = λ n type_name fields. part n (record_exp n type_name fields);
    field_init =
        λ n x init. record (part n (type_of init)) { name = x; target = init.node.address };
    seq_exp = λ n es. part n (seq_exp n es);
    assign_exp = λ n var e. part n (assign_exp def n var e);
    if_exp = λ n test a b. part n (if_exp n test a b);
    while_exp = λ n test body. part n (while_exp n test body);
    for_exp = λ n vardec hi body. part n (for_exp n vardec hi body);
    break_exp = λ n. part n (break_exp n);
    let_exp = λ n chunks body. part n (let_exp n chunks body);
    array_exp = λ n type_name size init. part n (array_exp n type_name size init);
    cast_exp = λ n e ty. part n (cast_exp n);
    chunk_list = λ chunks. part list_node (visit_each chunks);
    var_chunk = λ n ds. record (part n (visit_vars ds)) { formals = typed_fields [] ds };
    function_chunk = λ n ds. part n (chunk_visit ds);
    type_chunk = λ n ds. part n (chunk_visit ds);
    var_dec = λ n x type_name init. part n (var_dec n type_name init);
    function_dec = λ n x formals result body. record (part n skip) {
      header = function_header n formals result;
      body = function_body n body;
    };
    type_dec = λ n x ty. record (part n skip) { header = type_header n x; body = type_body n ty };
    name_ty = λ n x. record (part n (name_ty def n x)) { name = x };
    record_ty = λ n fields. part n (record_ty n fields);
    array_ty = λ n base. part n (array_ty n base);
    field = λ n x type_name. record (part n (type_of type_name)) {
      name = x;
      target = type_name.node.address;
    };
  }

  unfoldable pub types_check : Chunks → Option State
  types_check tree = (accept type_checker tree).visit init
