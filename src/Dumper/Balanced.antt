-- ===== src/Dumper/Balanced.antt =====
-- src/ast/dumper-dot.cc: every operation of the dumper keeps the level of indentation and the parent.
use tiger_compilor.Prelude.{String, ◌≡◌, ◌∙◌, Option, none, some, List, [], ◌∷◌, Both, All₂, arith}
use tiger_compilor.Ast.Syntax.{Chunks}
use tiger_compilor.Ast.Visitor.{Decl, Visitor}
use tiger_compilor.Ast.Default.{Action}
use tiger_compilor.Ast.Laws.{Laws, SameDecl}
use tiger_compilor.Ast.Related.{accept-Related}
use tiger_compilor.Ast.Summary.{summary}
use tiger_compilor.Dumper.{
  Child, visit_all, visit_decs, visit_opt, if_ports, simple_var, field_var, subscript_var, nil_exp,
  int_exp, string_exp, call_exp, op_exp, record_exp, field_init, seq_exp, assign_exp, if_exp,
  while_exp, for_exp, break_exp, let_exp, array_exp, cast_exp, chunk_list, var_chunk,
  function_chunk, type_chunk, var_dec, function_dec, type_dec, name_ty, record_ty, array_ty, field,
  dumper, dump_tree,
}
use tiger_compilor.Dumper.Html.{State, Tables}
use tiger_compilor.Dumper.Links.{dump_pointer}
use tiger_compilor.Dumper.Kept.{Kept, Moves, skip-Moves, ◌►◌, looking-Moves}
use tiger_compilor.Dumper.Parts.{
  node_html_field-Moves, node_html_one_port-Moves, node_html_ports-Moves, node_html_port_list-Moves,
  node_html_escapable_field-Moves, dump_def-Moves, dump-Moves,
}
use tiger_compilor.Dumper.Children.{AllMove, dump_list-Moves, dump_chunk-Moves, dump_node-Moves}

-- beside a visitor that collects nothing
abbrev Nothing : Type 0
Nothing = Unit

abbrev P : Child → Nothing → Type 0
P c u = Moves 0 0 c.visit

abbrev nothing : Visitor Nothing
nothing = summary tt (λ u v. tt)

All₂-AllMove : (cs : List Child) (us : List Nothing) → All₂ P cs us → AllMove (visit_all cs)
All₂-AllMove [] [] h = tt
All₂-AllMove (a ∷ cs) (u ∷ us) h = (h.0, All₂-AllMove cs us h.1)
All₂-AllMove [] (u ∷ us) h = absurd h
All₂-AllMove (a ∷ cs) [] h = absurd h

decs-AllMove :
    (ds : List (Decl Child)) (us : List (Decl Nothing))
    → All₂ (SameDecl P) ds us
    → AllMove (visit_decs ds)
decs-AllMove [] [] h = tt
decs-AllMove (d ∷ ds) (u ∷ us) h = ((h.0).2, decs-AllMove ds us h.1)
decs-AllMove [] (u ∷ us) h = absurd h
decs-AllMove (d ∷ ds) [] h = absurd h

pointer-Moves :
    (field : String) (c : Option Child) (u : Option Nothing)
    → Both P c u
    → Moves 0 0 (dump_pointer field (visit_opt c))
unfolding dump_pointer
pointer-Moves field none u h = skip-Moves 0
pointer-Moves field (some c) none h = absurd h
pointer-Moves field (some c) (some u) h = dump-Moves field h

if_ports-Moves : (e : Option (Action State)) → Moves 4 4 (if_ports e)
if_ports-Moves none = node_html_ports-Moves _
if_ports-Moves (some e) = node_html_ports-Moves _

module _ (d : Tables) where
  dumper-Laws : Laws P P P P (dumper d) nothing
  unfolding simple_var field_var subscript_var nil_exp int_exp string_exp call_exp op_exp record_exp
      field_init seq_exp assign_exp if_exp while_exp for_exp break_exp let_exp array_exp cast_exp
      chunk_list var_chunk function_chunk type_chunk var_dec function_dec type_dec name_ty record_ty
      array_ty field
  dumper-Laws = record {
    simple_var = λ n x.
        dump_node-Moves n "SimpleVar"
          (skip-Moves 4 ► node_html_field-Moves _ _ _ ► node_html_ports-Moves _)
          (dump_def-Moves d n);
    field_var = λ n x a u h.
        dump_node-Moves n "FieldVar"
          (node_html_field-Moves _ _ _ ► node_html_ports-Moves _ ► skip-Moves 4) (dump-Moves _ h);
    subscript_var = λ n a b u v h k.
        dump_node-Moves n "SubscriptVar" (skip-Moves 4 ► node_html_ports-Moves _)
          (dump-Moves _ h ► dump-Moves _ k);
    nil_exp = λ n. dump_node-Moves n "NilExp" (skip-Moves 4) (skip-Moves 0);
    int_exp = λ n k.
        dump_node-Moves n "IntExp" (skip-Moves 4 ► node_html_field-Moves _ _ _) (skip-Moves 0);
    string_exp = λ n x.
        dump_node-Moves n "StringExp" (node_html_field-Moves _ _ _ ► skip-Moves 4) (skip-Moves 0);
    call_exp = λ n x cs us h.
        dump_node-Moves n "CallExp"
          (node_html_field-Moves _ _ _
            ► skip-Moves 4
            ► node_html_ports-Moves _
            ► node_html_port_list-Moves 4 _ _ _
            ► node_html_one_port-Moves _)
          (dump_def-Moves d n ► dump_list-Moves _ _ (All₂-AllMove cs us h));
    op_exp = λ n o a b u v h k.
        dump_node-Moves n "OpExp"
          (skip-Moves 4 ► node_html_field-Moves _ _ _ ► node_html_ports-Moves _)
          (dump-Moves _ h ► dump-Moves _ k);
    record_exp = λ n a u cs us h k.
        dump_node-Moves n "RecordExp"
          (node_html_ports-Moves _ ► node_html_port_list-Moves 4 _ _ _ ► skip-Moves 4)
          (dump-Moves _ h ► dump_list-Moves _ _ (All₂-AllMove cs us k));
    field_init = λ n x a u h.
        dump_node-Moves n "FieldInit" (node_html_field-Moves _ _ _ ► node_html_ports-Moves _)
          (dump-Moves _ h);
    seq_exp = λ n cs us h.
        dump_node-Moves n "SeqExp"
          (skip-Moves 4 ► node_html_ports-Moves _ ► node_html_port_list-Moves 4 _ _ _)
          (dump_list-Moves _ _ (All₂-AllMove cs us h));
    assign_exp = λ n a b u v h k.
        dump_node-Moves n "AssignExp" (node_html_ports-Moves _ ► skip-Moves 4)
          (dump-Moves _ h ► dump-Moves _ k);
    if_exp = λ n a b u v e w h k l.
        dump_node-Moves n "IfExp" (if_ports-Moves (visit_opt e) ► skip-Moves 4)
          (dump-Moves _ h ► dump-Moves _ k ► pointer-Moves _ e w l);
    while_exp = λ n a b u v h k.
        dump_node-Moves n "WhileExp" (skip-Moves 4 ► node_html_ports-Moves _)
          (dump-Moves _ h ► dump-Moves _ k);
    for_exp = λ n a b c u v w h k l.
        dump_node-Moves n "ForExp" (skip-Moves 4 ► node_html_ports-Moves _)
          (dump-Moves _ h ► dump-Moves _ k ► dump-Moves _ l);
    break_exp = λ n.
        dump_node-Moves n "BreakExp" (skip-Moves 4 ► node_html_ports-Moves _) (dump_def-Moves d n);
    let_exp = λ n a b u v h k.
        dump_node-Moves n "LetExp" (node_html_ports-Moves _ ► skip-Moves 4)
          (dump-Moves _ h ► dump-Moves _ k);
    array_exp = λ n a b c u v w h k l.
        dump_node-Moves n "ArrayExp"
          (node_html_field-Moves _ _ _ ► node_html_ports-Moves _ ► skip-Moves 4)
          (dump-Moves _ h ► dump-Moves _ k ► dump-Moves _ l);
    cast_exp = λ n a b u v h k.
        dump_node-Moves n "CastExp" (skip-Moves 4 ► node_html_ports-Moves _)
          (dump-Moves _ h ► dump-Moves _ k);
    chunk_list = λ cs us h. looking-Moves _ λ s. dump_chunk-Moves _ _ _ (All₂-AllMove cs us h);
    var_chunk = λ n ds us h. dump_chunk-Moves _ _ _ (decs-AllMove ds us h);
    weaken = λ a u h. h;
    function_chunk = λ n ds us h. dump_chunk-Moves _ _ _ (decs-AllMove ds us h);
    type_chunk = λ n ds us h. dump_chunk-Moves _ _ _ (decs-AllMove ds us h);
    var_dec = λ n x t e u v h k.
        dump_node-Moves n "VarDec"
          (skip-Moves 4
            ► node_html_field-Moves _ _ _
            ► node_html_ports-Moves _
            ► node_html_escapable_field-Moves d n)
          (pointer-Moves _ t u h ► pointer-Moves _ e v k);
    function_dec = λ n x f u t e v w h k l.
        dump_node-Moves n "FunctionDec"
          (skip-Moves 4 ► node_html_field-Moves _ _ _ ► node_html_ports-Moves _)
          (dump-Moves _ h ► pointer-Moves _ t v k ► pointer-Moves _ e w l);
    type_dec = λ n x a u h.
        dump_node-Moves n "TypeDec"
          (skip-Moves 4 ► node_html_field-Moves _ _ _ ► node_html_ports-Moves _) (dump-Moves _ h);
    name_ty = λ n x.
        dump_node-Moves n "NameTy"
          (skip-Moves 4 ► node_html_field-Moves _ _ _ ► node_html_ports-Moves _)
          (dump_def-Moves d n);
    record_ty = λ n cs us h.
        dump_node-Moves n "RecordTy"
          (skip-Moves 4 ► node_html_ports-Moves _ ► node_html_port_list-Moves 4 _ _ _)
          (dump_list-Moves _ _ (All₂-AllMove cs us h));
    array_ty = λ n a u h.
        dump_node-Moves n "ArrayTy" (skip-Moves 4 ► node_html_ports-Moves _) (dump-Moves _ h);
    field = λ n x a u h.
        dump_node-Moves n "Field" (node_html_field-Moves _ _ _ ► node_html_ports-Moves _)
          (dump-Moves _ h);
  }

  -- From any state the dump of a program ends, with no precondition broken, at the level of
  -- indentation, with the parent and with the field of the parent that it began with; it only adds
  -- a text to what was written before.
  pub dump_tree-Kept :
      (tree : Chunks) (s : State)
      → (t : State) × (dump_tree d tree s ≡ some t) × (t.stream.indent ≡ s.stream.indent) × Kept s t
  unfolding dump_tree
  dump_tree-Kept tree s =
      let (t, run, at, kept) =
        (accept-Related dumper-Laws tree).run s s.stream.indent (omega arith) in
      (t, run, at ∙ omega arith, kept)
