-- ===== src/Printer/Balanced.antt =====
-- src/ast/pretty-printer.cc: every operation of the printer keeps the level of indentation.
use tiger_compilor.Prelude.{String, ◌≡◌, ◌&&◌, not, Option, none, some, List, [], ◌∷◌, Both, All₂}
use tiger_compilor.Prelude.Decimal.{to_string}
use tiger_compilor.Ast.Syntax.{Node, Chunks}
use tiger_compilor.Ast.Visitor.{Decl, Visitor}
use tiger_compilor.Ast.Default.{Action, ◌⨾◌, each_decl}
use tiger_compilor.Ast.Laws.{Laws, SameDecl}
use tiger_compilor.Ast.Related.{accept-Related}
use tiger_compilor.Ast.Summary.{summary}
use tiger_compilor.Printer.Actions.{State, print, iendl, indented, visits, str, Display}
use tiger_compilor.Printer.Kept.{
  Kept, Prints, AllPrints, skip-Prints, ◌►◌, print-Prints, iendl-Prints, indented-Prints,
  between-Prints, if_any-Prints, if-Prints, looking-Prints, varchunk-Prints, funcvar-Prints,
  binding-Prints, dec-Prints, escaping-Prints,
}
use tiger_compilor.Printer.{
  labelled, labelled_else, keyword, body_of, simple_var, field_var, subscript_var, nil_exp, int_exp,
  string_exp, call_exp, op_exp, record_exp, field_init, seq_exp, assign_exp, if_exp, while_exp,
  for_exp, break_exp, let_exp, array_exp, cast_exp, chunk_list, var_chunk, function_chunk,
  type_chunk, var_dec, function_dec, type_dec, name_ty, record_ty, array_ty, field, pretty_printer,
  print_tree,
}

-- beside a visitor that collects nothing
abbrev Nothing : Type 0
Nothing = Unit

abbrev P : Action State → Nothing → Type 0
P a u = Prints a

abbrev nothing : Visitor Nothing
nothing = summary tt (λ u v. tt)

All₂-AllPrints : (as_ : List (Action State)) (us : List Nothing) → All₂ P as_ us → AllPrints as_
All₂-AllPrints [] [] h = tt
All₂-AllPrints (a ∷ as_) (u ∷ us) h = (h.0, All₂-AllPrints as_ us h.1)
All₂-AllPrints [] (u ∷ us) h = absurd h
All₂-AllPrints (a ∷ as_) [] h = absurd h

visits-AllPrints :
    (ds : List (Decl (Action State))) (us : List (Decl Nothing))
    → All₂ (SameDecl P) ds us
    → AllPrints (visits ds)
visits-AllPrints [] [] h = tt
visits-AllPrints (d ∷ ds) (u ∷ us) h = ((h.0).2, visits-AllPrints ds us h.1)
visits-AllPrints [] (u ∷ us) h = absurd h
visits-AllPrints (d ∷ ds) [] h = absurd h

each_decl-Prints : (ds : List (Decl (Action State))) → AllPrints (visits ds) → Prints (each_decl ds)
each_decl-Prints [] h = skip-Prints
each_decl-Prints (d ∷ ds) h = h.0 ► each_decl-Prints ds h.1

labelled-Prints :
    (x : String) (a : Option (Action State)) (u : Option Nothing)
    → Both P a u
    → Prints (labelled x a)
labelled-Prints x none u h = skip-Prints
labelled-Prints x (some a) none h = absurd h
labelled-Prints x (some a) (some u) h = print-Prints x ► h

labelled_else-Prints :
    (a : Option (Action State)) (u : Option Nothing) → Both P a u → Prints (labelled_else a)
labelled_else-Prints none u h = skip-Prints
labelled_else-Prints (some a) none h = absurd h
labelled_else-Prints (some a) (some u) h = iendl-Prints ► print-Prints "else " ► h

body_of-Prints : (a : Option (Action State)) (u : Option Nothing) → Both P a u → Prints (body_of a)
body_of-Prints none u h = skip-Prints
body_of-Prints (some a) none h = absurd h
body_of-Prints (some a) (some u) h =
    print-Prints " =" ► indented-Prints (iendl-Prints ► h) ► iendl-Prints

module _ (d : Display) where
  chunk_list-Prints : (as_ : List (Action State)) → AllPrints as_ → Prints (chunk_list d as_)
  unfolding chunk_list
  chunk_list-Prints [] h = skip-Prints
  chunk_list-Prints (a ∷ as_) h = h.0 ► iendl-Prints ► chunk_list-Prints as_ h.1

  function_chunk-Prints :
      (n : Node) (ds : List (Decl (Action State)))
      → AllPrints (visits ds)
      → Prints (function_chunk d n ds)
  unfolding function_chunk
  function_chunk-Prints n [] h = skip-Prints
  function_chunk-Prints n (d ∷ ds) h = h.0 ► iendl-Prints ► function_chunk-Prints n ds h.1

  var_chunk-Prints :
      (n : Node) (ds : List (Decl (Action State)))
      → AllPrints (visits ds)
      → Prints (var_chunk d n ds)
  unfolding var_chunk
  var_chunk-Prints n ds h = looking-Prints _ λ s. varchunk-Prints (
      if-Prints s.in_funcvar (between-Prints (print-Prints ", ") (visits ds) h)
        (between-Prints iendl-Prints (visits ds) h))

  var_dec-Prints :
      (n : Node) (x : String) (a c : Option (Action State)) (u v : Option Nothing)
      → Both P a u
      → Both P c v
      → Prints (var_dec d n x a c)
  unfolding var_dec
  var_dec-Prints n x a c u v h k = looking-Prints _ λ s.
      if-Prints (s.in_varchunk && not s.in_funcvar) (print-Prints "var ") skip-Prints
      ► escaping-Prints d n
      ► dec-Prints d n x
      ► labelled-Prints " : " a u h
      ► labelled-Prints " := " c v k

  function_dec-Prints :
      (n : Node) (x : String) (f : Action State) (a c : Option (Action State))
      (u v : Option Nothing)
      → Prints f
      → Both P a u
      → Both P c v
      → Prints (function_dec d n x f a c)
  unfolding function_dec
  function_dec-Prints n x f a c u v j h k =
      print-Prints (keyword c)
      ► dec-Prints d n x
      ► print-Prints "("
      ► funcvar-Prints j
      ► print-Prints ")"
      ► labelled-Prints " : " a u h
      ► body_of-Prints c v k

  loop-Prints : {a : Action State} → Prints a → Prints (indented (iendl ⨾ print "do " ⨾ a) ⨾ iendl)
  loop-Prints h = indented-Prints (iendl-Prints ► print-Prints "do " ► h) ► iendl-Prints

  printer-Laws : Laws P P P P (pretty_printer d) nothing
  unfolding simple_var field_var subscript_var nil_exp int_exp string_exp call_exp op_exp record_exp
      field_init seq_exp assign_exp if_exp while_exp for_exp break_exp let_exp array_exp cast_exp
      type_chunk type_dec name_ty record_ty array_ty field
  printer-Laws = record {
    simple_var = λ n x. print-Prints x ► binding-Prints d _;
    field_var = λ n x a y h. h ► print-Prints "." ► print-Prints x;
    subscript_var = λ n a b x y h k. h ► print-Prints "[" ► indented-Prints k ► print-Prints "]";
    nil_exp = λ n. print-Prints "nil";
    int_exp = λ n k. print-Prints (to_string k);
    string_exp = λ n x. print-Prints "\"" ► print-Prints x ► print-Prints "\"";
    call_exp = λ n x as_ us h.
        print-Prints x
        ► binding-Prints d _
        ► print-Prints "("
        ► between-Prints (print-Prints ", ") as_ (All₂-AllPrints as_ us h)
        ► print-Prints ")";
    op_exp = λ n o a b x y h k. h ► print-Prints " " ► print-Prints (str o) ► print-Prints " " ► k;
    record_exp = λ n a x as_ us h k.
        h
        ► print-Prints "{"
        ► between-Prints (print-Prints ", ") as_ (All₂-AllPrints as_ us k)
        ► print-Prints "}";
    field_init = λ n x a y h. print-Prints x ► print-Prints " = " ► h;
    seq_exp = λ n as_ us h.
        print-Prints "("
        ► indented-Prints (
            if_any-Prints as_ iendl-Prints
            ► between-Prints (print-Prints ";" ► iendl-Prints) as_ (All₂-AllPrints as_ us h))
        ► if_any-Prints as_ iendl-Prints
        ► print-Prints ")";
    assign_exp = λ n a b x y h k. print-Prints "(" ► h ► print-Prints " := " ► k ► print-Prints ")";
    if_exp = λ n a b x y o p h k l.
        print-Prints "if "
        ► h
        ► indented-Prints (iendl-Prints ► print-Prints "then " ► k ► labelled_else-Prints o p l);
    while_exp = λ n a b x y h k.
        print-Prints "while" ► binding-Prints d _ ► print-Prints " " ► h ► loop-Prints k;
    for_exp = λ n a b c x y z h k l.
        print-Prints "for"
        ► binding-Prints d _
        ► print-Prints " "
        ► h
        ► print-Prints " to "
        ► k
        ► loop-Prints l;
    break_exp = λ n. print-Prints "break" ► binding-Prints d _;
    let_exp = λ n a b x y h k.
        print-Prints "let"
        ► indented-Prints (iendl-Prints ► h)
        ► print-Prints "in "
        ► indented-Prints (iendl-Prints ► k)
        ► iendl-Prints
        ► print-Prints "end";
    array_exp = λ n a b c x y z h k l.
        h ► print-Prints "[" ► k ► print-Prints "]" ► print-Prints " of " ► l;
    cast_exp =
        λ n a b x y h k. print-Prints "_cast(" ► h ► print-Prints ", " ► k ► print-Prints ")";
    chunk_list = λ as_ us h. chunk_list-Prints as_ (All₂-AllPrints as_ us h);
    var_chunk = λ n ds us h. var_chunk-Prints n ds (visits-AllPrints ds us h);
    weaken = λ a u h. h;
    function_chunk = λ n ds us h. function_chunk-Prints n ds (visits-AllPrints ds us h);
    type_chunk = λ n ds us h. each_decl-Prints ds (visits-AllPrints ds us h);
    var_dec = var_dec-Prints;
    function_dec = λ n x f u a c v w h k l. function_dec-Prints n x f a c v w h k l;
    type_dec = λ n x a y h.
        print-Prints "type " ► dec-Prints d n x ► print-Prints " = " ► h ► iendl-Prints;
    name_ty = λ n x. print-Prints x ► binding-Prints d _;
    record_ty = λ n as_ us h.
        print-Prints "{"
        ► between-Prints (print-Prints ", ") as_ (All₂-AllPrints as_ us h)
        ► print-Prints "}";
    array_ty = λ n a u h. print-Prints "array of " ► h;
    field = λ n x a u h. print-Prints x ► print-Prints " : " ► h;
  }

  -- Whatever is displayed, and at any level of indentation, the printing of a program ends with no
  -- precondition broken, back at that level; it adds a text to what was written before, and a
  -- flag of the file that was not set is not set.
  pub print_tree-Kept :
      (tree : Chunks) (s : State) → (t : State) × (print_tree d tree s ≡ some t) × Kept s t
  unfolding print_tree
  print_tree-Kept tree s = (accept-Related printer-Laws tree).run s
