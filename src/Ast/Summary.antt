-- ===== src/Ast/Summary.antt =====
-- The default visitor of src/ast/default-visitor.hxx beside a visitor that joins a value of each
-- part: what holds of doing nothing and of one action after another holds of every walk.
use tiger_compilor.Prelude.{Option, none, some, List, [], ◌∷◌, All₂, Both}
use tiger_compilor.Ast.Visitor.{Decl, Visitor}
use tiger_compilor.Ast.Default.{Action, skip, ◌⨾◌, each, if_present, each_decl, default_visitor}
use tiger_compilor.Ast.Default
use tiger_compilor.Ast.Laws.{Laws, SameDecl}

module _ {Y : Type 0} (unit : Y) (join : Y → Y → Y) where
  abbrev pub joined : List Y → Y
  joined [] = unit
  joined (y ∷ ys) = join y (joined ys)

  abbrev pub joined_option : Option Y → Y
  joined_option none = unit
  joined_option (some y) = y

  abbrev pub joined_decls : List (Decl Y) → Y
  joined_decls [] = unit
  joined_decls (d ∷ ds) = join d.visit (joined_decls ds)

  abbrev pub summary : Visitor Y
  summary = record {
    simple_var = λ n x. unit;
    field_var = λ n a x. a;
    subscript_var = λ n a b. join a b;
    nil_exp = λ n. unit;
    int_exp = λ n k. unit;
    string_exp = λ n x. unit;
    call_exp = λ n x args. joined args;
    op_exp = λ n a o b. join a b;
    record_exp = λ n a fields. join a (joined fields);
    field_init = λ n x a. a;
    seq_exp = λ n es. joined es;
    assign_exp = λ n a b. join a b;
    if_exp = λ n a b c. join a (join b (joined_option c));
    while_exp = λ n a b. join a b;
    for_exp = λ n a b c. join a (join b c);
    break_exp = λ n. unit;
    let_exp = λ n a b. join a b;
    array_exp = λ n a b c. join a (join b c);
    cast_exp = λ n a b. join a b;
    chunk_list = λ cs. joined cs;
    var_chunk = λ n ds. joined_decls ds;
    function_chunk = λ n ds. joined_decls ds;
    type_chunk = λ n ds. joined_decls ds;
    var_dec = λ n x a b. join (joined_option a) (joined_option b);
    function_dec = λ n x a b c. join a (join (joined_option b) (joined_option c));
    type_dec = λ n x a. a;
    name_ty = λ n x. unit;
    record_ty = λ n fields. joined fields;
    array_ty = λ n a. a;
    field = λ n x a. a;
  }

  -- A relation that holds of doing nothing, and of two actions if it holds of each.
  pub record Closed {S : Type 0} (R : Action S → Y → Type 0) : Type 0 where
    pub skip_rule : R skip unit
    pub seq_rule : (a b : Action S) (x y : Y) → R a x → R b y → R (a ⨾ b) (join x y)

  module _ {S : Type 0} {R : Action S → Y → Type 0} (c : Closed R) where
    open c use {skip_rule, seq_rule}

    pub each-joined :
        (as_ : List (Action S)) (ys : List Y) → All₂ R as_ ys → R (each as_) (joined ys)
    each-joined [] [] h = skip_rule
    each-joined (a ∷ as_) (y ∷ ys) h =
        seq_rule a (each as_) y (joined ys) h.0 (each-joined as_ ys h.1)
    each-joined [] (y ∷ ys) h = absurd h
    each-joined (a ∷ as_) [] h = absurd h

    pub if_present-joined :
        (a : Option (Action S)) (y : Option Y) → Both R a y → R (if_present a) (joined_option y)
    if_present-joined none none h = skip_rule
    if_present-joined (some a) (some y) h = h
    if_present-joined none (some y) h = absurd h
    if_present-joined (some a) none h = absurd h

    pub each_decl-joined :
        (ds : List (Decl (Action S))) (es : List (Decl Y))
        → All₂ (SameDecl R) ds es
        → R (each_decl ds) (joined_decls es)
    each_decl-joined [] [] h = skip_rule
    each_decl-joined (d ∷ ds) (e ∷ es) h =
        seq_rule d.visit (each_decl ds) e.visit (joined_decls es) (h.0).2
          (each_decl-joined ds es h.1)
    each_decl-joined [] (e ∷ es) h = absurd h
    each_decl-joined (d ∷ ds) [] h = absurd h

    pub two_options-joined :
        (a b : Option (Action S)) (x y : Option Y)
        → Both R a x
        → Both R b y
        → R (if_present a ⨾ if_present b) (join (joined_option x) (joined_option y))
    two_options-joined a b x y h k =
        seq_rule (if_present a) (if_present b) (joined_option x) (joined_option y)
          (if_present-joined a x h) (if_present-joined b y k)

    pub three-joined :
        (a b d : Action S) (x y z : Y) → R a x → R b y → R d z → R (a ⨾ b ⨾ d) (join x (join y z))
    three-joined a b d x y z h k l = seq_rule a (b ⨾ d) x (join y z) h (seq_rule b d y z k l)

    pub default-Laws : Laws R R R R default_visitor summary
    unfolding Default.simple_var Default.field_var Default.subscript_var Default.nil_exp
        Default.int_exp Default.string_exp Default.call_exp Default.op_exp Default.record_exp
        Default.field_init Default.seq_exp Default.assign_exp Default.if_exp Default.while_exp
        Default.for_exp Default.break_exp Default.let_exp Default.array_exp Default.cast_exp
        Default.chunk_list Default.var_chunk Default.function_chunk Default.type_chunk
        Default.var_dec Default.function_dec Default.type_dec Default.name_ty Default.record_ty
        Default.array_ty Default.field
    default-Laws = record {
      simple_var = λ n x. skip_rule;
      field_var = λ n x a y h. h;
      subscript_var = λ n a b x y h k. seq_rule a b x y h k;
      nil_exp = λ n. skip_rule;
      int_exp = λ n k. skip_rule;
      string_exp = λ n x. skip_rule;
      call_exp = λ n x as_ ys h. each-joined as_ ys h;
      op_exp = λ n o a b x y h k. seq_rule a b x y h k;
      record_exp = λ n a x as_ ys h k. seq_rule a (each as_) x (joined ys) h (each-joined as_ ys k);
      field_init = λ n x a y h. h;
      seq_exp = λ n as_ ys h. each-joined as_ ys h;
      assign_exp = λ n a b x y h k. seq_rule a b x y h k;
      if_exp = λ n a b x y o p h k l.
          three-joined a b (if_present o) x y (joined_option p) h k (if_present-joined o p l);
      while_exp = λ n a b x y h k. seq_rule a b x y h k;
      for_exp = λ n a b d x y z h k l. three-joined a b d x y z h k l;
      break_exp = λ n. skip_rule;
      let_exp = λ n a b x y h k. seq_rule a b x y h k;
      array_exp = λ n a b d x y z h k l. three-joined a b d x y z h k l;
      cast_exp = λ n a b x y h k. seq_rule a b x y h k;
      chunk_list = each-joined;
      var_chunk = λ n ds es h. each_decl-joined ds es h;
      weaken = λ a x h. h;
      function_chunk = λ n ds es h. each_decl-joined ds es h;
      type_chunk = λ n ds es h. each_decl-joined ds es h;
      var_dec = λ n x a b y z h k. two_options-joined a b y z h k;
      function_dec = λ n x a y o p q r h k l.
          three-joined a (if_present o) (if_present p) y (joined_option q) (joined_option r) h
            (if_present-joined o q k) (if_present-joined p r l);
      type_dec = λ n x a y h. h;
      name_ty = λ n x. skip_rule;
      record_ty = λ n as_ ys h. each-joined as_ ys h;
      array_ty = λ n a y h. h;
      field = λ n x a y h. h;
    }
