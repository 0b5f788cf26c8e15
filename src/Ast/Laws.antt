-- ===== src/Ast/Laws.antt =====
-- Two visitors that walk the same tree: what it means that their operations keep a relation.
-- `E` is for expressions and variables, `T` for types, `V` for variables that are declared, and
-- `D` for all other declarations and chunks.
use tiger_compilor.Prelude.{ℕ, String, ◌≡◌, Option, List, All₂, Both}
use tiger_compilor.Ast.Syntax.{Node, Oper}
use tiger_compilor.Ast.Visitor.{Decl, Visitor}

module _ {X Y : Type 0} (D : X → Y → Type 0) where
  abbrev pub SameDecl : Decl X → Decl Y → Type 0
  SameDecl d e = (d.node ≡ e.node) × (d.name ≡ e.name) × D d.visit e.visit

module _ {X Y : Type 0} (E T V D : X → Y → Type 0) where
  pub record Laws (v : Visitor X) (w : Visitor Y) : Type 0 where
    pub simple_var : (n : Node) (x : String) → E (v.simple_var n x) (w.simple_var n x)
    pub field_var :
        (n : Node) (x : String) (a : X) (b : Y) → E a b → E (v.field_var n a x) (w.field_var n b x)
    pub subscript_var :
        (n : Node) (a c : X) (b d : Y)
        → E a b
        → E c d
        → E (v.subscript_var n a c) (w.subscript_var n b d)
    pub nil_exp : (n : Node) → E (v.nil_exp n) (w.nil_exp n)
    pub int_exp : (n : Node) (k : ℕ) → E (v.int_exp n k) (w.int_exp n k)
    pub string_exp : (n : Node) (x : String) → E (v.string_exp n x) (w.string_exp n x)
    pub call_exp :
        (n : Node) (x : String) (xs : List X) (ys : List Y)
        → All₂ E xs ys
        → E (v.call_exp n x xs) (w.call_exp n x ys)
    pub op_exp :
        (n : Node) (o : Oper) (a c : X) (b d : Y)
        → E a b
        → E c d
        → E (v.op_exp n a o c) (w.op_exp n b o d)
    pub record_exp :
        (n : Node) (a : X) (b : Y) (xs : List X) (ys : List Y)
        → T a b
        → All₂ E xs ys
        → E (v.record_exp n a xs) (w.record_exp n b ys)
    pub field_init :
        (n : Node) (x : String) (a : X) (b : Y)
        → E a b
        → E (v.field_init n x a) (w.field_init n x b)
    pub seq_exp :
        (n : Node) (xs : List X) (ys : List Y) → All₂ E xs ys → E (v.seq_exp n xs) (w.seq_exp n ys)
    pub assign_exp :
        (n : Node) (a c : X) (b d : Y) → E a b → E c d → E (v.assign_exp n a c) (w.assign_exp n b d)
    pub if_exp :
        (n : Node) (a c : X) (b d : Y) (x : Option X) (y : Option Y)
        → E a b
        → E c d
        → Both E x y
        → E (v.if_exp n a c x) (w.if_exp n b d y)
    pub while_exp :
        (n : Node) (a c : X) (b d : Y) → E a b → E c d → E (v.while_exp n a c) (w.while_exp n b d)
    pub for_exp :
        (n : Node) (a c x : X) (b d y : Y)
        → V a b
        → E c d
        → E x y
        → E (v.for_exp n a c x) (w.for_exp n b d y)
    pub break_exp : (n : Node) → E (v.break_exp n) (w.break_exp n)
    pub let_exp :
        (n : Node) (a c : X) (b d : Y) → D a b → E c d → E (v.let_exp n a c) (w.let_exp n b d)
    pub array_exp :
        (n : Node) (a c x : X) (b d y : Y)
        → T a b
        → E c d
        → E x y
        → E (v.array_exp n a c x) (w.array_exp n b d y)
    pub cast_exp :
        (n : Node) (a c : X) (b d : Y) → E a b → T c d → E (v.cast_exp n a c) (w.cast_exp n b d)
    pub chunk_list :
        (xs : List X) (ys : List Y) → All₂ D xs ys → D (v.chunk_list xs) (w.chunk_list ys)
    pub var_chunk :
        (n : Node) (xs : List (Decl X)) (ys : List (Decl Y))
        → All₂ (SameDecl V) xs ys
        → V (v.var_chunk n xs) (w.var_chunk n ys)
    -- among the chunks of a `let`
    pub weaken : (a : X) (b : Y) → V a b → D a b
    pub function_chunk :
        (n : Node) (xs : List (Decl X)) (ys : List (Decl Y))
        → All₂ (SameDecl D) xs ys
        → D (v.function_chunk n xs) (w.function_chunk n ys)
    pub type_chunk :
        (n : Node) (xs : List (Decl X)) (ys : List (Decl Y))
        → All₂ (SameDecl D) xs ys
        → D (v.type_chunk n xs) (w.type_chunk n ys)
    pub var_dec :
        (n : Node) (x : String) (a c : Option X) (b d : Option Y)
        → Both T a b
        → Both E c d
        → V (v.var_dec n x a c) (w.var_dec n x b d)
    pub function_dec :
        (n : Node) (x : String) (f : X) (g : Y) (a c : Option X) (b d : Option Y)
        → V f g
        → Both T a b
        → Both E c d
        → D (v.function_dec n x f a c) (w.function_dec n x g b d)
    pub type_dec :
        (n : Node) (x : String) (a : X) (b : Y) → T a b → D (v.type_dec n x a) (w.type_dec n x b)
    pub name_ty : (n : Node) (x : String) → T (v.name_ty n x) (w.name_ty n x)
    pub record_ty :
        (n : Node) (xs : List X) (ys : List Y)
        → All₂ T xs ys
        → T (v.record_ty n xs) (w.record_ty n ys)
    pub array_ty : (n : Node) (a : X) (b : Y) → T a b → T (v.array_ty n a) (w.array_ty n b)
    pub field : (n : Node) (x : String) (a : X) (b : Y) → T a b → T (v.field n x a) (w.field n x b)
