-- ===== src/Ast/Overrides.antt =====
-- Visitors that override some operations of the default visitor of src/ast/default-visitor.hxx.
use tiger_compilor.Prelude.{String, Option, List, All₂, Both}
use tiger_compilor.Ast.Syntax.{Node}
use tiger_compilor.Ast.Visitor.{Visitor}
use tiger_compilor.Ast.Default.{Action, default_visitor}
use tiger_compilor.Ast.Laws.{Laws}
use tiger_compilor.Ast.Summary.{summary, Closed, default-Laws}

-- The operations on names, on their uses and on their declarations.
pub record NameOps (X : Type 0) : Type 0 where
  pub simple_var : Node → String → X
  pub call_exp : Node → String → List X → X
  pub var_dec : Node → String → Option X → Option X → X
  pub function_dec : Node → String → X → Option X → Option X → X
  pub type_dec : Node → String → X → X
  pub name_ty : Node → String → X

abbrev pub overriding : {X : Type 0} → Visitor X → NameOps X → Visitor X
overriding v o = record v {
  simple_var = o.simple_var;
  call_exp = o.call_exp;
  var_dec = o.var_dec;
  function_dec = o.function_dec;
  type_dec = o.type_dec;
  name_ty = o.name_ty;
}

pub record NameLaws {X Y : Type 0} (R : X → Y → Type 0) (v : NameOps X) (w : NameOps Y)
    : Type 0 where
  pub simple_var : (n : Node) (x : String) → R (v.simple_var n x) (w.simple_var n x)
  pub call_exp :
      (n : Node) (x : String) (as_ : List X) (ys : List Y)
      → All₂ R as_ ys
      → R (v.call_exp n x as_) (w.call_exp n x ys)
  pub var_dec :
      (n : Node) (x : String) (a c : Option X) (b d : Option Y)
      → Both R a b
      → Both R c d
      → R (v.var_dec n x a c) (w.var_dec n x b d)
  pub function_dec :
      (n : Node) (x : String) (f : X) (g : Y) (a c : Option X) (b d : Option Y)
      → R f g
      → Both R a b
      → Both R c d
      → R (v.function_dec n x f a c) (w.function_dec n x g b d)
  pub type_dec :
      (n : Node) (x : String) (a : X) (b : Y) → R a b → R (v.type_dec n x a) (w.type_dec n x b)
  pub name_ty : (n : Node) (x : String) → R (v.name_ty n x) (w.name_ty n x)

module _ {S Y : Type 0} (unit : Y) (join : Y → Y → Y) {R : Action S → Y → Type 0}
    (c : Closed unit join R) where
  pub overriding-Laws :
      (v : NameOps (Action S)) (w : NameOps Y)
      → NameLaws R v w
      → Laws R R R R (overriding default_visitor v) (overriding (summary unit join) w)
  overriding-Laws v w l =
      let d = default-Laws unit join c in
      record {
        simple_var = l.simple_var;
        field_var = d.field_var;
        subscript_var = d.subscript_var;
        nil_exp = d.nil_exp;
        int_exp = d.int_exp;
        string_exp = d.string_exp;
        call_exp = l.call_exp;
        op_exp = d.op_exp;
        record_exp = d.record_exp;
        field_init = d.field_init;
        seq_exp = d.seq_exp;
        assign_exp = d.assign_exp;
        if_exp = d.if_exp;
        while_exp = d.while_exp;
        for_exp = d.for_exp;
        break_exp = d.break_exp;
        let_exp = d.let_exp;
        array_exp = d.array_exp;
        cast_exp = d.cast_exp;
        chunk_list = d.chunk_list;
        var_chunk = d.var_chunk;
        weaken = d.weaken;
        function_chunk = d.function_chunk;
        type_chunk = d.type_chunk;
        var_dec = l.var_dec;
        function_dec = l.function_dec;
        type_dec = l.type_dec;
        name_ty = l.name_ty;
        record_ty = d.record_ty;
        array_ty = d.array_ty;
        field = d.field;
      }
