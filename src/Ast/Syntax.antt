-- ===== src/Ast/Syntax.antt =====
-- src/ast: the nodes of the tree, a constructor for each class, without the object constructs.
-- A node carries its address, by which the passes of the compiler annotate it, and its location.
use tiger_compilor.Prelude.{ℕ, String, Option, List}

-- `ast::Ast`: the address stands for the pointer `this`.
pub record Node : Type 0 where
  pub address : ℕ
  pub location : ℕ

-- `ast::OpExp::Oper`
pub data Oper : Type 0 where
  add sub mul div eq ne lt le gt ge : Oper

-- `ast::NameTy`
pub record NameTy : Type 0 where
  pub node : Node
  pub name : String

-- `ast::Field`
pub record Field : Type 0 where
  pub node : Node
  pub name : String
  pub type_name : NameTy

-- `ast::Ty`
pub data Ty : Type 0 where
  name_ty : NameTy → Ty
  record_ty : Node → List Field → Ty
  array_ty : Node → NameTy → Ty

-- `ast::TypeDec`
pub record TypeDec : Type 0 where
  pub node : Node
  pub name : String
  pub ty : Ty

mutual
  -- `ast::Var`
  pub data Var : Type 0 where
    simple_var : Node → String → Var
    field_var : Node → Var → String → Var
    subscript_var : Node → Var → Exp → Var

  -- `ast::Exp`; the literals of the scanner are not negative
  pub data Exp : Type 0 where
    var_exp : Var → Exp
    nil_exp : Node → Exp
    int_exp : Node → ℕ → Exp
    string_exp : Node → String → Exp
    call_exp : Node → String → Exps → Exp
    op_exp : Node → Exp → Oper → Exp → Exp
    record_exp : Node → NameTy → FieldInits → Exp
    seq_exp : Node → Exps → Exp
    assign_exp : Node → Var → Exp → Exp
    if_exp : Node → Exp → Exp → OptExp → Exp
    while_exp : Node → Exp → Exp → Exp
    for_exp : Node → VarDec → Exp → Exp → Exp
    break_exp : Node → Exp
    let_exp : Node → Chunks → Exp → Exp
    array_exp : Node → NameTy → Exp → Exp → Exp
    cast_exp : Node → Exp → Ty → Exp

  -- an `ast::Exp*` that may be null
  pub data OptExp : Type 0 where
    no_exp : OptExp
    an_exp : Exp → OptExp

  -- `ast::exps_type`
  pub data Exps : Type 0 where
    no_exps : Exps
    exps : Exp → Exps → Exps

  -- `ast::fieldinits_type`: the name of each `ast::FieldInit` and its value
  pub data FieldInits : Type 0 where
    no_inits : FieldInits
    inits : Node → String → Exp → FieldInits → FieldInits

  -- `ast::VarDec`
  pub data VarDec : Type 0 where
    var_dec : Node → String → Option NameTy → OptExp → VarDec

  -- the declarations of an `ast::VarChunk`
  pub data VarDecs : Type 0 where
    no_vars : VarDecs
    vars : VarDec → VarDecs → VarDecs

  -- `ast::FunctionDec`: name, formals, result and body
  pub data FunctionDec : Type 0 where
    function_dec : Node → String → Node → VarDecs → Option NameTy → OptExp → FunctionDec

  -- the declarations of an `ast::FunctionChunk`
  pub data FunctionDecs : Type 0 where
    no_functions : FunctionDecs
    functions : FunctionDec → FunctionDecs → FunctionDecs

  -- `ast::ChunkInterface`
  pub data Chunk : Type 0 where
    var_chunk : Node → VarDecs → Chunk
    function_chunk : Node → FunctionDecs → Chunk
    type_chunk : Node → List TypeDec → Chunk

  -- `ast::ChunkList`
  pub data Chunks : Type 0 where
    no_chunks : Chunks
    chunks : Chunk → Chunks → Chunks
