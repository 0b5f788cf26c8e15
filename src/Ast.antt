-- ===== src/Ast.antt =====
-- src/ast: the abstract syntax tree, and the visitors that walk it.
pub mod Syntax
pub mod Visitor
pub mod Default
pub mod Laws
pub mod Related
pub mod Summary
pub mod Addresses
pub mod Overrides
