-- ===== src/Types/Checker.antt =====
-- src/type/type-checker.cc and type-checker.hxx: the `TypeChecker`.
pub mod State
pub mod Access
pub mod Exps
pub mod Decs
pub mod Walk
pub mod Owned
pub mod Setting
pub mod Checks
pub mod KeptAccess
pub mod KeptRecords
pub mod KeptExps
pub mod KeptDecs
pub mod Safe
pub mod Exact
