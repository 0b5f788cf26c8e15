-- ===== src/Bind/Correct.antt =====
-- src/bind/binder.cc: the binder beside the rules of scope.
pub mod Uses
pub mod Declares
pub mod Decs
pub mod Scopes
pub mod Functions
pub mod Names
pub mod Chunks
pub mod Programs
