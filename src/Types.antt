-- ===== src/Types.antt =====
-- src/type: the types of Tiger, and the type checker.
pub mod Heap
pub mod Chains
pub mod Named
pub mod Compatible
pub mod Checker
pub mod Classes
