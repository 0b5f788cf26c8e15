-- ===== src/Tests.antt =====
-- Runs of the model on small inputs, and the theorems at concrete inputs.
pub mod Programs
pub mod Binding
pub mod Naming
pub mod Renaming
pub mod Scopes
pub mod Typing
pub mod Dumping
pub mod Running
pub mod Lifting
pub mod Timing
pub mod Escaping
pub mod Ordering
pub mod Cycles
pub mod Printing
pub mod Texts
pub mod Inheriting
pub mod Cloning
