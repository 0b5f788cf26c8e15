-- ===== src/Bind.antt =====
-- src/bind: the binder and the renamer.
pub mod State
pub mod Binder
pub mod Scoping
pub mod Frames
pub mod Correct
pub mod Mains
pub mod Outcome
pub mod Renamer
