-- ===== src/Misc.antt =====
-- lib/misc: the containers of the compiler, and its timer.
pub mod ScopedMap
pub mod Indent
pub mod Symbol
pub mod Escape
pub mod Timer
