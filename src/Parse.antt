-- ===== src/Parse.antt =====
-- src/parse: what the rules of the scanner read.
pub mod Strings
pub mod Escapes
