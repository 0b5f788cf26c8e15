-- ===== src/Ast/Addresses.antt =====
-- src/ast: sets of nodes, by their addresses, that a visitor of src/ast/visitor.hh collects.
use tiger_compilor.Prelude.{ℕ, Bool, Option, false, ◌||◌, ◌==◌}
use tiger_compilor.Ast.Syntax.{Node}
use tiger_compilor.Ast.Summary.{joined_option}

abbrev pub Addresses : Type 0
Addresses = ℕ → Bool

abbrev pub nowhere : Addresses
nowhere a = false

abbrev pub union : Addresses → Addresses → Addresses
union f g a = f a || g a

abbrev pub present : Option Addresses → Addresses
present f = joined_option nowhere union f

-- A node, and what is found below it.
abbrev pub at_node : Node → Addresses → Addresses
at_node n f a = n.address == a || f a
