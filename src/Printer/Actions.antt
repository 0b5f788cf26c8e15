-- ===== src/Printer/Actions.antt =====
-- src/ast/pretty-printer.cc: what its operations are made of.
use tiger_compilor.Prelude.{
  ℕ, ◌&&◌, String, Bool, Option, some, List, [], ◌∷◌, if◌then◌else◌, ◌>>=◌,
}
use tiger_compilor.Misc.Indent.{Stream, write}
use tiger_compilor.Misc.Indent
use tiger_compilor.Ast.Syntax.{Node, Oper, add, sub, mul, div, eq, ne, lt, le, gt, ge}
use tiger_compilor.Ast.Visitor.{Decl}
use tiger_compilor.Ast.Default.{Action, skip, ◌⨾◌}

-- The stream, and the variables of the file; `in_formal` is never read.
pub record State : Type 0 where
  pub stream : Stream
  pub in_varchunk : Bool
  pub in_funcvar : Bool

-- `ostr_ << x`
unfoldable pub print : String → Action State
unfolding write
print x s = some (record s { stream = write x s.stream })

unfoldable pub incindent : Action State
unfolding Indent.incindent
incindent s = some (record s { stream = Indent.incindent s.stream })

unfoldable pub decindent : Action State
unfolding Indent.decindent
decindent s = Indent.decindent s.stream >>= λ o. some (record s { stream = o })

unfoldable pub iendl : Action State
unfolding Indent.iendl
iendl s = some (record s { stream = Indent.iendl s.stream })

-- `ostr_ << misc::incindent ... misc::decindent`; incendl is incindent and iendl, and decendl is
-- decindent and iendl.
unfoldable pub indented : Action State → Action State
unfolding incindent decindent
indented a = incindent ⨾ a ⨾ decindent

abbrev pub set_in_varchunk : Bool → Action State
set_in_varchunk b s = some (record s { in_varchunk = b })

abbrev pub set_in_funcvar : Bool → Action State
set_in_funcvar b s = some (record s { in_funcvar = b })

-- `if (std::next(it) != end) ostr_ << ...`: something between two.
abbrev pub between : Action State → List (Action State) → Action State
between sep [] = skip
between sep (a ∷ []) = a
between sep (a ∷ b ∷ rest) = a ⨾ sep ⨾ between sep (b ∷ rest)

abbrev pub visits : List (Decl (Action State)) → List (Action State)
visits [] = []
visits (d ∷ ds) = d.visit ∷ visits ds

-- `if (exps.begin() != exps.end())`
abbrev pub if_any : List (Action State) → Action State → Action State
if_any [] a = skip
if_any (b ∷ rest) a = a

-- `ast::str`
unfoldable pub str : Oper → String
str add = "+"
str sub = "-"
str mul = "*"
str div = "/"
str eq = "="
str ne = "<>"
str lt = "<"
str le = "<="
str gt = ">"
str ge = ">="

-- `bindings_display(ostr)` and `escapes_display(ostr)`, what the binder and the escapes visitor have
-- set on nodes, and how a stream writes a pointer.
pub record Display : Type 0 where
  pub bindings : Bool
  pub escapes : Bool
  pub def : ℕ → Option ℕ
  pub is_escapable : ℕ → Bool
  pub pointer : Option ℕ → String

module _ (d : Display) where
  -- `ostr_ << " /* " << p << " */"`, if bindings are displayed
  unfoldable pub binding : Option ℕ → Action State
  unfolding print
  binding p = if d.bindings then print " /* " ⨾ print (d.pointer p) ⨾ print " */" else skip

  -- `ostr << static_cast<const Dec&>(e)`
  unfoldable pub dec : Node → String → Action State
  unfolding print binding
  dec n x = print x ⨾ binding (some n.address)

  -- `ostr << static_cast<const Escapable&>(e)`
  unfoldable pub escaping : Node → Action State
  unfolding print
  escaping n = if d.escapes && d.is_escapable n.address then print "/* escaping */ " else skip
