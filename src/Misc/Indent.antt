-- ===== src/Misc/Indent.antt =====
-- lib/misc/indent.cc: an output stream with a level of indentation.
use tiger_compilor.Prelude.{ℕ, zero, suc, ◌+◌, ◌-◌, String, Option, none, some, str_append}

-- What was written, and the slot of the stream for the level, which only moves by two.
pub record Stream : Type 0 where
  pub text : String
  pub indent : ℕ

unfoldable pub write : String → Stream → Stream
write x o = record o { text = str_append o.text x }

unfoldable pub incindent : Stream → Stream
incindent o = record o { indent = o.indent + 2 }

-- A level of zero breaks the precondition.
unfoldable pub decindent : Stream → Option Stream
decindent o = elim o.indent [ zero ↦ none | suc n ↦ some (record o { indent = o.indent - 2 }) ]

unfoldable pub resetindent : Stream → Stream
resetindent o = record o { indent = 0 }

-- `std::setw(n)` of the empty text
unfoldable pub spaces : ℕ → String
spaces zero = ""
spaces (suc n) = str_append " " (spaces n)

unfoldable pub iendl : Stream → Stream
unfolding write spaces
iendl o = write (str_append "\n" (spaces o.indent)) o
