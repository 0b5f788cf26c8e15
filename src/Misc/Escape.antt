-- ===== src/Misc/Escape.antt =====
-- lib/misc/escape.cc: a text with escapes for what cannot be printed, as bytes.
use tiger_compilor.Prelude.{
  ℕ, ◌+◌, ◌/◌, ◌%◌, Bool, ◌&&◌, not, List, [], ◌∷◌, ◌++◌, ltb, if◌then◌else◌, ◌==◌,
}

abbrev pub Bytes : Type 0
Bytes = List ℕ

abbrev pub backslash : ℕ
backslash = b'\\'

abbrev pub quote : ℕ
quote = b'"'

-- `std::isprint`, in the locale in which a program starts
abbrev pub isprint : ℕ → Bool
isprint c = not (ltb c 32) && ltb c 127

-- `std::setw(3)` in octal, with zeros to the left, of a byte
abbrev pub octal : ℕ → Bytes
octal c = (48 + c / 64) ∷ (48 + c / 8 % 8) ∷ (48 + c % 8) ∷ []

-- One round of the loop of `escaped::escape_`.
unfoldable pub escape_char : ℕ → Bytes
escape_char c =
    if c == 7
    then backslash ∷ b'0' ∷ b'0' ∷ b'7' ∷ []
    else if c == 8
    then backslash ∷ b'b' ∷ []
    else if c == 12
    then backslash ∷ b'f' ∷ []
    else if c == 10
    then backslash ∷ b'n' ∷ []
    else if c == 13
    then backslash ∷ b'r' ∷ []
    else if c == 9
    then backslash ∷ b't' ∷ []
    else if c == 11
    then backslash ∷ b'v' ∷ []
    else if c == backslash
    then backslash ∷ backslash ∷ []
    else if c == quote
    then backslash ∷ quote ∷ []
    else if isprint c
    then c ∷ []
    else backslash ∷ octal c

unfoldable pub escape : Bytes → Bytes
unfolding escape_char
escape [] = []
escape (c ∷ s) = escape_char c ++ escape s
