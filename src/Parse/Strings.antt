-- ===== src/Parse/Strings.antt =====
-- src/parse/scantiger.ll: the rules of the state SC_STRING, which read a string literal.
use tiger_compilor.Prelude.{
  ℕ, zero, suc, ◌+◌, ◌-◌, ◌*◌, Bool, true, false, ◌&&◌, not, Option, none, some, [], ◌∷◌, ltb,
  if◌then◌else◌, ◌==◌, ◌>>=◌,
}
use tiger_compilor.Misc.Escape.{Bytes, backslash, quote}

abbrev pub between : ℕ → ℕ → ℕ → Bool
between lo c hi = not (ltb c lo) && not (ltb hi c)

-- `\\[0-3][0-7][0-7]`, behind the backslash: the value, and what is left
abbrev pub two_digits : ℕ → Bytes → Option (ℕ × Bytes)
two_digits a (b ∷ c ∷ rest) =
    if between 48 b 55 && between 48 c 55
    then some ((a - 48) * 64 + (b - 48) * 8 + (c - 48), rest)
    else none
two_digits a _ = none

abbrev pub octa : Bytes → Option (ℕ × Bytes)
octa [] = none
octa (a ∷ rest) = if between 48 a 51 then two_digits a rest else none

-- `[0-9a-fA-F]`
abbrev pub hexa_digit : ℕ → Option ℕ
hexa_digit c =
    if between 48 c 57
    then some (c - 48)
    else if between 97 c 102
    then some (c - 87)
    else if between 65 c 70
    then some (c - 55)
    else none

-- `\\x[0-9a-fA-F]{2}`, behind the backslash
abbrev pub hexa_value : Bytes → Option (ℕ × Bytes)
hexa_value (a ∷ b ∷ rest) = hexa_digit a >>= λ m. hexa_digit b >>= λ n. some (m * 16 + n, rest)
hexa_value _ = none

abbrev pub hexa : Bytes → Option (ℕ × Bytes)
hexa [] = none
hexa (x ∷ rest) = if x == b'x' then hexa_value rest else none

-- The rules for one character behind the backslash. A newline is read as itself: no rule takes it
-- with the backslash, which is dropped then.
abbrev pub named : ℕ → Option ℕ
named c =
    if c == b'a'
    then some 7
    else if c == b'b'
    then some 8
    else if c == b'f'
    then some 12
    else if c == b'n'
    then some 10
    else if c == b'r'
    then some 13
    else if c == b't'
    then some 9
    else if c == b'v'
    then some 11
    else if c == backslash
    then some backslash
    else if c == quote
    then some quote
    else if c == 10
    then some 10
    else none

-- The longest rule is taken; `none` is an invalid escape.
unfoldable pub reveal : Bytes → Option (ℕ × Bytes)
reveal [] = none
reveal (c ∷ rest) = elim (octa (c ∷ rest)) [
  | some r ↦ some r
  | none ↦ elim (hexa (c ∷ rest)) [ some r ↦ some r | none ↦ named c >>= λ d. some (d, rest) ]
]

-- The string up to the closing quote, and what follows it; `none` is an error of the scanner. The
-- fuel bounds the characters of the string.
unfoldable pub read : ℕ → Bytes → Option (Bytes × Bytes)
unfolding reveal
read zero s = none
read (suc fuel) [] = none
read (suc fuel) (c ∷ rest) = elim (c == quote) [
  | true ↦ some ([], rest)
  | false ↦ elim (c == backslash) [
    | true ↦ reveal rest >>= λ r. read fuel r.1 >>= λ t. some (r.0 ∷ t.0, t.1)
    | false ↦ read fuel rest >>= λ t. some (c ∷ t.0, t.1)
  ]
]
