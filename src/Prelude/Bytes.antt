-- ===== src/Prelude/Bytes.antt =====
-- The bytes of a text, and the text of some bytes: a `std::string` is a sequence of `char`.
use Prim.Native.Char.{Char, char, code, IsScalar}
use Prim.Native.Nat.{ℕ, compare, Ordering, ◌%◌}
use Prim.Native.String.{String}
use mathlib.Core.Path.{◌≡◌, refl}
use mathlib.Core.List.{List, [], ◌∷◌}
use native.Mathlib.Omega.{arith}

abbrev pub Bytes : Type 0
Bytes = List ℕ

IsScalar-byte : (n : ℕ) → IsScalar (n % 256)
IsScalar-byte n = let below : compare (n % 256) 55296 ≡ Ordering.lt = ground arith in rw below tt

abbrev byte_char : ℕ → Char
byte_char n = char (n % 256) (IsScalar-byte n)

unfoldable pub bytes_of : String → Bytes
bytes_of String.[] = []
bytes_of (String.◌∷◌ c s) = code c ∷ bytes_of s

unfoldable pub text_of : Bytes → String
unfolding IsScalar-byte
text_of [] = ""
text_of (c ∷ s) = String.◌∷◌ (byte_char c) (text_of s)

text_of-bytes_of_example : text_of (bytes_of "a\\b") ≡ "a\\b"
unfolding bytes_of text_of
text_of-bytes_of_example = refl
