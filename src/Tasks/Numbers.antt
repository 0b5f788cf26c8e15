-- ===== src/Tasks/Numbers.antt =====
-- The integer types of src/task/int-task.cc: `long`, and its conversion to `int`.
use tiger_compilor.Prelude.{ℕ, ◌-◌, ◌%◌, Bool, true, false, ltb, not, if◌then◌else◌}

-- The integers, over the native numbers: `negsuc n` is `- (n + 1)`.
pub data ℤ : Type 0 where
  pos negsuc : ℕ → ℤ

-- `a <= b`
abbrev pub leb : ℤ → ℤ → Bool
leb (pos a) (pos b) = not (ltb b a)
leb (pos a) (negsuc b) = false
leb (negsuc a) (pos b) = true
leb (negsuc a) (negsuc b) = not (ltb a b)

-- An `int` from its 32 bits, in two's complement.
abbrev pub signed : ℕ → ℤ
signed n = if ltb n 2147483648 then pos n else negsuc (4294967295 - n)

-- The conversion of a `long` to an `int`, which takes the low 32 bits.
unfoldable pub to_int : ℤ → ℤ
to_int (pos n) = signed (n % 4294967296)
to_int (negsuc n) = signed (4294967295 - n % 4294967296)

abbrev pub is_int : ℤ → Bool
is_int (pos n) = ltb n 2147483648
is_int (negsuc n) = ltb n 2147483648
