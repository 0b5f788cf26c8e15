-- ===== src/Runtime/Machine.antt =====
-- src/llvmtranslate/runtime.cc: the words, the memory and the outcomes of the code that it holds,
-- which is that of tiger-runtime.c for a machine of 32 bits.
use tiger_compilor.Prelude.{
  ℕ, zero, suc, ◌+◌, ◌-◌, ◌*◌, ◌%◌, String, Bool, not, ◌&&◌, ◌||◌, [], ◌∷◌, Option, none, some,
  length, ltb, if◌then◌else◌, ◌==◌,
}
use tiger_compilor.Prelude.Bytes.{Bytes}

-- An `i32` is its bit pattern.
abbrev pub word : ℕ
word = 4294967296

abbrev pub half : ℕ
half = 2147483648

abbrev pub negative : ℕ → Bool
negative w = not (ltb w half)

-- `icmp sle`: the patterns in the order of the numbers that they stand for
abbrev pub sle : ℕ → ℕ → Bool
sle a b = not (ltb ((b + half) % word) ((a + half) % word))

-- `sext i8 to i32`
abbrev pub sext : ℕ → ℕ
sext c = if ltb c 128 then c else word - 256 + c

-- A pointer is into an object, of some bytes, of the memory.
pub record Pointer : Type 0 where
  pub block : ℕ
  pub offset : ℕ

-- An object that is not there has no bytes.
pub record Memory : Type 0 where
  pub bytes : ℕ → Bytes

-- An outcome is undefined where the code reads or writes out of an object, leaves it by `inbounds`,
-- or overflows an operation that is marked `nsw`.
pub data Ending (A : Type 0) : Type 0 where
  returns : A → Memory → Ending A
  exits : ℕ → String → Ending A
  undefined : Ending A
  out_of_fuel : Ending A

abbrev pub Code : Type 0 → Type 0
Code A = Memory → Ending A

abbrev pub ret : {A : Type 0} → A → Code A
ret a m = returns a m

infixl 5 ◌>>=◌ ◌>>◌
abbrev pub ◌>>=◌ : {A B : Type 0} → Code A → (A → Code B) → Code B
◌>>=◌ c f m = elim (c m) [
  | returns a m' ↦ f a m'
  | exits status text ↦ exits status text
  | undefined ↦ undefined
  | out_of_fuel ↦ out_of_fuel
]

abbrev pub ◌>>◌ : {B : Type 0} → Code (Unit {0}) → Code B → Code B
c >> d = c >>= λ _. d

abbrev pub get_elem? : Bytes → ℕ → Option ℕ
get_elem? [] i = none
get_elem? (x ∷ xs) zero = some x
get_elem? (x ∷ xs) (suc i) = get_elem? xs i

-- A write out of bounds changes nothing.
abbrev pub set : Bytes → ℕ → ℕ → Bytes
set [] i v = []
set (x ∷ xs) zero v = v ∷ xs
set (x ∷ xs) (suc i) v = x ∷ set xs i v

-- `add nsw`: with the same sign on both sides, the sum has it too
unfoldable pub add_nsw : ℕ → ℕ → Code ℕ
add_nsw a b m =
    let sum = (a + b) % word in
    if negative a && negative b && not (negative sum)
      || not (negative a) && not (negative b) && negative sum
    then undefined
    else returns sum m

-- `mul nsw` by 2
unfoldable pub double_nsw : ℕ → Code ℕ
double_nsw a = add_nsw a a

-- `getelementptr inbounds` over elements of so many bytes: the place just past an object is in it.
unfoldable pub gep : ℕ → Pointer → ℕ → Code Pointer
gep size p w m =
    let back = size * (word - w) in
    let ahead = p.offset + size * w in
    if negative w
    then (if ltb p.offset back
        then undefined
        else returns (record p { offset = p.offset - back }) m)
    else if ltb (length (m.bytes p.block)) ahead
    then undefined
    else returns (record p { offset = ahead }) m

read_byte : Option ℕ → Memory → Ending ℕ
read_byte none m = undefined
read_byte (some c) m = returns c m

-- `load i8`
unfoldable pub load : Pointer → Code ℕ
unfolding read_byte
load p m = read_byte (get_elem? (m.bytes p.block) p.offset) m

abbrev pub written : Memory → Pointer → ℕ → Memory
written m p c = record {
  bytes = λ b. if b == p.block then set (m.bytes b) p.offset c else m.bytes b;
}

-- `store i8`
unfoldable pub store : Pointer → ℕ → Code (Unit {0})
store p c m =
    if ltb p.offset (length (m.bytes p.block)) then returns tt (written m p c) else undefined

-- The functions of the C library that the code calls.
pub record Libc : Type 0 where
  pub strlen : Memory → Pointer → ℕ
  pub strcmp : Memory → Pointer → Pointer → ℕ
  pub malloc : ℕ → Memory → Pointer × Memory

module _ (libc : Libc) where
  abbrev pub call_strlen : Pointer → Code ℕ
  call_strlen s m = returns (libc.strlen m s) m

  abbrev pub call_malloc : ℕ → Code Pointer
  call_malloc size m = let (p, m') = libc.malloc size m in returns p m'
