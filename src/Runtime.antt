-- ===== src/Runtime.antt =====
-- src/llvmtranslate/runtime.cc: the functions of the runtime that compiled programs call.
pub mod Machine
pub mod Texts
pub mod Copy
pub mod Consts
pub mod Chars
pub mod Allocate
pub mod Concat
pub mod Substring
pub mod Words
pub mod Arrays
use tiger_compilor.Prelude.{
  ℕ, zero, suc, String, ◌+◌, ◌-◌, ◌*◌, ◌/◌, ◌%◌, Bool, true, false, not, ltb, if◌then◌else◌, ◌==◌,
}
use tiger_compilor.Runtime.Machine.{
  word, half, sle, sext, Pointer, Memory, Ending, returns, exits, undefined, out_of_fuel, Code, ret,
  ◌>>=◌, ◌>>◌, add_nsw, double_nsw, gep, load, store, Libc, call_strlen, call_malloc,
}

-- `@consts`, and `@.str.2`, which is empty
abbrev pub consts : Pointer
consts = record { block = 0; offset = 0 }

abbrev pub empty_string : Pointer
empty_string = record { block = 1; offset = 0 }

-- `fputs` to `stderr`, and `exit(120)`
abbrev pub runtime_failure : {A : Type 0} → String → Code A
runtime_failure message m = exits 120 message

unfoldable pub tc_not : ℕ → Code ℕ
tc_not i = ret (if not (i == 0) then 0 else 1)

unfoldable pub tc_chr : ℕ → Code Pointer
tc_chr i =
    if sle 0 i
    then (if sle i 255
        then (do o ← double_nsw i; gep 1 consts o)
        else runtime_failure "chr: character out of range\n")
    else runtime_failure "chr: character out of range\n"

-- The loops that copy bytes, in `tc_concat` twice and in `tc_substring`: `dst[at + i] =
-- src[first + i]` for `i` below `n`.
unfoldable pub copy_loop : ℕ → Pointer → Pointer → ℕ → ℕ → ℕ → ℕ → Code (Unit {0})
copy_loop zero src dst first at n i m = out_of_fuel
copy_loop (suc fuel) src dst first at n i m = elim (ltb i n) [
  | true ↦
      (do
        o ← add_nsw first i
        p ← gep 1 src o
        c ← load p
        q ← gep 1 dst ((at + i) % word)
        store q c
        j ← add_nsw i 1
        copy_loop fuel src dst first at n j)
        m
  | false ↦ returns tt m
]

-- One round of the loop of `main`.
unfoldable pub fill_loop : ℕ → ℕ → Code (Unit {0})
fill_loop zero i m = out_of_fuel
fill_loop (suc fuel) i m = elim (sle 512 i) [
  | false ↦
      (do
        p ← gep 1 consts i
        store p (i / 2 % 256)
        j ← add_nsw i 1
        q ← gep 1 consts j
        store q 0
        k ← add_nsw i 2
        fill_loop fuel k)
        m
  | true ↦ returns tt m
]

-- `main`, up to its call of `tc_main`
unfoldable pub fill_consts : Code (Unit {0})
fill_consts = fill_loop 257 0

-- `store i32`, in the order of the machine
unfoldable pub store_word : Pointer → ℕ → Code (Unit {0})
store_word p w = do
  store p (w % 256)
  store (record p { offset = p.offset + 1 }) (w / 256 % 256)
  store (record p { offset = p.offset + 2 }) (w / 65536 % 256)
  store (record p { offset = p.offset + 3 }) (w / 16777216 % 256)

unfoldable pub init_loop : ℕ → Pointer → ℕ → ℕ → ℕ → Code (Unit {0})
init_loop zero arr size elt i m = out_of_fuel
init_loop (suc fuel) arr size elt i m = elim (ltb i size) [
  | true ↦ (do p ← gep 4 arr i; store_word p elt; init_loop fuel arr size elt ((i + 1) % word)) m
  | false ↦ returns tt m
]

-- `return s[0];`
unfoldable pub first_char : Pointer → Code ℕ
first_char s = do p ← gep 1 s 0; c ← load p; ret (sext c)

module _ (libc : Libc) where
  unfoldable pub tc_init_array : ℕ → ℕ → Code Pointer
  tc_init_array size elt = do
    arr ← call_malloc libc (size * 4 % word)
    init_loop (suc size) arr size elt 0
    ret arr

  unfoldable pub concat_new : Pointer → Pointer → ℕ → ℕ → Code Pointer
  concat_new a b len_a len_b = do
    let n = (len_a + len_b) % word
    size ← add_nsw n 1
    t ← call_malloc libc size
    copy_loop (suc len_a) a t 0 0 len_a 0
    copy_loop (suc len_b) b t 0 len_a len_b 0
    q ← gep 1 t n
    store q 0
    ret t

  unfoldable pub tc_concat : Pointer → Pointer → Code Pointer
  tc_concat a b = do
    len_a ← call_strlen libc a
    len_b ← call_strlen libc b
    if len_a == 0 then ret b else if len_b == 0 then ret a else concat_new a b len_a len_b

  unfoldable pub tc_ord : Pointer → Code ℕ
  tc_ord s = do len ← call_strlen libc s; if len == 0 then ret (word - 1) else first_char s

  unfoldable pub tc_size : Pointer → Code ℕ
  tc_size s = call_strlen libc s

  -- the extraction, with the arguments in bounds
  unfoldable pub extract : Pointer → ℕ → ℕ → Code Pointer
  extract s first n =
      if n == 1
      then (do p ← gep 1 s first; c ← load p; o ← double_nsw (sext c); gep 1 consts o)
      else (do
        size ← add_nsw n 1
        t ← call_malloc libc size
        copy_loop (suc n) s t first 0 n 0
        q ← gep 1 t n
        store q 0
        ret t)

  -- the last test of `tc_substring`
  unfoldable pub extract_within : ℕ → Pointer → ℕ → ℕ → Code Pointer
  extract_within len s first n = do
    end ← add_nsw first n
    if ltb len end
        then runtime_failure "substring: arguments out of bounds\n"
        else extract s first n

  unfoldable pub tc_substring : Pointer → ℕ → ℕ → Code Pointer
  tc_substring s first n = do
    len ← call_strlen libc s
    if not (sle 0 first)
        then runtime_failure "substring: arguments out of bounds\n"
        else if not (sle 0 n)
        then runtime_failure "substring: arguments out of bounds\n"
        else extract_within len s first n

  unfoldable pub tc_strcmp : Pointer → Pointer → Code ℕ
  tc_strcmp lhs rhs m = returns (libc.strcmp m lhs rhs) m

  unfoldable pub tc_streq : Pointer → Pointer → Code ℕ
  tc_streq lhs rhs m = returns (if libc.strcmp m lhs rhs == 0 then 1 else 0) m

-- The argument is what `getc(stdin)` returned.
unfoldable pub tc_getchar : ℕ → Code Pointer
tc_getchar i = if i == word - 1 then ret empty_string else (do o ← double_nsw i; gep 1 consts o)
