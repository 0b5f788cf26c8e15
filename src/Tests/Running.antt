-- ===== src/Tests/Running.antt =====
-- The functions of the runtime on a small memory, with a concrete C library.
use tiger_compilor.Prelude.{
  ℕ, zero, suc, ◌*◌, ◌≤◌, ◌<◌, ◌≡◌, ◌⊎◌, inr, refl, ap, [], ◌∷◌, ◌++◌, length, ◌==◌, if◌then◌else◌,
  arith,
}
use tiger_compilor.Prelude.Bytes.{Bytes}
use tiger_compilor.Runtime.Machine.{Pointer, Memory, returns, exits, ◌>>=◌, ◌>>◌, Libc}
use tiger_compilor.Runtime.Texts.{Chars, IsText, Makes, Keeps}
use tiger_compilor.Runtime.Consts.{table_from, Ready, char_text}
use tiger_compilor.Runtime.Chars.{Measures, tc_chr-Char, tc_ord-tc_chr}
use tiger_compilor.Runtime.Allocate.{Allocates}
use tiger_compilor.Runtime.Concat.{tc_concat-Makes}
use tiger_compilor.Runtime.Substring.{tc_substring-Makes, tc_substring-out_of_bounds}
use tiger_compilor.Runtime.Arrays.{words, tc_init_array-Fills}
use tiger_compilor.Runtime.{fill_consts, tc_chr, tc_ord, tc_concat, tc_substring, tc_init_array}

-- the bytes before the next 0, from a place on
scan : ℕ → Bytes → ℕ
scan k [] = 0
scan zero (c ∷ xs) = if c == 0 then 0 else suc (scan zero xs)
scan (suc k) (c ∷ xs) = scan k xs

abbrev blank : ℕ → Bytes
blank zero = []
blank (suc n) = 170 ∷ blank n

-- All is allocated in one place, which is free in the memory of the tests.
abbrev small_libc : Libc
small_libc = record {
  strlen = λ m p. scan p.offset (m.bytes p.block);
  strcmp = λ m p q. 0;
  malloc = λ n m. (
    record { block = 9; offset = 0 },
    record { bytes = λ b. if b == 9 then blank n else m.bytes b },
  );
}

scan-text : (s after : Bytes) → Chars s → scan 0 (s ++ 0 ∷ after) ≡ length s
unfolding scan
scan-text [] after h = refl
scan-text (c ∷ s) after h = ground (arith, scan-text s after h.2)

scan-before : (before s : Bytes) → scan (length before) (before ++ s) ≡ scan 0 s
unfolding scan
scan-before [] s = refl
scan-before (c ∷ before) s = scan-before before s

small_libc-Measures : Measures small_libc
small_libc-Measures m p s t h =
    rw (t.contents, ← t.offset, scan-before t.before (s ++ 0 ∷ t.after))
      (scan-text s t.after t.chars)

length-blank : (n : ℕ) → length (blank n) ≡ n
length-blank zero = refl
length-blank (suc n) = ap suc (length-blank n)

small_libc-Allocates : (n : ℕ) (m : Memory) → m.bytes 9 ≡ [] → Allocates small_libc n m
small_libc-Allocates n m e = record {
  start = refl;
  size = length-blank n;
  unused = e;
  others = λ b h. ground arith;
}

-- "ab" and "c" in two objects, after the table
abbrev two_texts : Memory
two_texts = record {
  bytes = λ b.
      if b == 0
      then table_from 0 256
      else if b == 2
      then b'a' ∷ b'b' ∷ 0 ∷ []
      else if b == 3
      then b'c' ∷ 0 ∷ []
      else [];
}

abbrev first_text : Pointer
first_text = record { block = 2; offset = 0 }

abbrev second_text : Pointer
second_text = record { block = 3; offset = 0 }

first_text-IsText : IsText two_texts first_text (b'a' ∷ b'b' ∷ [])
first_text-IsText = record {
  before = [];
  after = [];
  contents = refl;
  offset = refl;
  chars = omega arith;
}

second_text-IsText : IsText two_texts second_text (b'c' ∷ [])
second_text-IsText = record {
  before = [];
  after = [];
  contents = refl;
  offset = refl;
  chars = omega arith;
}

two_texts-Ready : Ready two_texts
two_texts-Ready = record { table = refl }

tc_chr-Char_example :
    ((65 < 256)
      × (tc_chr 65 two_texts ≡ returns (record { block = 0; offset = 2 * 65 }) two_texts)
      × IsText two_texts (record { block = 0; offset = 2 * 65 }) (char_text 65))
    ⊎ ((256 ≤ 65) × (tc_chr 65 two_texts ≡ exits 120 "chr: character out of range\n"))
tc_chr-Char_example = tc_chr-Char 65 two_texts (omega arith) two_texts-Ready

tc_ord-tc_chr_example :
    (m' : Memory) × ((fill_consts >> (tc_chr 200 >>= tc_ord small_libc))
        (record { bytes = λ b. blank 512 })
      ≡ returns 4294967240 m')
tc_ord-tc_chr_example =
    tc_ord-tc_chr small_libc 200 (record { bytes = λ b. blank 512 }) small_libc-Measures
      (length-blank 512) (omega arith)

tc_concat-Makes_example :
    (r : Pointer) × (m' : Memory) × (tc_concat small_libc first_text second_text two_texts
      ≡ returns r m')
    × Makes two_texts m' r (b'a' ∷ b'b' ∷ b'c' ∷ [])
tc_concat-Makes_example =
    tc_concat-Makes small_libc two_texts first_text second_text (b'a' ∷ b'b' ∷ []) (b'c' ∷ [])
      small_libc-Measures first_text-IsText second_text-IsText (omega arith)
      (small_libc-Allocates 4 two_texts refl)

tc_substring-Makes_example :
    (r : Pointer) × (m' : Memory) × (tc_substring small_libc first_text 0 2 two_texts
      ≡ returns r m')
    × Makes two_texts m' r (b'a' ∷ b'b' ∷ [])
tc_substring-Makes_example =
    tc_substring-Makes small_libc two_texts first_text [] (b'a' ∷ b'b' ∷ []) [] small_libc-Measures
      two_texts-Ready first_text-IsText (omega arith) tt (small_libc-Allocates 3 two_texts refl)

tc_substring-out_of_bounds_example :
    tc_substring small_libc first_text 1 2 two_texts
    ≡ exits 120 "substring: arguments out of bounds\n"
tc_substring-out_of_bounds_example =
    tc_substring-out_of_bounds small_libc two_texts first_text (b'a' ∷ b'b' ∷ []) 1 2
      small_libc-Measures first_text-IsText (omega arith) (omega arith) (omega arith)
      (inr (inr (omega arith, omega arith)))

tc_init_array-Fills_example :
    (arr : Pointer) × (m' : Memory) × (tc_init_array small_libc 3 7 two_texts ≡ returns arr m')
    × (arr.offset ≡ 0)
    × (m'.bytes arr.block ≡ words 3 7)
    × Keeps two_texts m'
tc_init_array-Fills_example =
    tc_init_array-Fills small_libc 3 7 two_texts (omega arith)
      (small_libc-Allocates 12 two_texts refl)
