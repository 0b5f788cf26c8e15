-- ===== src/Runtime/Chars.antt =====
-- src/llvmtranslate/runtime.cc: `main`, `tc_chr` and `tc_ord`.
use tiger_compilor.Prelude.{
  ℕ, zero, suc, ◌+◌, ◌-◌, ◌*◌, ◌≤◌, ◌<◌, ◌≡◌, ◌≢◌, refl, ap, ◌∙◌, true, false, inl, inr, ◌⊎◌, [],
  ◌∷◌, ◌++◌, length, ltb, ◌==◌, if◌then◌else◌, arith, Bool-cases,
}
use tiger_compilor.Prelude.Bytes.{Bytes}
use tiger_compilor.Runtime.Machine.{
  word, half, sle, sext, Pointer, Memory, returns, exits, ◌>>=◌, ◌>>◌, double_nsw, Libc,
}
use tiger_compilor.Runtime.Texts.{length-append, IsText, add_nsw-lem, gep-lem, load-lem}
use tiger_compilor.Runtime.Consts.{Ready, char_text, consts-IsText, gep-consts, fill_loop-lem}
use tiger_compilor.Runtime.{fill_consts, tc_chr, tc_ord, first_char}

-- What the code relies on of `strlen`: it counts the bytes of a text.
abbrev pub Measures : Libc → Type 0
Measures libc =
    (m : Memory) (p : Pointer) (s : Bytes)
    → IsText m p s
    → length s < word
    → libc.strlen m p ≡ length s

-- Before the program starts, the loop of `main` ends, with every step of it defined: the table of
-- characters is filled and no other object is changed.
pub fill_consts-Ready :
    (m : Memory)
    → length (m.bytes 0) ≡ 512
    → (m' : Memory) × (fill_consts m ≡ returns tt m')
      × Ready m'
      × ((b : ℕ) → b ≢ 0 → m'.bytes b ≡ m.bytes b)
unfolding fill_consts
fill_consts-Ready m h =
    let (m', run, table, others) =
      fill_loop-lem 256 257 0 0 m [] (m.bytes 0) (omega arith) refl (omega arith) refl h refl in
    (m', run, record { table = table }, others)

tc_chr-below :
    (i : ℕ) (m : Memory)
    → Ready m
    → i < 256
    → tc_chr i m ≡ returns (record { block = 0; offset = 2 * i }) m
unfolding tc_chr double_nsw
tc_chr-below i m r h =
    let first : sle 0 i ≡ true = ground arith in
    let second : sle i 255 ≡ true = ground arith in
    rw (tc_chr, first, second, ◌>>=◌, double_nsw, add_nsw-lem i i m (omega arith))
      (gep-consts m i r h)

-- The character of a word: the text of that character for one below 256, a runtime failure for all
-- others, the negative ones included.
pub tc_chr-Char :
    (i : ℕ) (m : Memory)
    → i < word
    → Ready m
    → ((i < 256)
        × (tc_chr i m ≡ returns (record { block = 0; offset = 2 * i }) m)
        × IsText m (record { block = 0; offset = 2 * i }) (char_text i))
      ⊎ ((256 ≤ i) × (tc_chr i m ≡ exits 120 "chr: character out of range\n"))
unfolding tc_chr double_nsw
tc_chr-Char i m h r = elim (Bool-cases (ltb i 256)) [
  | inl low ↦
      let below : i < 256 = ground arith in
      inl (below, tc_chr-below i m r below, consts-IsText m i r below)
  | inr high ↦
      let above : 256 ≤ i = ground arith in
      elim (Bool-cases (sle 0 i)) [
        | inl positive ↦
            let second : sle i 255 ≡ false = ground arith in
            inr (above, rw (tc_chr, positive, second) refl)
        | inr negative ↦ inr (above, rw (tc_chr, negative) refl)
      ]
]

-- `tc_ord`, by the bytes of the text
unfoldable pub ord : Bytes → ℕ
ord [] = word - 1
ord (c ∷ s) = sext c

pub tc_ord-lem :
    (libc : Libc) (m : Memory) (p : Pointer) (s : Bytes)
    → Measures libc
    → IsText m p s
    → length s < half
    → tc_ord libc p m ≡ returns (ord s) m
unfolding tc_ord first_char ord
tc_ord-lem libc m p [] f t h =
    let empty : libc.strlen m p ≡ 0 = f m p [] t (omega arith) in rw empty refl
tc_ord-lem libc m p (c ∷ s) f t h =
    let long : libc.strlen m p ≡ suc (length s) = f m p (c ∷ s) t (omega arith) in
    let place : length t.before ≡ p.offset = t.offset in
    let size : length (m.bytes p.block) ≡ length t.before + suc (length (s ++ 0 ∷ t.after)) =
      ap length t.contents ∙ length-append t.before (c ∷ (s ++ 0 ∷ t.after)) in
    let some_char : (suc (length s) == 0) ≡ false = ground arith in
    rw
      (
        long,
        some_char,
        first_char,
        ◌>>=◌,
        gep-lem 1 0 p m (omega arith) (omega (arith, size, place)),
        load-lem (record p { offset = p.offset + 1 * 0 }) m t.before (s ++ 0 ∷ t.after) c t.contents
            (omega (arith, place)),
      )
      refl

length-char_text : (i : ℕ) → length (char_text i) < half
unfolding char_text
length-char_text zero = omega arith
length-char_text (suc i) = omega arith

ord-char_text :
    (i : ℕ)
    → ord (char_text i) ≡ (if i == 0 then word - 1 else if ltb i 128 then i else word - 256 + i)
unfolding ord char_text
ord-char_text zero = refl
ord-char_text (suc i) = ground arith

-- After the loop of `main`, the code of the text of a character is that character from 1 to 127
-- only: it is less by 256 from 128 on, and -1 for the character 0, whose text is empty.
pub tc_ord-tc_chr :
    (libc : Libc) (i : ℕ) (m : Memory)
    → Measures libc
    → length (m.bytes 0) ≡ 512
    → i < 256
    → (m' : Memory) × ((fill_consts >> (tc_chr i >>= tc_ord libc)) m
        ≡ returns (if i == 0 then word - 1 else if ltb i 128 then i else word - 256 + i) m')
tc_ord-tc_chr libc i m f e h =
    let (m', run, r, others) = fill_consts-Ready m e in
    (
      m',
      rw (◌>>◌, ◌>>=◌, run, tc_chr-below i m' r h)
          (tc_ord-lem libc m' (record { block = 0; offset = 2 * i }) (char_text i) f
              (consts-IsText m' i r h) (length-char_text i)
            ∙ ap (λ (n : ℕ). returns n m') (ord-char_text i)),
    )
