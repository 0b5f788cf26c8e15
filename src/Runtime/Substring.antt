-- ===== src/Runtime/Substring.antt =====
-- src/llvmtranslate/runtime.cc: `tc_substring`, in bounds and out of them, and `tc_streq`.
use tiger_compilor.Prelude.{
  ℕ, zero, suc, ◌+◌, ◌*◌, ◌≤◌, ◌<◌, ◌≡◌, ◌≢◌, ◌⊎◌, inl, inr, refl, sym, ap, ◌∙◌, true, false, [],
  ◌∷◌, ◌++◌, length, ltb, ◌==◌, arith, append_assoc, Bool-cases,
}
use tiger_compilor.Prelude.Bytes.{Bytes}
use tiger_compilor.Runtime.Machine.{
  word, half, sle, sext, Pointer, Memory, returns, exits, undefined, ◌>>=◌, ◌>>◌, add_nsw,
  double_nsw, gep, store, Libc,
}
use tiger_compilor.Runtime.Texts.{
  length-append, Chars, IsText, Makes, add_nsw-lem, gep-lem, load-lem,
}
use tiger_compilor.Runtime.Copy.{copy_loop-Copied}
use tiger_compilor.Runtime.Consts.{Ready, char_text, consts-IsText, gep-consts}
use tiger_compilor.Runtime.Chars.{Measures}
use tiger_compilor.Runtime.Allocate.{
  Allocates, allocated-apart, split_at, ended-IsText, Allocates-Makes, Allocates-IsText,
}
use tiger_compilor.Runtime.{consts, copy_loop, extract, extract_within, tc_substring}

Chars-front : (s t : Bytes) → Chars (s ++ t) → Chars s
Chars-front [] t h = tt
Chars-front (c ∷ s) t h = (h.0, h.1, Chars-front s t h.2)

Chars-back : (s t : Bytes) → Chars (s ++ t) → Chars t
Chars-back [] t h = h
Chars-back (c ∷ s) t h = Chars-back s t h.2

-- the bytes of the middle of a text, copied to an object that is longer by one, and ended
middle-IsText :
    (m : Memory) (p q : Pointer) (u v w : Bytes)
    → IsText m p (u ++ (v ++ w))
    → length u + length v + 1 < half
    → length (m.bytes q.block) ≡ length v + 1
    → q.offset ≡ 0
    → p.block ≢ q.block
    → (m' : Memory) × ((copy_loop (suc (length v)) p q (length u) 0 (length v) 0
            >> (gep 1 q (length v) >>= λ e. store e 0 >> λ (m₂ : Memory). returns q m₂))
          m
        ≡ returns q m')
      × IsText m' q v
      × ((c : ℕ) → c ≢ q.block → m'.bytes c ≡ m.bytes c)
middle-IsText m p q u v w t small size start apart =
    let (ys, zs, e, l, l') = split_at (length v) (m.bytes q.block) 1 size in
    let contents : m.bytes p.block ≡ (t.before ++ u) ++ (v ++ (w ++ 0 ∷ t.after)) =
      t.contents
      ∙ ap (λ (k : Bytes). t.before ++ k)
          (append_assoc u (v ++ w) (0 ∷ t.after)
            ∙ ap (λ (k : Bytes). u ++ k) (append_assoc v w (0 ∷ t.after)))
      ∙ sym (append_assoc t.before u (v ++ (w ++ 0 ∷ t.after))) in
    let (m₂, run₂, c₂) =
      copy_loop-Copied v ys (suc (length v)) p q (length u) 0 (length v) 0 m (t.before ++ u)
        (w ++ 0 ∷ t.after) [] zs (omega arith)
        (record {
          rounds = omega arith;
          source_end = omega arith;
          target_end = omega arith;
          source = contents;
          source_at = omega (arith, length-append t.before u, t.offset);
          target = e;
          target_at = omega arith;
          room = l;
          apart = apart;
        }) in
    let (m₃, run₃, text, others) =
      ended-IsText m₂ q v zs (length v) refl c₂.target l' start (omega arith)
        (Chars-front v w (Chars-back u (v ++ w) t.chars)) in
    (m₃, rw (◌>>◌, ◌>>=◌, run₂) run₃, text, λ c new. others c new ∙ c₂.others c new)

module _ (libc : Libc) (m : Memory) (p : Pointer) (u w : Bytes) where
  -- the character at a place in a text, by its byte, as a place in the table
  char_at-lem :
      (c : ℕ)
      → IsText m p (u ++ (c ∷ w))
      → length u < half
      → extract libc p (length u) 1 m ≡ (double_nsw (sext c) >>= gep 1 consts) m
  unfolding extract
  char_at-lem c t small =
      let contents : m.bytes p.block ≡ (t.before ++ u) ++ (c ∷ (w ++ 0 ∷ t.after)) =
        t.contents
        ∙ ap (λ (k : Bytes). t.before ++ k) (append_assoc u (c ∷ w) (0 ∷ t.after))
        ∙ sym (append_assoc t.before u (c ∷ (w ++ 0 ∷ t.after))) in
      let size = ap length contents ∙ length-append (t.before ++ u) (c ∷ (w ++ 0 ∷ t.after)) in
      let place : length (t.before ++ u) ≡ p.offset + 1 * length u =
        omega (arith, length-append t.before u, t.offset) in
      rw
        (
          extract,
          ◌>>=◌,
          gep-lem 1 (length u) p m small (omega (arith, size, place)),
          load-lem (record p { offset = p.offset + 1 * length u }) m (t.before ++ u)
              (w ++ 0 ∷ t.after) c contents place,
        )
        refl

-- A text of one character is of one below 128.
abbrev pub Plain : Bytes → Type 0
Plain [] = Unit
Plain (c ∷ []) = c < 128
Plain (c ∷ d ∷ s) = Unit

-- in bounds, the function is its last part
in_bounds-lem :
    (libc : Libc) (m : Memory) (p : Pointer) (s : Bytes) (first n : ℕ)
    → Measures libc
    → IsText m p s
    → length s < half
    → first + n ≤ length s
    → tc_substring libc p first n m ≡ extract libc p first n m
unfolding tc_substring extract_within
in_bounds-lem libc m p s first n f t small h =
    let long : libc.strlen m p ≡ length s = f m p s t (omega arith) in
    let first_ok : sle 0 first ≡ true = ground arith in
    let n_ok : sle 0 n ≡ true = ground arith in
    let inside : ltb (length s) (first + n) ≡ false = ground arith in
    rw
      (
        tc_substring,
        ◌>>=◌,
        first_ok,
        n_ok,
        extract_within,
        ◌>>=◌,
        add_nsw-lem first n m (omega arith),
        long,
        inside,
      )
      refl

-- a part that is not of one character
part-Makes :
    (libc : Libc) (m : Memory) (p : Pointer) (u v w : Bytes)
    → Measures libc
    → IsText m p (u ++ (v ++ w))
    → length u + length v + length w + 1 < half
    → (length v == 1) ≡ false
    → Allocates libc (length v + 1) m
    → (r : Pointer) × (m' : Memory) × (tc_substring libc p (length u) (length v) m ≡ returns r m')
      × Makes m m' r v
unfolding extract
part-Makes libc m p u v w f t small more k =
    let total = length-append u (v ++ w) in
    let total' = length-append v w in
    let (m', run, text, others) =
      middle-IsText (libc.malloc (length v + 1) m).1 p (libc.malloc (length v + 1) m).0 u v w
        (Allocates-IsText k t) (omega arith) k.size k.start (allocated-apart t k) in
    (
      (libc.malloc (length v + 1) m).0,
      m',
      in_bounds-lem libc m p (u ++ (v ++ w)) (length u) (length v) f t
            (omega (arith, total, total')) (omega (arith, total, total'))
          ∙ rw (extract, more, ◌>>=◌, add_nsw-lem (length v) 1 m (omega arith)) run,
      Allocates-Makes k text others,
    )

-- The part of a text at a place in it is a pointer at which that part stands, and each object that
-- was in memory keeps its bytes. A part of one character is in the table, and the character is then
-- one below 128.
pub tc_substring-Makes :
    (libc : Libc) (m : Memory) (p : Pointer) (u v w : Bytes)
    → Measures libc
    → Ready m
    → IsText m p (u ++ (v ++ w))
    → length u + length v + length w + 1 < half
    → Plain v
    → Allocates libc (length v + 1) m
    → (r : Pointer) × (m' : Memory) × (tc_substring libc p (length u) (length v) m ≡ returns r m')
      × Makes m m' r v
unfolding extract double_nsw char_text
tc_substring-Makes libc m p u (zero ∷ []) w f r t small plain k =
    absurd (omega (arith, (Chars-back u (zero ∷ w) t.chars).0))
tc_substring-Makes libc m p u (suc c ∷ []) w f r t small plain k =
    let total = length-append u (suc c ∷ w) in
    let ascii : sext (suc c) ≡ suc c = ground arith in
    (
      record { block = 0; offset = 2 * suc c },
      m,
      in_bounds-lem libc m p (u ++ (suc c ∷ w)) (length u) 1 f t (omega (arith, total))
            (omega (arith, total))
          ∙ char_at-lem libc m p u w (suc c) t (omega arith)
          ∙ rw (ascii, ◌>>=◌, double_nsw, add_nsw-lem (suc c) (suc c) m (omega arith))
              (gep-consts m (suc c) r (omega arith)),
      record { text = consts-IsText m (suc c) r (omega arith); kept = λ b there. refl },
    )
tc_substring-Makes libc m p u [] w f r t small plain k =
    part-Makes libc m p u [] w f t small (ground arith) k
tc_substring-Makes libc m p u (c ∷ d ∷ v) w f r t small plain k =
    part-Makes libc m p u (c ∷ d ∷ v) w f t small (ground arith) k

-- Where an argument is negative, or the part ends after the text, the program ends by a runtime
-- failure, and nothing is read or allocated.
pub tc_substring-out_of_bounds :
    (libc : Libc) (m : Memory) (p : Pointer) (s : Bytes) (first n : ℕ)
    → Measures libc
    → IsText m p s
    → length s < half
    → first < word
    → n < word
    → (half ≤ first) ⊎ ((half ≤ n) ⊎ ((first + n < half) × (length s < first + n)))
    → tc_substring libc p first n m ≡ exits 120 "substring: arguments out of bounds\n"
unfolding tc_substring extract_within
tc_substring-out_of_bounds libc m p s first n f t small h k (inl negative) =
    let test : sle 0 first ≡ false = ground arith in rw (tc_substring, ◌>>=◌, test) refl
tc_substring-out_of_bounds libc m p s first n f t small h k (inr (inl negative)) =
    let test : sle 0 n ≡ false = ground arith in
    elim (Bool-cases (sle 0 first)) [
      | inl positive ↦ rw (tc_substring, ◌>>=◌, positive, test) refl
      | inr negative' ↦ rw (tc_substring, ◌>>=◌, negative') refl
    ]
tc_substring-out_of_bounds libc m p s first n f t small h k (inr (inr after)) =
    let long : libc.strlen m p ≡ length s = f m p s t (omega arith) in
    let (low, beyond) = after in
    let first_ok : sle 0 first ≡ true = ground arith in
    let n_ok : sle 0 n ≡ true = ground arith in
    let outside : ltb (length s) (first + n) ≡ true = ground arith in
    rw
      (
        tc_substring,
        ◌>>=◌,
        first_ok,
        n_ok,
        extract_within,
        ◌>>=◌,
        add_nsw-lem first n m (omega arith),
        long,
        outside,
      )
      refl

-- A part of one character from 128 on is undefined, although it is in bounds: the byte is negative
-- as a `char`, and the place in the table is before its start.
pub tc_substring-undefined :
    (libc : Libc) (m : Memory) (p : Pointer) (u w : Bytes) (c : ℕ)
    → Measures libc
    → IsText m p (u ++ (c ∷ w))
    → length u + length w + 1 < half
    → 128 ≤ c
    → tc_substring libc p (length u) 1 m ≡ undefined
unfolding extract double_nsw add_nsw gep
tc_substring-undefined libc m p u w c f t small high =
    let total = length-append u (c ∷ w) in
    let (positive, byte, _) = Chars-back u (c ∷ w) t.chars in
    in_bounds-lem libc m p (u ++ (c ∷ w)) (length u) 1 f t (omega (arith, total))
      (omega (arith, total))
    ∙ char_at-lem libc m p u w c t (omega arith)
    ∙ ground arith
