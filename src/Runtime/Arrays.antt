-- ===== src/Runtime/Arrays.antt =====
-- src/llvmtranslate/runtime.cc: `tc_init_array`, for sizes that fit in memory and for those that wrap.
use tiger_compilor.Prelude.{
  ℕ, zero, suc, ◌+◌, ◌*◌, ◌/◌, ◌%◌, ◌≤◌, ◌<◌, ◌≡◌, ◌≢◌, refl, sym, ap, subst, ◌∙◌, true, false, [],
  ◌∷◌, ◌++◌, length, ltb, arith, append_assoc,
}
use tiger_compilor.Prelude.Bytes.{Bytes}
use tiger_compilor.Runtime.Machine.{
  word, half, Pointer, Memory, returns, undefined, ◌>>=◌, ◌>>◌, store, Libc,
}
use tiger_compilor.Runtime.Texts.{length-append, Keeps, gep-lem}
use tiger_compilor.Runtime.Words.{word_bytes, length-word, outside-lem, store_word-lem}
use tiger_compilor.Runtime.Allocate.{Allocates}
use tiger_compilor.Runtime.{store_word, init_loop, tc_init_array}

pub words : ℕ → ℕ → Bytes
words zero w = []
words (suc n) w = word_bytes w ++ words n w

-- one round of the loop, with room for a word
round-lem :
    (fuel : ℕ) (arr : Pointer) (size elt i : ℕ) (m : Memory) (d rest : Bytes) (a b c e : ℕ)
    → m.bytes arr.block ≡ d ++ a ∷ b ∷ c ∷ e ∷ rest
    → arr.offset ≡ 0
    → length d ≡ 4 * i
    → i < half
    → i < size
    → (m' : Memory) × (init_loop (suc fuel) arr size elt i m
        ≡ init_loop fuel arr size elt (i + 1) m')
      × (m'.bytes arr.block ≡ (d ++ word_bytes elt) ++ rest)
      × ((k : ℕ) → k ≢ arr.block → m'.bytes k ≡ m.bytes k)
unfolding init_loop
round-lem fuel arr size elt i m d rest a b c e at start l small more =
    let test : ltb i size ≡ true = ground arith in
    let length_m = ap length at ∙ length-append d (a ∷ b ∷ c ∷ e ∷ rest) in
    let p : Pointer = record arr { offset = arr.offset + 4 * i } in
    let next : (i + 1) % word ≡ i + 1 = omega arith in
    let (m', run, after, others) = store_word-lem p m d rest a b c e elt at (omega arith) in
    (
      m',
      rw
          (
            init_loop,
            test,
            ◌>>=◌,
            gep-lem 4 i arr m small (omega (arith, length_m)),
            ◌>>◌,
            ◌>>=◌,
            run,
            next,
          )
          refl,
      after,
      others,
    )

four-lem :
    (xs : Bytes) (r : ℕ)
    → length xs ≡ 4 * suc r
    → (a : ℕ) × (b : ℕ) × (c : ℕ) × (e : ℕ) × (rest : Bytes) × (xs ≡ a ∷ b ∷ c ∷ e ∷ rest)
      × (length rest ≡ 4 * r)
four-lem [] r h = absurd (omega arith)
four-lem (a ∷ []) r h = absurd (omega arith)
four-lem (a ∷ b ∷ []) r h = absurd (omega arith)
four-lem (a ∷ b ∷ c ∷ []) r h = absurd (omega arith)
four-lem (a ∷ b ∷ c ∷ e ∷ rest) r h = (a, b, c, e, rest, refl, omega arith)

-- There is room for the `r` words that are left.
filled-lem :
    (r fuel : ℕ) (arr : Pointer) (size elt i : ℕ) (m : Memory) (d old : Bytes)
    → r < fuel
    → i + r ≡ size
    → size < half
    → m.bytes arr.block ≡ d ++ old
    → arr.offset ≡ 0
    → length d ≡ 4 * i
    → length old ≡ 4 * r
    → (m' : Memory) × (init_loop fuel arr size elt i m ≡ returns tt m')
      × (m'.bytes arr.block ≡ d ++ words r elt)
      × ((k : ℕ) → k ≢ arr.block → m'.bytes k ≡ m.bytes k)
unfolding init_loop words
filled-lem r zero arr size elt i m d old f s h at start l l' = absurd (omega arith)
filled-lem zero (suc fuel) arr size elt i m d [] f s h at start l l' =
    let test : ltb i size ≡ false = ground arith in (m, rw (init_loop, test) refl, at, λ k n. refl)
filled-lem zero (suc fuel) arr size elt i m d (x ∷ old) f s h at start l l' = absurd (omega arith)
filled-lem (suc r) (suc fuel) arr size elt i m d old f s h at start l l' =
    let (a, b, c, e, rest, shape, l₁) = four-lem old r l' in
    let (m₁, run, at₁, others) =
      round-lem fuel arr size elt i m d rest a b c e (at ∙ ap (λ (t : Bytes). d ++ t) shape) start l
        (omega arith) (omega arith) in
    let (m₂, run₂, at₂, others₂) =
      filled-lem r fuel arr size elt (i + 1) m₁ (d ++ word_bytes elt) rest (omega arith)
        (omega arith) h at₁ start
        (length-append d (word_bytes elt) ∙ omega (arith, length-word elt)) l₁ in
    (
      m₂,
      run ∙ run₂,
      at₂ ∙ append_assoc d (word_bytes elt) (words r elt),
      λ k n. others₂ k n ∙ others k n,
    )

-- There is room for `r` words only, and more are left.
overflow-lem :
    (r fuel : ℕ) (arr : Pointer) (size elt i : ℕ) (m : Memory) (d old : Bytes)
    → r < fuel
    → i + r < size
    → i + r < half
    → m.bytes arr.block ≡ d ++ old
    → arr.offset ≡ 0
    → length d ≡ 4 * i
    → length old ≡ 4 * r
    → init_loop fuel arr size elt i m ≡ undefined
unfolding init_loop store_word
overflow-lem r zero arr size elt i m d old f s h at start l l' = absurd (omega arith)
overflow-lem zero (suc fuel) arr size elt i m d old f s h at start l l' =
    let test : ltb i size ≡ true = ground arith in
    let full = ap length at ∙ length-append d old in
    let end : Pointer = record arr { offset = arr.offset + 4 * i } in
    let beyond : store end (elt % 256) m ≡ undefined =
      outside-lem end m (elt % 256) (omega (arith, full)) in
    rw
      (
        init_loop,
        test,
        ◌>>=◌,
        gep-lem 4 i arr m (omega arith) (omega (arith, full)),
        ◌>>◌,
        ◌>>=◌,
        store_word,
        ◌>>◌,
        ◌>>=◌,
        beyond,
      )
      refl
overflow-lem (suc r) (suc fuel) arr size elt i m d old f s h at start l l' =
    let (a, b, c, e, rest, shape, l₁) = four-lem old r l' in
    let (m₁, run, at₁, others) =
      round-lem fuel arr size elt i m d rest a b c e (at ∙ ap (λ (t : Bytes). d ++ t) shape) start l
        (omega arith) (omega arith) in
    run
    ∙ overflow-lem r fuel arr size elt (i + 1) m₁ (d ++ word_bytes elt) rest (omega arith)
        (omega arith) (omega arith) at₁ start
        (length-append d (word_bytes elt) ∙ omega (arith, length-word elt)) l₁

-- An array of less than 2^30 words: the loop ends, with every step of it defined, the object holds
-- the element so many times and nothing else, and each object that was in memory keeps its bytes.
pub tc_init_array-Fills :
    (libc : Libc) (size elt : ℕ) (m : Memory)
    → size < 1073741824
    → Allocates libc (size * 4) m
    → (arr : Pointer) × (m' : Memory) × (tc_init_array libc size elt m ≡ returns arr m')
      × (arr.offset ≡ 0)
      × (m'.bytes arr.block ≡ words size elt)
      × Keeps m m'
unfolding tc_init_array
tc_init_array-Fills libc size elt m h k =
    let whole : size * 4 % word ≡ size * 4 = omega arith in
    let k' = subst (λ (z : ℕ). Allocates libc z m) (sym whole) k in
    let arr = (libc.malloc (size * 4 % word) m).0 in
    let m₁ = (libc.malloc (size * 4 % word) m).1 in
    let (m₂, run, at, others) =
      filled-lem size (suc size) arr size elt 0 m₁ [] (m₁.bytes arr.block) (omega arith)
        (omega arith) (omega arith) refl k'.start refl (k'.size ∙ omega arith) in
    (
      arr,
      m₂,
      rw (tc_init_array, ◌>>=◌, ◌>>◌, ◌>>=◌, run) refl,
      k'.start,
      at,
      λ c there.
          let new : c ≢ arr.block = λ e. there (ap (λ (b : ℕ). m.bytes b) e ∙ k'.unused) in
          others c new ∙ k'.others c new,
    )

-- From 2^30 words on, and so for a negative size, the number of bytes wraps: the object is too
-- small, and the loop writes past its end.
pub tc_init_array-overflows :
    (libc : Libc) (size elt : ℕ) (m : Memory)
    → 1073741824 ≤ size
    → size < word
    → Allocates libc (size * 4 % word) m
    → tc_init_array libc size elt m ≡ undefined
unfolding tc_init_array
tc_init_array-overflows libc size elt m large h k =
    let arr = (libc.malloc (size * 4 % word) m).0 in
    let m₁ = (libc.malloc (size * 4 % word) m).1 in
    let run =
      overflow-lem (size * 4 % word / 4) (suc size) arr size elt 0 m₁ [] (m₁.bytes arr.block)
        (omega arith) (omega arith) (omega arith) refl k.start refl (k.size ∙ omega arith) in
    rw (tc_init_array, ◌>>=◌, ◌>>◌, ◌>>=◌, run) refl
