-- ===== src/Runtime/Concat.antt =====
-- src/llvmtranslate/runtime.cc: `tc_concat`.
use tiger_compilor.Prelude.{
  ℕ, suc, ◌+◌, ◌%◌, ◌<◌, ◌≡◌, ◌≢◌, refl, sym, ap, subst, ◌∙◌, false, [], ◌∷◌, ◌++◌, length, ◌==◌,
  arith, append_assoc, append-nil,
}
use tiger_compilor.Prelude.Bytes.{Bytes}
use tiger_compilor.Runtime.Machine.{
  word, half, Pointer, Memory, returns, ◌>>=◌, ◌>>◌, gep, store, Libc,
}
use tiger_compilor.Runtime.Texts.{length-append, IsText, Makes, add_nsw-lem}
use tiger_compilor.Runtime.Allocate.{
  Allocates, allocated-apart, split_at, Chars-append, ended-IsText, Allocates-Makes,
  Allocates-IsText,
}
use tiger_compilor.Runtime.Copy.{copy_loop-Copied}
use tiger_compilor.Runtime.Chars.{Measures}
use tiger_compilor.Runtime.{copy_loop, concat_new, tc_concat}

-- The bytes of two texts, copied to an object that is as long as both, and ended.
joined-IsText :
    (m : Memory) (a b q : Pointer) (s t : Bytes) (n : ℕ)
    → IsText m a s
    → IsText m b t
    → n ≡ length s + length t
    → n + 1 < half
    → length (m.bytes q.block) ≡ n + 1
    → q.offset ≡ 0
    → a.block ≢ q.block
    → b.block ≢ q.block
    → (m' : Memory) × ((copy_loop (suc (length s)) a q 0 0 (length s) 0
            >> (copy_loop (suc (length t)) b q 0 (length s) (length t) 0
                >> (gep 1 q n >>= λ p. store p 0 >> λ (m₂ : Memory). returns q m₂)))
          m
        ≡ returns q m')
      × IsText m' q (s ++ t)
      × ((c : ℕ) → c ≢ q.block → m'.bytes c ≡ m.bytes c)
joined-IsText m a b q s t n ta tb sum small size start apart_a apart_b =
    let (ys, rest, e₁, l₁, l₂) =
      split_at (length s) (m.bytes q.block) (length t + 1) (omega arith) in
    let (ys₂, zs, e₂, l₃, l₄) = split_at (length t) rest 1 l₂ in
    let (m₂, run₂, c₂) =
      copy_loop-Copied s ys (suc (length s)) a q 0 0 (length s) 0 m ta.before (0 ∷ ta.after) [] rest
        (omega arith)
        (record {
          rounds = omega arith;
          source_end = omega arith;
          target_end = omega arith;
          source = ta.contents;
          source_at = ta.offset ∙ omega arith;
          target = e₁;
          target_at = omega arith;
          room = l₁;
          apart = apart_a;
        }) in
    let (m₃, run₃, c₃) =
      copy_loop-Copied t ys₂ (suc (length t)) b q 0 (length s) (length t) 0 m₂ tb.before
        (0 ∷ tb.after) s zs (omega arith)
        (record {
          rounds = omega arith;
          source_end = omega arith;
          target_end = omega arith;
          source = c₂.others b.block apart_b ∙ tb.contents;
          source_at = tb.offset ∙ omega arith;
          target = c₂.target ∙ ap (λ (u : Bytes). s ++ u) e₂;
          target_at = omega arith;
          room = l₃;
          apart = apart_b;
        }) in
    let (m₄, run₄, text, others) =
      ended-IsText m₃ q (s ++ t) zs n (sum ∙ sym (length-append s t))
        (c₃.target ∙ sym (append_assoc s t zs)) l₄ start (omega arith)
        (Chars-append s t ta.chars tb.chars) in
    (
      m₄,
      rw (◌>>◌, ◌>>=◌, run₂, run₃) run₄,
      text,
      λ c new. others c new ∙ c₃.others c new ∙ c₂.others c new,
    )

concat_new-Makes :
    (libc : Libc) (m : Memory) (a b : Pointer) (s t : Bytes)
    → IsText m a s
    → IsText m b t
    → length s + length t + 1 < half
    → Allocates libc (length s + length t + 1) m
    → (r : Pointer) × (m' : Memory) × (concat_new libc a b (length s) (length t) m ≡ returns r m')
      × Makes m m' r (s ++ t)
unfolding concat_new
concat_new-Makes libc m a b s t ta tb h k =
    let n = (length s + length t) % word in
    let sum : n ≡ length s + length t = omega arith in
    let k' = subst (λ (z : ℕ). Allocates libc (z + 1) m) (sym sum) k in
    let (m', run, text, others) =
      joined-IsText (libc.malloc (n + 1) m).1 a b (libc.malloc (n + 1) m).0 s t n
        (Allocates-IsText k' ta) (Allocates-IsText k' tb) sum (omega arith) k'.size k'.start
        (allocated-apart ta k') (allocated-apart tb k') in
    (
      (libc.malloc (n + 1) m).0,
      m',
      rw (concat_new, ◌>>=◌, add_nsw-lem n 1 m (omega arith)) run,
      Allocates-Makes k' text others,
    )

-- The concatenation of two texts, also of empty ones, is a pointer at which the two stand one after
-- the other; each object that was in memory keeps its bytes, those of the two texts with them.
pub tc_concat-Makes :
    (libc : Libc) (m : Memory) (a b : Pointer) (s t : Bytes)
    → Measures libc
    → IsText m a s
    → IsText m b t
    → length s + length t + 1 < half
    → Allocates libc (length s + length t + 1) m
    → (r : Pointer) × (m' : Memory) × (tc_concat libc a b m ≡ returns r m') × Makes m m' r (s ++ t)
unfolding tc_concat
tc_concat-Makes libc m a b [] t f ta tb h k =
    let empty : libc.strlen m a ≡ 0 = f m a [] ta (omega arith) in
    (b, m, rw (empty, ◌>>=◌) refl, record { text = tb; kept = λ c there. refl })
tc_concat-Makes libc m a b (c ∷ s) [] f ta tb h k =
    let long : libc.strlen m a ≡ suc (length s) = f m a (c ∷ s) ta (omega arith) in
    let some_char : (suc (length s) == 0) ≡ false = ground arith in
    let empty : libc.strlen m b ≡ 0 = f m b [] tb (omega arith) in
    (
      a,
      m,
      rw (long, ◌>>=◌, empty, some_char) refl,
      record { text = rw append-nil ta; kept = λ d there. refl },
    )
tc_concat-Makes libc m a b (c ∷ s) (d ∷ t) f ta tb h k =
    let long : libc.strlen m a ≡ suc (length s) = f m a (c ∷ s) ta (omega arith) in
    let long' : libc.strlen m b ≡ suc (length t) = f m b (d ∷ t) tb (omega arith) in
    let some_char : (suc (length s) == 0) ≡ false = ground arith in
    let some_char' : (suc (length t) == 0) ≡ false = ground arith in
    let (r, m', run, makes) = concat_new-Makes libc m a b (c ∷ s) (d ∷ t) ta tb h k in
    (r, m', rw (long, ◌>>=◌, long', some_char, some_char') run, makes)
