-- ===== src/Runtime/Allocate.antt =====
-- src/llvmtranslate/runtime.cc: the objects that it allocates for texts.
use tiger_compilor.Prelude.{
  ℕ, zero, suc, ◌+◌, ◌*◌, ◌<◌, ◌≡◌, ◌≢◌, refl, sym, ap, ◌∙◌, [], ◌∷◌, ◌++◌, length, arith,
}
use tiger_compilor.Prelude.Bytes.{Bytes}
use tiger_compilor.Runtime.Machine.{
  half, Pointer, Memory, returns, ◌>>=◌, ◌>>◌, gep, store, written, Libc,
}
use tiger_compilor.Runtime.Texts.{
  length-append, Chars, IsText, Makes, gep-lem, store-lem, written-lem, written_other,
}

-- What the code relies on of `malloc`, where it does not run out of memory: an object of that size
-- which was not there, with all others as they are.
pub record Allocates (libc : Libc) (n : ℕ) (m : Memory) : Type 0 where
  pub start : (libc.malloc n m).0.offset ≡ 0
  pub size : length ((libc.malloc n m).1.bytes (libc.malloc n m).0.block) ≡ n
  pub unused : m.bytes (libc.malloc n m).0.block ≡ []
  pub others : (b : ℕ) → b ≢ (libc.malloc n m).0.block → (libc.malloc n m).1.bytes b ≡ m.bytes b

pub IsText-there : {m : Memory} {p : Pointer} {s : Bytes} → IsText m p s → m.bytes p.block ≢ []
IsText-there {m} {p} {s} t e = absurd (
    omega (
      arith,
      ap length t.contents,
      ap length e,
      length-append t.before (s ++ 0 ∷ t.after),
      length-append s (0 ∷ t.after),
    ))

-- An object of a text is not one that is allocated then.
pub allocated-apart :
    {libc : Libc} {n : ℕ} {m : Memory} {p : Pointer} {s : Bytes}
    → IsText m p s
    → Allocates libc n m
    → p.block ≢ (libc.malloc n m).0.block
allocated-apart {libc} {n} {m} {p} t a e = IsText-there t (ap (λ (b : ℕ). m.bytes b) e ∙ a.unused)

pub split_at :
    (k : ℕ) (xs : Bytes) (l : ℕ)
    → length xs ≡ k + l
    → (ys : Bytes) × (zs : Bytes) × (xs ≡ ys ++ zs) × (length ys ≡ k) × (length zs ≡ l)
split_at zero xs l e = ([], xs, refl, refl, e ∙ omega arith)
split_at (suc k) [] l e = absurd (omega arith)
split_at (suc k) (x ∷ xs) l e =
    let (ys, zs, f, g, h) = split_at k xs l (omega arith) in
    (x ∷ ys, zs, ap (λ (t : Bytes). x ∷ t) f, omega arith, h)

pub Chars-append : (s t : Bytes) → Chars s → Chars t → Chars (s ++ t)
Chars-append [] t h k = k
Chars-append (c ∷ s) t h k = (h.0, h.1, Chars-append s t h.2 k)

-- After its bytes are there, an object of a text is ended.
pub ended-IsText :
    (m : Memory) (q : Pointer) (s zs : Bytes) (n : ℕ)
    → n ≡ length s
    → m.bytes q.block ≡ s ++ zs
    → length zs ≡ 1
    → q.offset ≡ 0
    → n < half
    → Chars s
    → (m' : Memory) × ((gep 1 q n >>= λ p. store p 0 >> λ (m₂ : Memory). returns q m₂) m
        ≡ returns q m')
      × IsText m' q s
      × ((b : ℕ) → b ≢ q.block → m'.bytes b ≡ m.bytes b)
ended-IsText m q s [] n f e l o h c = absurd (omega arith)
ended-IsText m q s (x ∷ y ∷ zs) n f e l o h c = absurd (omega arith)
ended-IsText m q s (x ∷ []) n f e l o h c =
    let size : length (m.bytes q.block) ≡ length s + 1 = ap length e ∙ length-append s (x ∷ []) in
    let p : Pointer = record q { offset = q.offset + 1 * n } in
    (
      written m p 0,
      rw (◌>>=◌, gep-lem 1 n q m h (omega arith), ◌>>◌, store-lem p m 0 (omega arith)) refl,
      record {
        before = [];
        after = [];
        contents = written-lem p m s [] x 0 e (omega arith);
        offset = sym o;
        chars = c;
      },
      written_other p m 0,
    )

-- What a function did in the memory after an allocation, it did without a change of what was there.
pub Allocates-Makes :
    {libc : Libc} {n : ℕ} {m m' : Memory} {s : Bytes}
    → Allocates libc n m
    → IsText m' (libc.malloc n m).0 s
    → ((c : ℕ) → c ≢ (libc.malloc n m).0.block → m'.bytes c ≡ (libc.malloc n m).1.bytes c)
    → Makes m m' (libc.malloc n m).0 s
Allocates-Makes {libc} {n} {m} a text others = record {
  text = text;
  kept = λ c there.
      let new : c ≢ (libc.malloc n m).0.block =
        λ e. there (ap (λ (k : ℕ). m.bytes k) e ∙ a.unused) in
      others c new ∙ a.others c new;
}

-- A text is where it was, after an allocation.
pub Allocates-IsText :
    {libc : Libc} {n : ℕ} {m : Memory} {p : Pointer} {s : Bytes}
    → Allocates libc n m
    → IsText m p s
    → IsText (libc.malloc n m).1 p s
Allocates-IsText {libc} {n} {m} {p} a t = record {
  before = t.before;
  after = t.after;
  contents = a.others p.block (allocated-apart t a) ∙ t.contents;
  offset = t.offset;
  chars = t.chars;
}
