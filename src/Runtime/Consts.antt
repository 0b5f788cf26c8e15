-- ===== src/Runtime/Consts.antt =====
-- src/llvmtranslate/runtime.cc: the table of the texts of one character, which `main` fills.
use tiger_compilor.Prelude.{
  ℕ, zero, suc, ◌+◌, ◌*◌, ◌/◌, ◌%◌, ◌<◌, ◌≡◌, ◌≢◌, refl, sym, ap, ◌∙◌, true, false, [], ◌∷◌, ◌++◌,
  length, arith, append_assoc,
}
use tiger_compilor.Prelude.Bytes.{Bytes}
use tiger_compilor.Runtime.Machine.{sle, Pointer, Memory, returns, ◌>>=◌, gep, written}
use tiger_compilor.Runtime.Texts.{
  length-append, IsText, add_nsw-lem, gep-lem, store-lem, written-lem, written_other,
}
use tiger_compilor.Runtime.{consts, fill_loop}

-- Each character, followed by the byte that ends its text.
unfoldable pub table_from : ℕ → ℕ → Bytes
table_from k zero = []
table_from k (suc r) = k ∷ 0 ∷ table_from (k + 1) r

pub record Ready (m : Memory) : Type 0 where
  pub table : m.bytes 0 ≡ table_from 0 256

table_from-split :
    (i k r : ℕ)
    → i < r
    → (pre : Bytes) × (post : Bytes) × (table_from k r ≡ pre ++ (k + i) ∷ 0 ∷ post)
      × (length pre ≡ 2 * i)
unfolding table_from
table_from-split i k zero h = absurd (omega arith)
table_from-split zero k (suc r) h =
    ([], table_from (k + 1) r, ap (λ (n : ℕ). n ∷ 0 ∷ table_from (k + 1) r) (omega arith), refl)
table_from-split (suc i) k (suc r) h =
    let (pre, post, e, l) = table_from-split i (k + 1) r (omega arith) in
    let index : k + 1 + i ≡ k + suc i = omega arith in
    (
      k ∷ 0 ∷ pre,
      post,
      ap (λ (t : Bytes). k ∷ 0 ∷ t) e ∙ ap (λ (n : ℕ). k ∷ 0 ∷ (pre ++ n ∷ 0 ∷ post)) index,
      omega arith,
    )

-- the text of a character
unfoldable pub char_text : ℕ → Bytes
char_text zero = []
char_text (suc c) = suc c ∷ []

pub consts-IsText :
    (m : Memory) (c : ℕ)
    → Ready m
    → c < 256
    → IsText m (record { block = 0; offset = 2 * c }) (char_text c)
unfolding char_text
consts-IsText m zero r h =
    let (pre, post, e, l) = table_from-split 0 0 256 h in
    record { before = pre; after = 0 ∷ post; contents = r.table ∙ e; offset = l; chars = tt }
consts-IsText m (suc c) r h =
    let (pre, post, e, l) = table_from-split (suc c) 0 256 h in
    let index : 0 + suc c ≡ suc c = omega arith in
    record {
      before = pre;
      after = post;
      contents = r.table ∙ e ∙ ap (λ (n : ℕ). pre ++ n ∷ 0 ∷ post) index;
      offset = l;
      chars = (omega arith, h, tt);
    }

pub length-table_from : (k r : ℕ) → length (table_from k r) ≡ 2 * r
unfolding table_from
length-table_from k zero = refl
length-table_from k (suc r) = omega (arith, length-table_from (k + 1) r)

-- the place of a character in the table
pub gep-consts :
    (m : Memory) (c : ℕ)
    → Ready m
    → c < 256
    → gep 1 consts (c + c) m ≡ returns (record { block = 0; offset = 2 * c }) m
gep-consts m c r h =
    gep-lem 1 (c + c) consts m (omega arith)
      (omega (arith, ap length r.table, length-table_from 0 256))
    ∙ ap (λ (n : ℕ). returns (record consts { offset = n }) m) (omega arith)

pub fill_loop-lem :
    (r fuel i k : ℕ) (m : Memory) (d zs : Bytes)
    → r < fuel
    → i ≡ 2 * k
    → k + r ≡ 256
    → length d ≡ i
    → length zs ≡ 2 * r
    → m.bytes 0 ≡ d ++ zs
    → (m' : Memory) × (fill_loop fuel i m ≡ returns tt m')
      × (m'.bytes 0 ≡ d ++ table_from k r)
      × ((b : ℕ) → b ≢ 0 → m'.bytes b ≡ m.bytes b)
unfolding fill_loop table_from
fill_loop-lem r zero i k m d zs f e s l z t = absurd (omega arith)
fill_loop-lem zero (suc fuel) i k m d [] f e s l z t =
    let done : sle 512 i ≡ true = ground arith in (m, rw (fill_loop, done) refl, t, λ b h. refl)
fill_loop-lem zero (suc fuel) i k m d (x ∷ zs) f e s l z t = absurd (omega arith)
fill_loop-lem (suc r) (suc fuel) i k m d [] f e s l z t = absurd (omega arith)
fill_loop-lem (suc r) (suc fuel) i k m d (x ∷ []) f e s l z t = absurd (omega arith)
fill_loop-lem (suc r) (suc fuel) i k m d (x ∷ y ∷ zs) f e s l z t =
    let more : sle 512 i ≡ false = ground arith in
    let size : length (m.bytes 0) ≡ length d + suc (suc (length zs)) =
      ap length t ∙ length-append d (x ∷ y ∷ zs) in
    let p : Pointer = record consts { offset = 0 + 1 * i } in
    let q : Pointer = record consts { offset = 0 + 1 * (i + 1) } in
    let c : i / 2 % 256 ≡ k = omega arith in
    let m₁ = written m p (i / 2 % 256) in
    let at₁ : m₁.bytes 0 ≡ d ++ k ∷ y ∷ zs =
      written-lem p m d (y ∷ zs) x (i / 2 % 256) t (omega arith)
      ∙ ap (λ (n : ℕ). d ++ n ∷ y ∷ zs) c in
    let at₁' : m₁.bytes 0 ≡ (d ++ k ∷ []) ++ y ∷ zs =
      at₁ ∙ sym (append_assoc d (k ∷ []) (y ∷ zs)) in
    let size₁ : length (m₁.bytes 0) ≡ length d + suc (suc (length zs)) =
      ap length at₁ ∙ length-append d (k ∷ y ∷ zs) in
    let m₂ = written m₁ q 0 in
    let at₂ : m₂.bytes 0 ≡ (d ++ k ∷ []) ++ 0 ∷ zs =
      written-lem q m₁ (d ++ k ∷ []) zs y 0 at₁' (omega (arith, length-append d (k ∷ []))) in
    let at₂' : m₂.bytes 0 ≡ (d ++ k ∷ 0 ∷ []) ++ zs =
      at₂ ∙ append_assoc d (k ∷ []) (0 ∷ zs) ∙ sym (append_assoc d (k ∷ 0 ∷ []) zs) in
    let (m', run, table, others) =
      fill_loop-lem r fuel (i + 2) (k + 1) m₂ (d ++ k ∷ 0 ∷ []) zs (omega arith) (omega arith)
        (omega arith) (omega (arith, length-append d (k ∷ 0 ∷ []))) (omega arith) at₂' in
    (
      m',
      rw
          (
            fill_loop,
            more,
            ◌>>=◌,
            gep-lem 1 i consts m (omega arith) (omega (arith, size)),
            store-lem p m (i / 2 % 256) (omega (arith, size)),
            add_nsw-lem i 1 m₁ (omega arith),
            gep-lem 1 (i + 1) consts m₁ (omega arith) (omega (arith, size₁)),
            store-lem q m₁ 0 (omega (arith, size₁)),
            add_nsw-lem i 2 m₂ (omega arith),
          )
          run,
      table ∙ append_assoc d (k ∷ 0 ∷ []) (table_from (k + 1) r),
      λ b h. others b h ∙ written_other q m₁ 0 b h ∙ written_other p m (i / 2 % 256) b h,
    )
