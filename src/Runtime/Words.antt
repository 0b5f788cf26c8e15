-- ===== src/Runtime/Words.antt =====
-- src/llvmtranslate/runtime.cc: the words of an array in memory.
use tiger_compilor.Prelude.{
  ℕ, ◌+◌, ◌/◌, ◌%◌, ◌≤◌, ◌≡◌, ◌≢◌, refl, sym, ap, ◌∙◌, [], ◌∷◌, ◌++◌, length, arith, append_assoc,
}
use tiger_compilor.Prelude.Bytes.{Bytes}
use tiger_compilor.Runtime.Machine.{
  Pointer, Memory, returns, undefined, ◌>>=◌, ◌>>◌, store, written,
}
use tiger_compilor.Runtime.Texts.{length-append, store-lem, written-lem, written_other}
use tiger_compilor.Runtime.{store_word}

-- the bytes of a word in memory
pub word_bytes : ℕ → Bytes
word_bytes w = w % 256 ∷ w / 256 % 256 ∷ w / 65536 % 256 ∷ w / 16777216 % 256 ∷ []

pub length-word : (w : ℕ) → length (word_bytes w) ≡ 4
unfolding word_bytes
length-word w = refl

pub outside-lem :
    (p : Pointer) (m : Memory) (c : ℕ)
    → length (m.bytes p.block) ≤ p.offset
    → store p c m ≡ undefined
unfolding store
outside-lem p m c h = ground arith

-- a store in the middle of an object
store_at :
    (p : Pointer) (m : Memory) (before after : Bytes) (b c : ℕ)
    → m.bytes p.block ≡ before ++ b ∷ after
    → length before ≡ p.offset
    → (store p c m ≡ returns tt (written m p c))
      × ((written m p c).bytes p.block ≡ (before ++ c ∷ []) ++ after)
store_at p m before after b c e l =
    let size = ap length e ∙ length-append before (b ∷ after) in
    (
      store-lem p m c (omega (arith, size)),
      written-lem p m before after b c e l ∙ sym (append_assoc before (c ∷ []) after),
    )

-- a store of a word in the middle of an object
pub store_word-lem :
    (p : Pointer) (m : Memory) (d rest : Bytes) (a b c e w : ℕ)
    → m.bytes p.block ≡ d ++ a ∷ b ∷ c ∷ e ∷ rest
    → length d ≡ p.offset
    → (m' : Memory) × (store_word p w m ≡ returns tt m')
      × (m'.bytes p.block ≡ (d ++ word_bytes w) ++ rest)
      × ((k : ℕ) → k ≢ p.block → m'.bytes k ≡ m.bytes k)
unfolding store_word word_bytes
store_word-lem p m d rest a b c e w at l =
    let p₁ : Pointer = record p { offset = p.offset + 1 } in
    let p₂ : Pointer = record p { offset = p.offset + 2 } in
    let p₃ : Pointer = record p { offset = p.offset + 3 } in
    let w₀ = w % 256 in
    let w₁ = w / 256 % 256 in
    let w₂ = w / 65536 % 256 in
    let w₃ = w / 16777216 % 256 in
    let d₁ = d ++ w₀ ∷ [] in
    let d₂ = d₁ ++ w₁ ∷ [] in
    let d₃ = d₂ ++ w₂ ∷ [] in
    let l₁ = length-append d (w₀ ∷ []) in
    let l₂ = length-append d₁ (w₁ ∷ []) in
    let l₃ = length-append d₂ (w₂ ∷ []) in
    let m₁ = written m p w₀ in
    let m₂ = written m₁ p₁ w₁ in
    let m₃ = written m₂ p₂ w₂ in
    let (run, at₁) = store_at p m d (b ∷ c ∷ e ∷ rest) a w₀ at l in
    let (run₁, at₂) = store_at p₁ m₁ d₁ (c ∷ e ∷ rest) b w₁ at₁ (omega arith) in
    let (run₂, at₃) = store_at p₂ m₂ d₂ (e ∷ rest) c w₂ at₂ (omega arith) in
    let (run₃, at₄) = store_at p₃ m₃ d₃ rest e w₃ at₃ (omega arith) in
    let joined : d₃ ++ w₃ ∷ [] ≡ d ++ word_bytes w = simp append_assoc in
    (
      written m₃ p₃ w₃,
      rw (store_word, ◌>>◌, ◌>>=◌, run, run₁, run₂, run₃) refl,
      at₄ ∙ ap (λ (k : Bytes). k ++ rest) joined,
      λ k h.
          written_other p₃ m₃ w₃ k h
          ∙ written_other p₂ m₂ w₂ k h
          ∙ written_other p₁ m₁ w₁ k h
          ∙ written_other p m w₀ k h,
    )
