-- ===== src/Runtime/Texts.antt =====
-- src/llvmtranslate/runtime.cc: the texts that stand in memory, and single steps on them.
use tiger_compilor.Prelude.{
  ℕ, ◌+◌, ◌*◌, ◌≤◌, ◌<◌, ◌≡◌, ◌≢◌, refl, ap, [], ◌∷◌, ◌++◌, some, length, arith,
}
use tiger_compilor.Prelude.Bytes.{Bytes}
use tiger_compilor.Runtime.Machine.{
  half, Pointer, Memory, returns, get_elem?, set, add_nsw, gep, load, store, written,
}

pub length-append : (xs ys : Bytes) → length (xs ++ ys) ≡ length xs + length ys
length-append [] ys = omega arith
length-append (x ∷ xs) ys = omega (arith, length-append xs ys)

pub get_elem?-append : (xs ys : Bytes) (c : ℕ) → get_elem? (xs ++ c ∷ ys) (length xs) ≡ some c
get_elem?-append [] ys c = refl
get_elem?-append (x ∷ xs) ys c = get_elem?-append xs ys c

pub set-append : (xs ys : Bytes) (b c : ℕ) → set (xs ++ b ∷ ys) (length xs) c ≡ xs ++ c ∷ ys
set-append [] ys b c = refl
set-append (x ∷ xs) ys b c = ap (λ (t : Bytes). x ∷ t) (set-append xs ys b c)

-- The bytes of a text: none of them ends it.
abbrev pub Chars : Bytes → Type 0
Chars [] = Unit
Chars (c ∷ s) = (0 < c) × (c < 256) × Chars s

-- The text stands at the pointer, followed by the byte that ends it.
pub record IsText (m : Memory) (p : Pointer) (s : Bytes) : Type 0 where
  pub before : Bytes
  pub after : Bytes
  pub contents : m.bytes p.block ≡ before ++ (s ++ 0 ∷ after)
  pub offset : length before ≡ p.offset
  pub chars : Chars s

-- Every object that is there keeps its bytes.
abbrev pub Keeps : Memory → Memory → Type 0
Keeps m m' = (b : ℕ) → m.bytes b ≢ [] → m'.bytes b ≡ m.bytes b

-- In the memory after, the text stands at the pointer, and nothing that was there has changed.
pub record Makes (m m' : Memory) (p : Pointer) (s : Bytes) : Type 0 where
  pub text : IsText m' p s
  pub kept : Keeps m m'

pub add_nsw-lem : (a b : ℕ) (m : Memory) → a + b < half → add_nsw a b m ≡ returns (a + b) m
unfolding add_nsw
add_nsw-lem a b m h = ground arith

pub gep-lem :
    (size w : ℕ) (p : Pointer) (m : Memory)
    → w < half
    → p.offset + size * w ≤ length (m.bytes p.block)
    → gep size p w m ≡ returns (record p { offset = p.offset + size * w }) m
unfolding gep
gep-lem size w p m h k = ground arith

pub load-lem :
    (p : Pointer) (m : Memory) (before after : Bytes) (c : ℕ)
    → m.bytes p.block ≡ before ++ c ∷ after
    → length before ≡ p.offset
    → load p m ≡ returns c m
unfolding load
load-lem p m before after c e k = rw (e, ← k, get_elem?-append before after c) refl

pub store-lem :
    (p : Pointer) (m : Memory) (c : ℕ)
    → p.offset < length (m.bytes p.block)
    → store p c m ≡ returns tt (written m p c)
unfolding store
store-lem p m c h = ground arith

pub written-lem :
    (p : Pointer) (m : Memory) (before after : Bytes) (b c : ℕ)
    → m.bytes p.block ≡ before ++ b ∷ after
    → length before ≡ p.offset
    → (written m p c).bytes p.block ≡ before ++ c ∷ after
written-lem p m before after b c e k =
    ground (arith, ap (λ (t : Bytes). set t p.offset c) e, set-append before after b c)

pub written_other :
    (p : Pointer) (m : Memory) (c b : ℕ) → b ≢ p.block → (written m p c).bytes b ≡ m.bytes b
written_other p m c b h = ground arith
