-- ===== src/Parse/Escapes.antt =====
-- lib/misc/escape.cc and src/parse/scantiger.ll: what is escaped is read back.
use tiger_compilor.Prelude.{
  ℕ, zero, suc, ◌+◌, ◌-◌, ◌*◌, ◌/◌, ◌%◌, ◌<◌, ◌≡◌, refl, ap, subst, ◌∙◌, Bool, true, false, ◌&&◌,
  none, some, [], ◌∷◌, ◌++◌, append_assoc, length, if◌then◌else◌, ◌==◌, ◌>>=◌, Bool-cases, inl, inr,
  arith,
}
use tiger_compilor.Misc.Escape.{Bytes, backslash, quote, isprint, octal, escape_char, escape}
use tiger_compilor.Parse.Strings.{reveal, read, octa, two_digits, between}

-- The escape of a byte is read as this byte.
abbrev ReadsBack : ℕ → Type 0
ReadsBack c =
    (fuel : ℕ) (s : Bytes)
    → read (suc fuel) (escape_char c ++ s) ≡ (read fuel s >>= λ t. some (c ∷ t.0, t.1))

named-ReadsBack :
    ReadsBack 7
    × ReadsBack 8
    × ReadsBack 12
    × ReadsBack 10
    × ReadsBack 13
    × ReadsBack 9
    × ReadsBack 11
    × ReadsBack 92
    × ReadsBack 34
unfolding read reveal escape_char
named-ReadsBack = (
  λ fuel s. refl,
  λ fuel s. refl,
  λ fuel s. refl,
  λ fuel s. refl,
  λ fuel s. refl,
  λ fuel s. refl,
  λ fuel s. refl,
  λ fuel s. refl,
  λ fuel s. refl,
)

octa-octal : (c : ℕ) → c < 256 → (s : Bytes) → octa (octal c ++ s) ≡ some (c, s)
octa-octal c h s =
    let a : between 48 (48 + c / 64) 51 ≡ true = ground arith in
    let b : (between 48 (48 + c / 8 % 8) 55 && between 48 (48 + c % 8) 55) ≡ true = ground arith in
    let v : ((48 + c / 64) - 48) * 64 + ((48 + c / 8 % 8) - 48) * 8 + ((48 + c % 8) - 48) ≡ c =
      omega arith in
    ap (λ z. if z then two_digits (48 + c / 64) ((48 + c / 8 % 8) ∷ (48 + c % 8) ∷ s) else none) a
    ∙ ap
        (λ z.
          if z
          then some ((48 + c / 64 - 48) * 64 + (48 + c / 8 % 8 - 48) * 8 + (48 + c % 8 - 48), s)
          else none)
        b
    ∙ ap (λ z. some (z, s)) v

octal-ReadsBack :
    (c : ℕ)
    → c < 256
    → (fuel : ℕ) (s : Bytes)
    → read (suc fuel) (backslash ∷ octal c ++ s) ≡ (read fuel s >>= λ t. some (c ∷ t.0, t.1))
unfolding read reveal
octal-ReadsBack c h fuel s = rw (octa-octal c h s, read, reveal) refl

plain-ReadsBack :
    (c : ℕ)
    → (c == backslash) ≡ false
    → (c == quote) ≡ false
    → (fuel : ℕ) (s : Bytes) → read (suc fuel) (c ∷ s) ≡ (read fuel s >>= λ t. some (c ∷ t.0, t.1))
unfolding read
plain-ReadsBack c p q fuel s = rw (q, p, read) refl

-- a byte is the code `k`, or it is not
unless : (R : ℕ → Type 0) (c k : ℕ) → R k → ((c == k) ≡ false → R c) → R c
unless R c k r other = elim (Bool-cases (c == k)) [
  | inl e ↦ let same : k ≡ c = ground arith in subst R same r
  | inr e ↦ other e
]

char-ReadsBack : (c : ℕ) → c < 256 → ReadsBack c
unfolding escape_char
char-ReadsBack c h =
    let (r7, r8, r12, r10, r13, r9, r11, r92, r34) = named-ReadsBack in
    unless ReadsBack c 7 r7 λ n7. unless ReadsBack c 8 r8 λ n8. unless ReadsBack c 12 r12 λ n12.
      unless ReadsBack c 10 r10 λ n10. unless ReadsBack c 13 r13 λ n13.
        unless ReadsBack c 9 r9 λ n9. unless ReadsBack c 11 r11 λ n11.
          unless ReadsBack c 92 r92 λ n92. unless ReadsBack c 34 r34 λ n34 fuel s.
            elim (Bool-cases (isprint c)) [
              | inl y ↦
                  rw (n7, n8, n12, n10, n13, n9, n11, n92, n34, y)
                    (plain-ReadsBack c n92 n34 fuel s)
              | inr y ↦
                  rw (n7, n8, n12, n10, n13, n9, n11, n92, n34, y) (octal-ReadsBack c h fuel s)
            ]

abbrev AllBytes : Bytes → Type 0
AllBytes [] = Unit
AllBytes (c ∷ s) = (c < 256) × AllBytes s

-- A text of bytes that is escaped, and then put before a closing quote and any bytes, is read by
-- the scanner as the same text, up to that quote, with any fuel that is more than its length.
pub read-escape :
    (s rest : Bytes) (fuel : ℕ)
    → AllBytes s
    → length s < fuel
    → read fuel (escape s ++ quote ∷ rest) ≡ some (s, rest)
unfolding read escape
read-escape [] rest zero h l = absurd (omega arith)
read-escape [] rest (suc fuel) h l = refl
read-escape (c ∷ s) rest zero h l = absurd (omega arith)
read-escape (c ∷ s) rest (suc fuel) h l =
    ap (read (suc fuel)) (append_assoc (escape_char c) (escape s) (quote ∷ rest))
    ∙ char-ReadsBack c h.0 fuel (escape s ++ quote ∷ rest)
    ∙ rw (read-escape s rest fuel h.1 (omega arith)) refl

abbrev all_printable : Bytes → Bool
all_printable [] = true
all_printable (c ∷ s) = isprint c && all_printable s

-- the escape of a byte is printable
abbrev Shown : ℕ → Type 0
Shown c = all_printable (escape_char c) ≡ true

char-Shown : (c : ℕ) → c < 256 → Shown c
unfolding escape_char
char-Shown c h = unless Shown c 7 refl λ n7. unless Shown c 8 refl λ n8.
    unless Shown c 12 refl λ n12. unless Shown c 10 refl λ n10. unless Shown c 13 refl λ n13.
      unless Shown c 9 refl λ n9. unless Shown c 11 refl λ n11. unless Shown c 92 refl λ n92.
        unless Shown c 34 refl λ n34. elim (Bool-cases (isprint c)) [
          | inl y ↦ rw (n7, n8, n12, n10, n13, n9, n11, n92, n34, y) (ground (arith, y))
          | inr y ↦ rw (n7, n8, n12, n10, n13, n9, n11, n92, n34, y) (ground arith)
        ]

printable-append :
    (s t : Bytes) → all_printable s ≡ true → all_printable t ≡ true → all_printable (s ++ t) ≡ true
printable-append [] t h k = k
printable-append (c ∷ s) t h k = ground (arith, printable-append s t)

-- Whatever the bytes of a text, the escaped text is printable.
escape-printable : (s : Bytes) → AllBytes s → all_printable (escape s) ≡ true
unfolding escape
escape-printable [] h = refl
escape-printable (c ∷ s) h =
    printable-append (escape_char c) (escape s) (char-Shown c h.0) (escape-printable s h.1)
