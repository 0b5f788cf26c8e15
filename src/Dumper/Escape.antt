-- ===== src/Dumper/Escape.antt =====
-- src/ast/dumper-dot.hxx: `html_escape`, on bytes, and the reading of its result.
use tiger_compilor.Prelude.{
  ℕ, ◌+◌, ◌-◌, ◌*◌, ◌≡◌, ◌≢◌, refl, subst, ap, ◌∙◌, inl, inr, arith, true, ◌||◌, Bool, Bool-cases,
  [], ◌∷◌, ◌++◌, if◌then◌else◌, ◌==◌,
}
use tiger_compilor.Prelude.Bytes.{Bytes, bytes_of}
use tiger_compilor.Prelude.Decimal.{to_string}
use tiger_compilor.Misc.Escape.{backslash}

-- `specials.find(p) != std::string::npos`, where the specials are "&<>"
abbrev pub special : ℕ → Bool
special c = c == b'&' || c == b'<' || c == b'>'

-- One round of the loop of `html_escape`.
unfoldable pub html_escape_char : ℕ → Bytes
unfolding bytes_of to_string
html_escape_char c =
    if c == backslash
    then backslash ∷ backslash ∷ []
    else if special c
    then b'&' ∷ b'#' ∷ (bytes_of (to_string c) ++ b';' ∷ [])
    else c ∷ []

unfoldable pub html_escape : Bytes → Bytes
unfolding html_escape_char
html_escape [] = []
html_escape (c ∷ s) = html_escape_char c ++ html_escape s

-- How `dot` reads a label: `\\` is a backslash, and `&#38;` the character of that number.
data Reading : Type 0 where
  plain : Reading
  slashed : Reading
  entity : Reading
  number : ℕ → Reading

abbrev next : Reading → ℕ → Reading
next plain c = if c == backslash then slashed else if c == b'&' then entity else plain
next slashed c = plain
next entity c = number 0
next (number n) c = if c == b';' then plain else number (10 * n + (c - 48))

abbrev output : Reading → ℕ → Bytes
output plain c = if c == backslash || c == b'&' then [] else c ∷ []
output slashed c = c ∷ []
output entity c = []
output (number n) c = if c == b';' then n ∷ [] else []

read_from : Reading → Bytes → Bytes
read_from r [] = []
read_from r (c ∷ s) = output r c ++ read_from (next r c) s

pub read_label : Bytes → Bytes
unfolding read_from
read_label s = read_from plain s

-- No character of the text opens or closes a tag.
abbrev pub TagFree : Bytes → Type 0
TagFree [] = Unit
TagFree (c ∷ s) = (c ≢ b'<') × (c ≢ b'>') × TagFree s

TagFree-append : (s t : Bytes) → TagFree s → TagFree t → TagFree (s ++ t)
TagFree-append [] t h k = k
TagFree-append (c ∷ s) t h k = (h.0, h.1, TagFree-append s t h.2 k)

-- What a reader needs of the escape of a character.
record Escapes (c : ℕ) : Type 0 where
  tag_free : TagFree (html_escape_char c)
  read_back : (t : Bytes) → read_from plain (html_escape_char c ++ t) ≡ c ∷ read_from plain t

special-Escapes : (c : ℕ) → special c ≡ true → Escapes c
unfolding html_escape_char bytes_of to_string read_from
special-Escapes c e = elim (Bool-cases (c == b'&')) [
  | inl amp ↦
      let eq : 38 ≡ c = ground arith in
      subst Escapes eq (record { tag_free = omega arith; read_back = λ t. refl })
  | inr other ↦ elim (Bool-cases (c == b'<')) [
    | inl open_ ↦
        let eq : 60 ≡ c = ground arith in
        subst Escapes eq (record { tag_free = omega arith; read_back = λ t. refl })
    | inr other' ↦
        let eq : 62 ≡ c = ground arith in
        subst Escapes eq (record { tag_free = omega arith; read_back = λ t. refl })
  ]
]

char-Escapes : (c : ℕ) → Escapes c
unfolding html_escape_char read_from
char-Escapes c = elim (Bool-cases (special c)) [
  | inl e ↦ special-Escapes c e
  | inr ordinary ↦ elim (Bool-cases (c == backslash)) [
    | inl slash ↦
        let eq : 92 ≡ c = ground arith in
        subst Escapes eq (record { tag_free = omega arith; read_back = λ t. refl })
    | inr other ↦ record { tag_free = ground arith; read_back = λ t. ground arith }
  ]
]

-- In the escape of any text no character opens or closes a tag, and its reading as a label gives
-- the text back.
pub html_escape-Reads : (s : Bytes) → TagFree (html_escape s) × (read_label (html_escape s) ≡ s)
unfolding html_escape read_label read_from
html_escape-Reads [] = (tt, refl)
html_escape-Reads (c ∷ s) =
    let h = char-Escapes c in
    let (free, same) = html_escape-Reads s in
    (
      TagFree-append (html_escape_char c) (html_escape s) h.tag_free free,
      h.read_back (html_escape s) ∙ ap (λ (t : Bytes). c ∷ t) same,
    )
