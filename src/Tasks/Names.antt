-- ===== src/Tasks/Names.antt =====
-- src/task/task.cc: the list of dependencies that is given as one text.
use Prim.Native.Char.{Char, code}
use text.Mathlib.TextLemmas.{nil-append, cons-append}
use text.Mathlib.TextLemmas
use tiger_compilor.Prelude.{
  String, ◌≡◌, refl, sym, ap, ◌∙◌, Bool, true, false, ◌&&◌, not, Option, none, some, List, [], ◌∷◌,
  map, str_append, ◌==◌, arith,
}
use tiger_compilor.Tasks.{one_char, word_of, split, dependencies_of, normalize}

-- No space is in the text.
unfoldable pub is_plain : String → Bool
is_plain String.[] = true
is_plain (String.◌∷◌ c s) = not (code c == 32) && is_plain s

-- The name of a task: it is not empty and has no space.
abbrev pub is_name : String → Bool
is_name String.[] = false
is_name (String.◌∷◌ c s) = not (code c == 32) && is_plain s

abbrev pub AllNames : List String → Type 0
AllNames [] = Unit
AllNames (w ∷ ws) = (is_name w ≡ true) × AllNames ws

-- Names, with one space between two of them.
abbrev pub spaced : List String → String
spaced [] = ""
spaced (w ∷ []) = w
spaced (w ∷ v ∷ ws) = str_append w (str_append " " (spaced (v ∷ ws)))

-- a character is taken into the word
split-plain :
    (o : Option String) (c : Char) (s : String)
    → (code c == 32) ≡ false
    → split o (String.◌∷◌ c s) ≡ split (some (str_append (word_of o) (one_char c))) s
unfolding split
split-plain o c s h = rw (h, split) refl

one-append : (c : Char) (s : String) → str_append (one_char c) s ≡ String.◌∷◌ c s
one-append c s = cons-append c "" s ∙ ap (String.◌∷◌ c) (nil-append s)

-- one character between two texts
append-one :
    (s : String) (c : Char) (t : String)
    → str_append (str_append s (one_char c)) t ≡ str_append s (String.◌∷◌ c t)
append-one s c t = TextLemmas.append_assoc s (one_char c) t ∙ ap (str_append s) (one-append c t)

split-end : (acc w : String) → is_plain w ≡ true → split (some acc) w ≡ str_append acc w ∷ []
unfolding split is_plain
split-end acc String.[] h = ap (λ z. z ∷ []) (sym (TextLemmas.append-nil acc))
split-end acc (String.◌∷◌ c s) h =
    split-plain (some acc) c s (ground arith)
    ∙ split-end (str_append acc (one_char c)) s (ground arith)
    ∙ ap (λ z. z ∷ []) (append-one acc c s)

split-next :
    (acc w s : String)
    → is_plain w ≡ true
    → split (some acc) (str_append w (str_append " " s)) ≡ str_append acc w ∷ split none s
unfolding split is_plain
split-next acc String.[] s h =
    ap (split (some acc)) (nil-append (str_append " " s) ∙ one-append " " s)
    ∙ ap (λ z. z ∷ split none s) (sym (TextLemmas.append-nil acc))
split-next acc (String.◌∷◌ c w) s h =
    ap (split (some acc)) (cons-append c w (str_append " " s))
    ∙ split-plain (some acc) c (str_append w (str_append " " s)) (ground arith)
    ∙ split-next (str_append acc (one_char c)) w s (ground arith)
    ∙ ap (λ z. z ∷ split none s) (append-one acc c w)

-- a word at the start of a text
split-first :
    (w s : String)
    → is_name w ≡ true
    → split none (str_append w (str_append " " s)) ≡ w ∷ split none s
unfolding is_plain
split-first String.[] s h = cc
split-first (String.◌∷◌ c w) s h =
    ap (split none) (cons-append c w (str_append " " s))
    ∙ split-plain none c (str_append w (str_append " " s)) (ground arith)
    ∙ split-next (str_append "" (one_char c)) w s (ground arith)
    ∙ ap (λ z. z ∷ split none s) (append-one "" c w ∙ nil-append (String.◌∷◌ c w))

split-last : (w : String) → is_name w ≡ true → split none w ≡ w ∷ []
split-last String.[] h = cc
split-last (String.◌∷◌ c w) h =
    split-plain none c w (ground arith)
    ∙ split-end (str_append "" (one_char c)) w (ground arith)
    ∙ ap (λ z. z ∷ []) (append-one "" c w ∙ nil-append (String.◌∷◌ c w))

split-spaced : (ws : List String) → AllNames ws → split none (spaced ws) ≡ ws
unfolding split
split-spaced [] h = refl
split-spaced (w ∷ []) h = split-last w h.0
split-spaced (w ∷ v ∷ ws) h =
    split-first w (spaced (v ∷ ws)) h.0 ∙ ap (λ z. w ∷ z) (split-spaced (v ∷ ws) h.1)

-- Names that are written with one space between two of them are read back, each with a dash for
-- every underscore.
pub dependencies_of-spaced :
    (ws : List String) → AllNames ws → dependencies_of (spaced ws) ≡ map normalize ws
unfolding dependencies_of
dependencies_of-spaced ws h = ap (map normalize) (split-spaced ws h)
