-- ===== src/Tests/Texts.antt =====
-- Symbols and escapes of lib/misc on small texts.
use tiger_compilor.Prelude.{String, ◌≡◌, ◌≢◌, refl, some, [], ◌∷◌, ◌++◌, ◌↔◌, arith}
use tiger_compilor.Misc.Symbol.{
  get, find, unique, unique_eq, symbol_eq, State, fresh_text, fresh, fresh_each,
}
use tiger_compilor.Misc.Symbol.Laws.{IsFlyweight, unique-symbol_eq, fresh-distinct}
use tiger_compilor.Misc.Escape.{Bytes, quote, escape_char, escape}
use tiger_compilor.Parse.Strings.{read}
use tiger_compilor.Parse.Escapes.{read-escape}

empty-IsFlyweight : IsFlyweight []
unfolding get
empty-IsFlyweight a b x p q = cc

unique-symbol_eq_example :
    (symbol_eq (unique "y" (unique "x" []).1).1 0 1 ≡ some (unique_eq 0 1))
    × (((unique "x" []).0 ≡ (unique "y" (unique "x" []).1).0) ↔ ◌≡◌ {A = String} "x" "y")
    × IsFlyweight (unique "y" (unique "x" []).1).1
unfolding unique find
unique-symbol_eq_example = unique-symbol_eq "x" "y" [] empty-IsFlyweight

-- A fresh symbol is one that the program has already, if it is named like that.
abbrev named : State
named = record { pool = "a_0" ∷ []; counter = 0 }

clash : (fresh "a" named).0 ≡ (unique "a_0" named.pool).0
unfolding fresh unique find fresh_text
clash = refl

fresh-distinct_example :
    (fresh "a" named).0 ≢ (fresh "a" (fresh_each ("b" ∷ []) (fresh "a" named).1)).0
fresh-distinct_example = fresh-distinct "a" "a" ("b" ∷ []) named (omega arith) (omega arith)

-- a bell, a quote, a letter and a byte that is no letter
abbrev bytes : Bytes
bytes = 7 ∷ 34 ∷ 65 ∷ 200 ∷ []

escaped : escape bytes ≡ 92 ∷ 48 ∷ 48 ∷ 55 ∷ 92 ∷ 34 ∷ 65 ∷ 92 ∷ 51 ∷ 49 ∷ 48 ∷ []
unfolding escape escape_char
escaped = refl

read-escape_example : read 5 (escape bytes ++ quote ∷ 59 ∷ []) ≡ some (bytes, 59 ∷ [])
read-escape_example =
    read-escape bytes (59 ∷ []) 5 (omega arith, (omega arith, (omega arith, (omega arith, tt))))
      (omega arith)
