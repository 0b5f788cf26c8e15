-- ===== src/Misc/Symbol.antt =====
-- lib/misc/unique.hxx and lib/misc/symbol.cc: strings that are kept once, and known by a pointer.
pub mod Laws
use tiger_compilor.Prelude.{
  ℕ, zero, suc, ◌+◌, ◌%◌, String, Bool, Option, none, some, List, [], ◌∷◌, ◌++◌, length, str_eq,
  str_append, if◌then◌else◌, not, ◌==◌,
}
use tiger_compilor.Prelude.Decimal.{to_string}

-- The objects of `object_set_instance()` in the order of their insertion. They never move, so that
-- the place of an object in this order stands for the pointer to it.
abbrev pub Pool : Type 0
Pool = List String

-- `unique::get`, which follows the pointer
unfoldable pub get : Pool → ℕ → Option String
get [] a = none
get (x ∷ xs) zero = some x
get (x ∷ xs) (suc a) = get xs a

-- `instance.find(s)`
unfoldable pub find : String → Pool → Option ℕ
find s [] = none
find s (x ∷ xs) =
    let rest = find s xs in
    if str_eq x s then some 0 else (elim rest [ none ↦ none | some a ↦ some (suc a) ])

-- The constructor of `unique`: the pointer, and the set.
unfoldable pub unique : String → Pool → ℕ × Pool
unique s pool = elim (find s pool) [ some a ↦ (a, pool) | none ↦ (length pool, pool ++ s ∷ []) ]

-- `unique::operator==` on pointers, and `symbol::operator==` on what they point to.
abbrev pub unique_eq : ℕ → ℕ → Bool
unique_eq a b = a == b

abbrev pub same_text : Option String → Option String → Option Bool
same_text (some x) (some y) = some (str_eq x y)
same_text _ _ = none

unfoldable pub symbol_eq : Pool → ℕ → ℕ → Option Bool
unfolding get
symbol_eq pool a b = same_text (get pool a) (get pool b)

-- The set, and the counter of `symbol::fresh`, which has 32 bits.
pub record State : Type 0 where
  pub pool : Pool
  pub counter : ℕ

-- The text that `symbol::fresh(s)` makes of the text of `s`.
unfoldable pub fresh_text : String → ℕ → String
unfolding to_string
fresh_text s k = str_append s (str_append "_" (to_string k))

-- `symbol::fresh(s)`
unfoldable pub fresh : String → State → ℕ × State
unfolding unique fresh_text
fresh s st =
    let (a, pool) = unique (fresh_text s st.counter) st.pool in
    (a, record { pool = pool; counter = (st.counter + 1) % 4294967296 })

unfoldable pub fresh_each : List String → State → State
unfolding fresh
fresh_each [] st = st
fresh_each (s ∷ ss) st = fresh_each ss (fresh s st).1
