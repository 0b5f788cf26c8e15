-- ===== src/Misc/ScopedMap.antt =====
-- lib/misc/scoped-map.hh and scoped-map.hxx: a stack of dictionaries, for symbol tables.
-- The head of the list is the back of the vector `scopes_`: the scope opened last.
pub mod Laws
use tiger_compilor.Prelude.{
  ℕ, String, Bool, Option, none, some, List, [], ◌∷◌, str_eq, if◌then◌else◌,
}

-- `std::map`: `find` and `operator[]` with an assignment.
module _ {ℓ} {D : Type ℓ} where
  unfoldable pub lookup : String → List (String × D) → Option D
  lookup k [] = none
  lookup k ((j, d) ∷ m) = if str_eq j k then some d else lookup k m

  unfoldable pub insert : String → D → List (String × D) → List (String × D)
  insert k d [] = (k, d) ∷ []
  insert k d ((j, e) ∷ m) = if str_eq j k then (k, d) ∷ m else (j, e) ∷ insert k d m

abbrev pub ScopedMap {ℓ} : Type ℓ → Type ℓ
ScopedMap D = List (List (String × D))

module _ {ℓ} {D : Type ℓ} where
  -- The constructor opens the global scope.
  abbrev pub empty : ScopedMap D
  empty = [] ∷ []

  unfoldable pub scope_begin : ScopedMap D → ScopedMap D
  scope_begin m = [] ∷ m

  -- `none` is the `std::runtime_error`, with no scope or only the global scope left.
  unfoldable pub scope_end : ScopedMap D → Option (ScopedMap D)
  scope_end [] = none
  scope_end (scope ∷ []) = none
  scope_end (scope ∷ outer ∷ m) = some (outer ∷ m)

  -- `scopes_.back()` wants a scope.
  unfoldable pub put : String → D → ScopedMap D → Option (ScopedMap D)
  put k d [] = none
  put k d (scope ∷ m) = some (insert k d scope ∷ m)

  -- From the innermost scope outwards; `none` is the `std::runtime_error`.
  unfoldable pub get : String → ScopedMap D → Option D
  get k [] = none
  get k (scope ∷ m) = elim (lookup k scope) [ some d ↦ some d | none ↦ get k m ]

  unfoldable pub get_last_scope : ScopedMap D → Option (List (String × D))
  get_last_scope [] = none
  get_last_scope (scope ∷ m) = some scope
