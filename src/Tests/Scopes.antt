-- ===== src/Tests/Scopes.antt =====
-- The scoped map of lib/misc at a concrete stack.
use tiger_compilor.Prelude.{ℕ, String, ◌≡◌, some, List, [], ◌∷◌}
use tiger_compilor.Misc.ScopedMap.{ScopedMap, scope_begin, scope_end, get}
use tiger_compilor.Misc.ScopedMap.Laws.{put_all, latest, scope_end-put_all}

abbrev outer_scope : List (String × ℕ)
outer_scope = ("x", 1) ∷ []

abbrev entries : List (String × ℕ)
entries = ("x", 2) ∷ ("y", 3) ∷ ("x", 4) ∷ []

scope_end-put_all_example :
    (m : ScopedMap ℕ) × (put_all entries (scope_begin (outer_scope ∷ [])) ≡ some m)
    × ((j : String) → get j m ≡ latest j entries (get j (outer_scope ∷ [])))
    × (scope_end m ≡ some (outer_scope ∷ []))
scope_end-put_all_example = scope_end-put_all entries outer_scope []
