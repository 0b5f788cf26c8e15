-- ===== src/Misc/ScopedMap/Laws.antt =====
-- The laws of the scoped map of lib/misc/scoped-map.hxx.
use tiger_compilor.Prelude.{
  String, ◌≡◌, refl, ap, ◌∙◌, Option, some, ◌>>=◌, List, [], ◌∷◌, arith, str_eq, eq_iff,
  if◌then◌else◌,
}
use tiger_compilor.Misc.ScopedMap.{ScopedMap, lookup, insert, scope_begin, scope_end, put, get}

module _ {ℓ} {D : Type ℓ} where
  pub lookup-insert :
      (k j : String) (d : D) (m : List (String × D))
      → lookup j (insert k d m) ≡ (if str_eq k j then some d else lookup j m)
  unfolding lookup insert
  lookup-insert k j d [] = refl
  lookup-insert k j d ((i, e) ∷ m) =
      ground (arith, eq_iff k j, eq_iff i k, eq_iff i j, lookup-insert k j d m)

  pub get-put :
      (k j : String) (d : D) (scope : List (String × D)) (m : ScopedMap D)
      → get j (insert k d scope ∷ m) ≡ (if str_eq k j then some d else get j (scope ∷ m))
  unfolding get
  get-put k j d scope m = ground (arith, lookup-insert k j d scope)

  pub get-scope_begin : (j : String) (m : ScopedMap D) → get j (scope_begin m) ≡ get j m
  unfolding get scope_begin lookup
  get-scope_begin j m = refl

  abbrev pub put_all : List (String × D) → ScopedMap D → Option (ScopedMap D)
  put_all [] m = some m
  put_all ((k, d) ∷ kds) m = put k d m >>= put_all kds

  -- The last entry of a key counts.
  abbrev pub latest : String → List (String × D) → Option D → Option D
  latest j [] o = o
  latest j ((k, d) ∷ kds) o = latest j kds (if str_eq k j then some d else o)

  put_all-some :
      (kds : List (String × D)) (scope : List (String × D)) (m : ScopedMap D)
      → (scope' : List (String × D)) × (put_all kds (scope ∷ m) ≡ some (scope' ∷ m))
        × ((j : String) → get j (scope' ∷ m) ≡ latest j kds (get j (scope ∷ m)))
  unfolding put
  put_all-some [] scope m = (scope, refl, λ j. refl)
  put_all-some ((k, d) ∷ kds) scope m =
      let (scope', e, f) = put_all-some kds (insert k d scope) m in
      (scope', e, λ j. f j ∙ ap (latest j kds) (get-put k j d scope m))

  -- Any number of entries can be put in a scope that was just opened; a lookup then finds the last
  -- entry of its key, or else what it found before the scope; and closing the scope gives back the
  -- dictionary on which it was opened.
  pub scope_end-put_all :
      (kds : List (String × D)) (outer : List (String × D)) (m : ScopedMap D)
      → (m' : ScopedMap D) × (put_all kds (scope_begin (outer ∷ m)) ≡ some m')
        × ((j : String) → get j m' ≡ latest j kds (get j (outer ∷ m)))
        × (scope_end m' ≡ some (outer ∷ m))
  unfolding scope_begin scope_end
  scope_end-put_all kds outer m =
      let (scope, e, f) = put_all-some kds [] (outer ∷ m) in
      (scope ∷ outer ∷ m, e, λ j. f j ∙ ap (latest j kds) (get-scope_begin j (outer ∷ m)), refl)
