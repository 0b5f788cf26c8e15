-- ===== src/Types/Named.antt =====
-- src/type/named.cc and named.hxx: chains of named types.
pub mod Actual
pub mod Sound
use tiger_compilor.Prelude.{
  ℕ, zero, suc, Bool, true, false, Option, none, some, List, [], ◌∷◌, ◌==◌, ◌||◌, if◌then◌else◌,
  ◌>>=◌,
}
use tiger_compilor.Types.Chains.{contains}
use tiger_compilor.Types.Heap.{
  TigerType, int, string, void, nil, named, record_type, array, function, Heap,
}

-- `dynamic_cast<const Named*>(t->type_)`, where `t` is a `Named`; `none` is a null pointer.
abbrev pub as_named : ℕ → Option TigerType → Option ℕ
as_named a (some (named x t)) = some a
as_named a _ = none

abbrev pub target : Option TigerType → Option ℕ
target (some (named x t)) = t
target _ = none

unfoldable pub next_named : Heap → ℕ → Option ℕ
next_named h a = target (h.deref a) >>= λ b. as_named b (h.deref b)

-- The loop of `Named::sound`; `none` is only for a lack of fuel.
unfoldable pub sound_loop : ℕ → Heap → List ℕ → ℕ → Option Bool
sound_loop zero h visited t = none
sound_loop (suc fuel) h visited t = elim (contains visited t) [
  | true ↦ some false
  | false ↦ elim (next_named h t) [ none ↦ some true | some u ↦ sound_loop fuel h (t ∷ visited) u ]
]

-- The fuel is more than the objects that can be visited.
unfoldable pub sound : Heap → ℕ → Option Bool
sound h a = sound_loop (suc h.size) h [] a

-- `Named::actual` calls itself on `type_`, and any other type is its own.
unfoldable pub actual_of : (ℕ → Option ℕ) → ℕ → Option TigerType → Option ℕ
actual_of again a none = none
actual_of again a (some (named x none)) = none
actual_of again a (some (named x (some b))) = again b
actual_of again a _ = some a

unfoldable pub actual_fuel : ℕ → Heap → ℕ → Option ℕ
unfolding actual_of
actual_fuel zero h a = none
actual_fuel (suc fuel) h a = actual_of (actual_fuel fuel h) a (h.deref a)

-- `none` is a null `type_`, or a chain that never ends.
unfoldable pub actual : Heap → ℕ → Option ℕ
actual h a = actual_fuel (suc h.size) h a
