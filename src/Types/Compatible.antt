-- ===== src/Types/Compatible.antt =====
-- src/type: `compatible_with` of each class of types, by dynamic dispatch, and `operator==`.
pub mod Laws
use tiger_compilor.Prelude.{ℕ, zero, suc, Bool, true, false, ◌||◌, Option, none, some, ◌==◌, ◌>>=◌}
use tiger_compilor.Types.Heap.{
  TigerType, int, string, void, nil, named, record_type, array, function, Heap,
}
use tiger_compilor.Types.Named.{actual}

-- `&lhs.actual() == &rhs.actual()`
unfoldable pub same_type : Heap → ℕ → ℕ → Option Bool
same_type h a b = do a' ← actual h a; b' ← actual h b; some (a' == b')

-- `dynamic_cast<const Nil*>` and `dynamic_cast<const Record*>`
abbrev pub is_nil : Option TigerType → Bool
is_nil (some (nil r)) = true
is_nil _ = false

abbrev pub is_record : Option TigerType → Bool
is_record (some (record_type fs)) = true
is_record _ = false

-- `this == &other.actual()`
unfoldable pub is_actual : Heap → ℕ → ℕ → Option Bool
is_actual h a b = actual h b >>= λ b'. some (a == b')

-- `Nil::compatible_with`
unfoldable pub nil_compatible : Heap → ℕ → Option Bool
nil_compatible h b = actual h b >>= λ b'. some (is_record (h.deref b'))

-- `Record::compatible_with`: a `Nil` is compatible as it stands, and `other.actual()` is not run.
unfoldable pub record_compatible : Heap → ℕ → ℕ → Option Bool
unfolding is_actual
record_compatible h a b = elim (is_nil (h.deref b)) [ true ↦ some true | false ↦ is_actual h a b ]

-- The dispatch; `Named::compatible_with` calls that of its `type_`, if it has one.
unfoldable pub compatible_of : (ℕ → Option Bool) → Heap → ℕ → Option TigerType → ℕ → Option Bool
compatible_of again h a none b = none
compatible_of again h a (some int) b = same_type h a b
compatible_of again h a (some string) b = same_type h a b
compatible_of again h a (some void) b = same_type h a b
compatible_of again h a (some (nil r)) b = nil_compatible h b
compatible_of again h a (some (named x none)) b = some false
compatible_of again h a (some (named x (some t))) b = again t
compatible_of again h a (some (record_type fs)) b = record_compatible h a b
compatible_of again h a (some (array t)) b = is_actual h a b
compatible_of again h a (some (function f r)) b = some (a == b)

unfoldable pub compatible_fuel : ℕ → Heap → ℕ → ℕ → Option Bool
unfolding compatible_of
compatible_fuel zero h a b = none
compatible_fuel (suc fuel) h a b = compatible_of (λ t. compatible_fuel fuel h t b) h a (h.deref a) b

-- The chain of names is no longer than the heap.
unfoldable pub compatible_with : Heap → ℕ → ℕ → Option Bool
compatible_with h a b = compatible_fuel (suc h.size) h a b
