-- ===== src/Types/Heap.antt =====
-- src/type: the objects of the class `Type`, on a heap; the address of an object is its identity.
use tiger_compilor.Prelude.{
  ℕ, String, Option, none, some, List, [], ◌∷◌, str_eq, ◌==◌, ◌≤◌, ◌≡◌, if◌then◌else◌, ◌+◌,
}

-- `record_type_` of `Nil` and `type_` of `Named` may be null. A `Function` points to the record of
-- its formals and to its result.
pub data TigerType : Type 0 where
  int string void : TigerType
  nil : Option ℕ → TigerType
  named : String → Option ℕ → TigerType
  record_type : List (String × ℕ) → TigerType
  array : ℕ → TigerType
  function : ℕ → ℕ → TigerType

-- The objects made so far have the addresses below `size`.
pub record Heap : Type 0 where
  pub size : ℕ
  pub deref : ℕ → Option TigerType

abbrev pub IsBounded : Heap → Type 0
IsBounded h = (a : ℕ) → h.size ≤ a → h.deref a ≡ none

-- `new`: the address of the object, and the heap with it
unfoldable pub allocate : TigerType → Heap → ℕ × Heap
allocate t h =
    (h.size, record { size = h.size + 1; deref = λ a. if h.size == a then some t else h.deref a })

unfoldable pub assign : ℕ → TigerType → Heap → Heap
assign a t h = record h { deref = λ b. if a == b then some t else h.deref b }

-- `Int::instance()`, `String::instance()`, `Void::instance()`
abbrev pub int_instance : ℕ
int_instance = 0

abbrev pub string_instance : ℕ
string_instance = 1

abbrev pub void_instance : ℕ
void_instance = 2

unfoldable pub builtins : Heap
builtins = record {
  size = 3;
  deref = λ a.
      if a == 0
      then some int
      else if a == 1
      then some string
      else if a == 2
      then some void
      else none;
}

-- `Record::field_type` and `Record::field_index`, which give the first field of that name.
unfoldable pub field_type : String → List (String × ℕ) → Option ℕ
field_type key [] = none
field_type key ((x, t) ∷ fs) = if str_eq x key then some t else field_type key fs

-- `none` is the index -1.
unfoldable pub field_index_from : ℕ → String → List (String × ℕ) → Option ℕ
field_index_from i key [] = none
field_index_from i key ((x, t) ∷ fs) =
    if str_eq x key then some i else field_index_from (i + 1) key fs

unfoldable pub field_index : String → List (String × ℕ) → Option ℕ
unfolding field_index_from
field_index key fs = field_index_from 0 key fs
