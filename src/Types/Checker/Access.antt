-- ===== src/Types/Checker/Access.antt =====
-- src/type/type-checker.cc: the operations that look into a type: variables, calls,
-- records and arrays.
use tiger_compilor.Prelude.{
  ℕ, String, Option, none, some, List, [], ◌∷◌, if◌then◌else◌, ltb, length, ◌>>=◌, str_append,
}
use tiger_compilor.Ast.Syntax.{Node}
use tiger_compilor.Ast.Default.{Action, skip, ◌⨾◌}
use tiger_compilor.Types.Heap.{
  TigerType, record_type, array, function, int_instance, void_instance, field_type, field_index,
}
use tiger_compilor.Types.Named.{actual}
use tiger_compilor.Types.Checker.State.{
  error, State, Part, following, get_type, report, set_type, type_default, same_type_as, no_error,
  check_types, check_type, type_of,
}

-- `error(e, message); e.set_type(&Void::instance());`
unfoldable pub fail : Node → String → Action State
fail n message = report (error n.location message) ⨾ set_type n.address (some void_instance)

-- `if (!e.get_type()) e.set_type(&Void::instance());`
abbrev pub or_void : Node → Action State
or_void n = type_default n.address (some void_instance)

-- `type(e)->actual()`, and where it stands
unfoldable pub actual_type : ℕ → State → Option (ℕ × TigerType)
actual_type a s = do t ← s.types a; c ← actual s.heap t; o ← s.heap.deref c; some (c, o)

-- `dynamic_cast<const Record*>` and `dynamic_cast<const Array*>`
abbrev pub as_record : TigerType → Option (List (String × ℕ))
as_record (record_type fs) = some fs
as_record _ = none

abbrev pub as_array : TigerType → Option ℕ
as_array (array t) = some t
as_array _ = none

module _ (def : ℕ → Option ℕ) where
  unfoldable pub simple_var : Node → Action State
  simple_var n = following (λ s. def n.address) (same_type_as n.address)

  unfoldable pub call_args : Node → List (String × ℕ) → List Part → Action State
  call_args n [] args = skip
  call_args n (f ∷ fs) [] = following (λ s. if no_error s.errors then none else some s) λ s. skip
  call_args n ((x, t) ∷ fs) (a ∷ args) =
      following (λ s. some (no_error s.errors))
        λ b.
          if b
          then type_of a
            ⨾ following (get_type a.node.address) (λ u. check_types n "parameter" t "argument" u)
            ⨾ call_args n fs args
          else skip

  -- the body of `CallExp`, by the type of the declaration
  unfoldable pub call_of : Node → String → List Part → Option TigerType → Action State
  call_of n x args (some (function formals result)) =
      following (λ s. s.heap.deref formals >>= as_record)
        λ fs.
          (if ltb (length args) (length fs)
            then report (error n.location (str_append x " has too few arguments"))
            else skip)
          ⨾ (if ltb (length fs) (length args)
              then report (error n.location (str_append x " has too many arguments"))
              else skip)
          ⨾ call_args n fs args
          ⨾ type_default n.address (some result)
          ⨾ or_void n
  call_of n x args _ = fail n (str_append x " is not a function")

  unfoldable pub call_exp : Node → String → List Part → Action State
  call_exp n x args =
      following (λ s. def n.address >>= λ d. some (s.types d >>= s.heap.deref)) (call_of n x args)

-- the body of `FieldVar`, by the record
unfoldable pub field_of : Node → String → Option (List (String × ℕ)) → Action State
field_of n x none = fail n "not a record"
field_of n x (some fs) = elim (field_index x fs) [
  | none ↦ fail n (str_append x " is not a field of the record")
  | some i ↦ type_default n.address (field_type x fs) ⨾ or_void n
]

unfoldable pub field_var : Node → Part → String → Action State
field_var n var x =
    type_of var ⨾ following (actual_type var.node.address) (λ r. field_of n x (as_record r.1))

-- the body of `SubscriptVar`, by the array
unfoldable pub element_of : Node → Option ℕ → Action State
element_of n none = fail n "not an array"
element_of n (some t) = type_default n.address (some t)

unfoldable pub subscript_var : Node → Part → Part → Action State
subscript_var n var index =
    type_of var
    ⨾ type_of index
    ⨾ check_type index.node "index is not an int" int_instance
    ⨾ following (actual_type var.node.address) (λ r. element_of n (as_array r.1))
    ⨾ or_void n

-- one field of `RecordExp`
unfoldable pub check_init : Node → String → Part → Option ℕ → Action State
check_init n record_name f none = report (
    error n.location
      (str_append "field " (str_append f.name (str_append " not found in record " record_name))))
check_init n record_name f (some t) =
    following (get_type f.target) λ u. check_types n "init" u "field type" t

unfoldable pub check_inits : String → List (String × ℕ) → List Part → Action State
check_inits record_name fs [] = skip
check_inits record_name fs (f ∷ rest) =
    f.visit
    ⨾ check_init f.node record_name f (field_type f.name fs)
    ⨾ check_inits record_name fs rest

-- the body of `RecordExp`, by the record
unfoldable pub record_of : Node → Part → List Part → Option (List (String × ℕ)) → Action State
record_of n type_name fields none = fail n (str_append type_name.name " is not a record type")
record_of n type_name fields (some fs) =
    check_inits type_name.name fs fields ⨾ same_type_as n.address type_name.node.address ⨾ or_void n

unfoldable pub record_exp : Node → Part → List Part → Action State
record_exp n type_name fields =
    type_of type_name
    ⨾ following (actual_type type_name.node.address)
        (λ r. record_of n type_name fields (as_record r.1))

-- the body of `ArrayExp`, by the array and where it stands
unfoldable pub array_of : Node → Part → Part → Part → ℕ → Option ℕ → Action State
array_of n type_name size init a none = fail n (str_append type_name.name " is not an array type")
array_of n type_name size init a (some t) =
    type_of size
    ⨾ check_type size.node "size must be an integer" int_instance
    ⨾ type_of init
    ⨾ following (get_type init.node.address) (λ u. check_types n "element type" t "init" u)
    ⨾ type_default n.address (some a)
    ⨾ or_void n

unfoldable pub array_exp : Node → Part → Part → Part → Action State
array_exp n type_name size init =
    type_of type_name
    ⨾ following (actual_type type_name.node.address)
        (λ r. array_of n type_name size init r.0 (as_array r.1))
