-- ===== src/Types/Checker/Decs.antt =====
-- src/type/type-checker.cc: the operations on declarations and on types.
use tiger_compilor.Prelude.{
  ℕ, String, Bool, false, ◌||◌, Option, none, some, List, [], ◌∷◌, ◌++◌, if◌then◌else◌, ◌>>=◌,
  str_eq, str_append,
}
use tiger_compilor.Ast.Syntax.{Node}
use tiger_compilor.Ast.Visitor.{Decl}
use tiger_compilor.Ast.Default.{Action, skip, ◌⨾◌}
use tiger_compilor.Types.Heap.{
  TigerType, named, record_type, array, function, int_instance, string_instance, void_instance,
}
use tiger_compilor.Types.Named.{sound}
use tiger_compilor.Types.Compatible.{is_nil}
use tiger_compilor.Types.Checker.State.{
  error, State, Part, following, get_type, report, set_type, set_type_constructor, type_default,
  created_type_default, same_type_as, allocating, assigning, check_types, check_types_of, type_of,
}
use tiger_compilor.Types.Checker.Access.{or_void}

-- The loop over the declarations of a chunk, with the fields so far. The object `Record` is made
-- after the loop, since nothing sees it before.
unfoldable pub typed_fields :
    List (String × ℕ) → List (Decl Part) → (List (String × ℕ) → Action State) → Action State
typed_fields fs [] k = k fs
typed_fields fs (d ∷ ds) k =
    type_of d.visit
    ⨾ following (get_type d.visit.node.address) (λ t. typed_fields (fs ++ (d.name, t) ∷ []) ds k)

-- the result of a function
unfoldable pub typed_result : Option Part → (ℕ → Action State) → Action State
typed_result none k = k void_instance
typed_result (some result) k = type_of result ⨾ following (get_type result.node.address) k

unfoldable pub function_header : Node → Part → Option Part → Action State
function_header n formals result = formals.formals λ fs. typed_result result λ r.
    allocating (record_type fs) λ f. allocating (function f r) λ t. type_default n.address (some t)

abbrev pub result_of : Option TigerType → Option ℕ
result_of (some (function formals result)) = some result
result_of _ = none

unfoldable pub function_body : Node → Option Part → Action State
function_body n none = skip
function_body n (some body) =
    type_of body
    ⨾ following (λ s. s.types n.address >>= λ t. result_of (s.heap.deref t))
        λ r. following (get_type body.node.address) λ t. check_types n "result type" r "body type" t

unfoldable pub type_header : Node → String → Action State
type_header n x =
    allocating (named x none)
      λ a. created_type_default n.address a ⨾ type_default n.address (some a)

abbrev pub name_of : Option TigerType → Option String
name_of (some (named x t)) = some x
name_of _ = none

-- `dynamic_cast<const Named*>(e.get_type())`, with its name
unfoldable pub declared_name : ℕ → State → Option (ℕ × String)
declared_name a s = do t ← s.types a; x ← name_of (s.heap.deref t); some (t, x)

unfoldable pub type_body : Node → Part → Action State
type_body n ty = following (declared_name n.address) λ d.
    type_of ty
    ⨾ following (get_type ty.node.address) (λ t. assigning d.0 (named d.1 (some t)))
    ⨾ following (λ s. sound s.heap d.0)
        λ b.
          if b
          then skip
          else report (error n.location "recursive type not allowed")
            ⨾ assigning d.0 (named d.1 (some void_instance))

-- `error(e, "cannot initialize with nil without type declaration")`
unfoldable pub check_nil : Node → Option Part → Part → Action State
check_nil n (some type_name) init = skip
check_nil n none init = following (get_type init.node.address) λ t.
    following (λ s. some (is_nil (s.heap.deref t)))
      λ b.
        if b
        then report (error n.location "cannot initialize with nil without type declaration")
          ⨾ type_default n.address (some void_instance)
        else skip

unfoldable pub type_named : Node → Part → Action State
type_named n type_name = type_of type_name ⨾ same_type_as n.address type_name.node.address

unfoldable pub var_dec : Node → Option Part → Option Part → Action State
var_dec n (some type_name) (some init) =
    type_of init
    ⨾ check_nil n (some type_name) init
    ⨾ type_named n type_name
    ⨾ check_types_of n "type name" type_name.node.address "init" init.node.address
    ⨾ or_void n
var_dec n none (some init) =
    type_of init ⨾ check_nil n none init ⨾ same_type_as n.address init.node.address ⨾ or_void n
var_dec n (some type_name) none = type_named n type_name ⨾ or_void n
var_dec n none none = type_default n.address (some void_instance) ⨾ or_void n

unfoldable pub name_ty : (ℕ → Option ℕ) → Node → String → Action State
name_ty def n x =
    if str_eq x "int"
    then type_default n.address (some int_instance)
    else if str_eq x "string"
    then type_default n.address (some string_instance)
    else following (λ s. def n.address) (same_type_as n.address)

abbrev pub contains_name : List String → String → Bool
contains_name [] x = false
contains_name (y ∷ ys) x = str_eq y x || contains_name ys x

abbrev pub insert_name : List String → String → List String
insert_name ys x = if contains_name ys x then ys else x ∷ ys

-- `type(const fields_type&)`, with the names and the fields so far
unfoldable pub record_fields :
    List String → List (String × ℕ) → List Part → (List (String × ℕ) → Action State) → Action State
record_fields names fs [] k = k fs
record_fields names fs (f ∷ rest) k =
    (if contains_name names f.name
      then report (error f.node.location (str_append f.name " is duplicate"))
      else skip)
    ⨾ f.visit
    ⨾ following (get_type f.target)
        λ t. record_fields (insert_name names f.name) (fs ++ (f.name, t) ∷ []) rest k

unfoldable pub record_ty : Node → List Part → Action State
record_ty n fields = record_fields [] [] fields λ fs.
    allocating (record_type fs) λ a. set_type_constructor n.address a ⨾ set_type n.address (some a)

unfoldable pub array_ty : Node → Part → Action State
array_ty n base =
    type_of base
    ⨾ following (get_type base.node.address)
        λ t. allocating (array t) λ a. type_default n.address (some a)

unfoldable pub each_header : List (Decl Part) → Action State
each_header [] = skip
each_header (d ∷ ds) = d.visit.header ⨾ each_header ds

unfoldable pub each_body : List (Decl Part) → Action State
each_body [] = skip
each_body (d ∷ ds) = d.visit.body ⨾ each_body ds

-- `chunk_visit`
unfoldable pub chunk_visit : List (Decl Part) → Action State
chunk_visit ds = each_header ds ⨾ each_body ds
