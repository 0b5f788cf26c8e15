-- ===== src/Types/Checker/State.antt =====
-- src/type/type-checker.cc and type-checker.hxx: the members of the type checker, the setting of
-- types, and the checks.
use tiger_compilor.Prelude.{
  ℕ, String, Bool, true, false, Option, none, some, List, [], ◌∷◌, ◌++◌, if◌then◌else◌, ◌==◌, ◌>>=◌,
}
use tiger_compilor.Ast.Syntax.{Node}
use tiger_compilor.Ast.Default.{Action, skip, ◌⨾◌}
use tiger_compilor.Types.Heap.{TigerType, nil, Heap, allocate, assign}
use tiger_compilor.Types.Named.{actual}
use tiger_compilor.Types.Compatible.{is_nil, compatible_with}

-- The messages, at the location of a node; of a mismatch, what is compared and the types.
pub data TypeError : Type 0 where
  error : ℕ → String → TypeError
  type_mismatch : ℕ → String → ℕ → String → ℕ → TypeError

-- `error_` and `var_read_only_`; the types made so far; and by address the members `type_` and
-- `type_constructor_` of the nodes.
pub record State : Type 0 where
  pub errors : List TypeError
  pub var_read_only : ℕ → Bool
  pub heap : Heap
  pub types : ℕ → Option ℕ
  pub constructors : ℕ → Option ℕ

-- A pointer is followed: `none` is a null pointer, or a chain of names that does not end.
unfoldable pub following {ℓ} : {A : Type ℓ} → (State → Option A) → (A → Action State) → Action State
following f k s = f s >>= λ a. k a s

-- `get_type()` of a node, which is followed
abbrev pub get_type : ℕ → State → Option ℕ
get_type a s = s.types a

unfoldable pub report : TypeError → Action State
report e s = some (record s { errors = s.errors ++ e ∷ [] })

unfoldable pub set_type : ℕ → Option ℕ → Action State
set_type a t s = some (record s { types = λ b. if a == b then t else s.types b })

unfoldable pub set_type_constructor : ℕ → ℕ → Action State
set_type_constructor a t s =
    some (record s { constructors = λ b. if a == b then some t else s.constructors b })

unfoldable pub type_default : ℕ → Option ℕ → Action State
type_default a t s = elim (s.types a) [ none ↦ set_type a t s | some u ↦ some s ]

unfoldable pub created_type_default : ℕ → ℕ → Action State
created_type_default a t s = elim (s.constructors a) [
  | none ↦ set_type_constructor a t s
  | some u ↦ some s
]

-- `type_default(e, f.get_type())`
unfoldable pub same_type_as : ℕ → ℕ → Action State
same_type_as a b s = type_default a (s.types b) s

-- `new`
unfoldable pub allocating : TigerType → (ℕ → Action State) → Action State
allocating t k s = k (allocate t s.heap).0 (record s { heap = (allocate t s.heap).1 })

-- a member of a type is set
unfoldable pub assigning : ℕ → TigerType → Action State
assigning a t s = some (record s { heap = assign a t s.heap })

abbrev pub no_error : List TypeError → Bool
no_error [] = true
no_error (e ∷ es) = false

-- `if (const Nil* nil1 = dynamic_cast<const Nil*>(&type1.actual())) ...`
unfoldable pub set_record_type : ℕ → ℕ → Action State
set_record_type t1 t2 =
    following (λ s. actual s.heap t1)
      λ a1.
        following (λ s. some (is_nil (s.heap.deref a1)))
          λ b.
            if b
            then following (λ s. actual s.heap t2) (λ a2. assigning a1 (nil (some a2)))
            else skip

-- the second half of `check_types`
unfoldable pub set_record_types : ℕ → ℕ → Action State
set_record_types t1 t2 =
    following (λ s. some (no_error s.errors))
      λ b. if b then set_record_type t1 t2 ⨾ set_record_type t2 t1 else skip

unfoldable pub check_types : Node → String → ℕ → String → ℕ → Action State
check_types n exp1 t1 exp2 t2 =
    following (λ s. compatible_with s.heap t1 t2)
      λ b. if b then set_record_types t1 t2 else report (type_mismatch n.location exp1 t1 exp2 t2)

-- the same, of the types of two nodes
unfoldable pub check_types_of : Node → String → ℕ → String → ℕ → Action State
check_types_of n exp1 a exp2 b =
    following (get_type a) λ t1. following (get_type b) λ t2. check_types n exp1 t1 exp2 t2

unfoldable pub check_type : Node → String → ℕ → Action State
check_type n message expected s = elim (s.types n.address) [
  | none ↦ some s
  | some t ↦
      following (λ r. compatible_with r.heap t expected)
        (λ b.
          if b
          then skip
          else report (error n.location message) ⨾ set_type n.address (some expected))
        s
]

-- A node as its parent meets it. `visit` is its `operator()`, and `header` and `body` are those of
-- a declaration; `formals` goes on with the names and the types of the declarations of a chunk.
-- For a field, `name` is its name and `target` the node that has its type.
pub record Part : Type 0 where
  pub node : Node
  pub name : String
  pub target : ℕ
  pub is_simple_var : Bool
  pub visit : Action State
  pub header : Action State
  pub body : Action State
  pub formals : (List (String × ℕ) → Action State) → Action State

abbrev pub part : Node → Action State → Part
part n visit = record {
  node = n;
  name = "";
  target = n.address;
  is_simple_var = false;
  visit = visit;
  header = skip;
  body = skip;
  formals = λ k. k [];
}

-- `type(e)`: a node is visited if it has no type yet; then it must have one.
unfoldable pub type_of : Part → Action State
type_of p s = elim (s.types p.node.address) [
  | some t ↦ some s
  | none ↦ p.visit s >>= following (get_type p.node.address) λ t. skip
]

-- `type(e1); type(e2); check_types(...)`
unfoldable pub check_typables : Node → String → Part → String → Part → Action State
check_typables n exp1 p exp2 q =
    type_of p ⨾ type_of q ⨾ check_types_of n exp1 p.node.address exp2 q.node.address
