-- ===== src/Types/Classes.antt =====
-- src/type/class.cc and class.hxx: classes, and the chains of their super classes.
pub mod Ancestors
pub mod Roots
pub mod Common
use tiger_compilor.Prelude.{
  ℕ, zero, suc, ◌+◌, ◌≡◌, ◌<◌, String, Bool, true, false, Option, none, some, List, [], ◌∷◌, ◌++◌,
  str_eq, if◌then◌else◌, ◌==◌, ◌>>=◌, length, not,
}
use tiger_compilor.Types.Chains.{contains}

-- `type::Attribute` and `type::Method`: a name, and the address of a type
pub record Member : Type 0 where
  pub name : String
  pub type_ : ℕ

-- `type::Class`
pub record Class : Type 0 where
  pub id : ℕ
  pub super : Option ℕ
  pub subclasses : List ℕ
  pub attrs : List Member
  pub meths : List Member

-- The objects by address, the address of `object_instance()`, and the counter of `fresh_id`.
pub record Classes : Type 0 where
  pub size : ℕ
  pub object : ℕ
  pub deref : ℕ → Option Class
  pub counter : ℕ

-- `super_get`; `none` is a null pointer.
abbrev pub super_get : Classes → ℕ → Option ℕ
super_get h a = h.deref a >>= λ c. c.super

-- `Class::Class(super)`, at the first address that is not in use
unfoldable pub new_class : Option ℕ → Classes → ℕ × Classes
new_class super h = (
  h.size,
  record h {
    size = h.size + 1;
    counter = h.counter + 1;
    deref = λ a.
        if a == h.size
        then some
            (record { id = h.counter; super = super; subclasses = []; attrs = []; meths = [] })
        else h.deref a;
  },
)

unfoldable pub update : ℕ → (Class → Class) → Classes → Classes
update a f h = record h {
  deref = λ b. if b == a then (h.deref b >>= λ c. some (f c)) else h.deref b;
}

unfoldable pub super_set : ℕ → Option ℕ → Classes → Classes
unfolding update
super_set a super = update a λ c. record c { super = super }

unfoldable pub attr_add : ℕ → Member → Classes → Classes
unfolding update
attr_add a m = update a λ c. record c { attrs = c.attrs ++ m ∷ [] }

unfoldable pub meth_add : ℕ → Member → Classes → Classes
unfolding update
meth_add a m = update a λ c. record c { meths = c.meths ++ m ∷ [] }

unfoldable pub subclass_add : ℕ → ℕ → Classes → Classes
unfolding update
subclass_add a sub = update a λ c. record c { subclasses = c.subclasses ++ sub ∷ [] }

unfoldable pub subclasses_clear : ℕ → Classes → Classes
unfolding update
subclasses_clear a = update a λ c. record c { subclasses = [] }

-- The first member with a name.
unfoldable pub member : String → List Member → Option Member
member x [] = none
member x (m ∷ ms) = let rest = member x ms in if str_eq m.name x then some m else rest

-- `owned_attr_find`, `owned_meth_find`, and the types of what they find; `attr_type` and
-- `meth_type` look at the class only.
unfoldable pub owned_attr_find : Classes → ℕ → String → Option Member
unfolding member
owned_attr_find h a x = h.deref a >>= λ c. member x c.attrs

unfoldable pub owned_meth_find : Classes → ℕ → String → Option Member
unfolding member
owned_meth_find h a x = h.deref a >>= λ c. member x c.meths

unfoldable pub attr_type : Classes → ℕ → String → Option ℕ
unfolding owned_attr_find
attr_type h a x = owned_attr_find h a x >>= λ m. some m.type_

unfoldable pub meth_type : Classes → ℕ → String → Option ℕ
unfolding owned_meth_find
meth_type h a x = owned_meth_find h a x >>= λ m. some m.type_

-- The loop of `attr_find` and of `meth_find` over the super classes. The outer `none` is only for a
-- lack of fuel, in all the loops.
unfoldable pub find_up : ℕ → Classes → (ℕ → Option Member) → Option ℕ → Option (Option Member)
find_up zero h owned cur = none
find_up (suc fuel) h owned cur = elim cur [
  | none ↦ some none
  | some a ↦ elim (owned a) [ some m ↦ some (some m) | none ↦ find_up fuel h owned (super_get h a) ]
]

-- More than the classes, and the null pointer.
abbrev pub enough : Classes → ℕ
enough h = h.size + 2

unfoldable pub attr_find : Classes → ℕ → String → Option (Option Member)
unfolding find_up owned_attr_find
attr_find h a x = find_up (enough h) h (λ b. owned_attr_find h b x) (some a)

unfoldable pub meth_find : Classes → ℕ → String → Option (Option Member)
unfolding find_up owned_meth_find
meth_find h a x = find_up (enough h) h (λ b. owned_meth_find h b x) (some a)

-- The loop of `im_parent`, from `curr`.
unfoldable pub im_parent_loop : ℕ → Classes → ℕ → Option ℕ → Option Bool
im_parent_loop zero h me curr = none
im_parent_loop (suc fuel) h me curr = elim curr [
  | none ↦ some false
  | some a ↦ elim (a == h.object) [
    | true ↦ some false
    | false ↦ elim (me == a) [ true ↦ some true | false ↦ im_parent_loop fuel h me (super_get h a) ]
  ]
]

unfoldable pub im_parent : Classes → ℕ → ℕ → Option Bool
unfolding im_parent_loop
im_parent h me other = im_parent_loop (enough h) h me (some other)

-- What `other.actual()` is.
pub data Actual : Type 0 where
  a_class : ℕ → Actual
  a_nil : Actual
  another : Actual

unfoldable pub compatible_with : Classes → ℕ → Actual → Option Bool
unfolding im_parent
compatible_with h me (a_class other) = im_parent h me other
compatible_with h me a_nil = some true
compatible_with h me another = some false

-- The loop of `sound`, from `curr`; a null pointer that is followed is `none` as well.
unfoldable pub sound_loop : ℕ → Classes → Option ℕ → Option Bool
sound_loop zero h curr = none
sound_loop (suc fuel) h curr = elim curr [
  | none ↦ none
  | some a ↦ elim (a == h.object) [ true ↦ some true | false ↦ sound_loop fuel h (super_get h a) ]
]

unfoldable pub sound : Classes → ℕ → Option Bool
unfolding sound_loop
sound h a = sound_loop (enough h) h (super_get h a)

-- The first loop of `common_root`: the super classes below `Object`.
unfoldable pub supers : ℕ → Classes → Option ℕ → Option (List ℕ)
supers zero h cur = none
supers (suc fuel) h cur = elim cur [
  | none ↦ none
  | some a ↦ elim (a == h.object) [
    | true ↦ some []
    | false ↦ supers fuel h (super_get h a) >>= λ rest. some (a ∷ rest)
  ]
]

-- Its second loop, over the super classes of `other`
unfoldable pub first_in : ℕ → Classes → List ℕ → Option ℕ → Option ℕ
unfolding contains
first_in zero h her cur = none
first_in (suc fuel) h her cur = elim cur [
  | none ↦ none
  | some a ↦ elim (a == h.object) [
    | true ↦ some h.object
    | false ↦ elim (contains her a) [ true ↦ some a | false ↦ first_in fuel h her (super_get h a) ]
  ]
]

unfoldable pub common_root : Classes → ℕ → ℕ → Option ℕ
unfolding supers first_in
common_root h a other =
    supers (enough h) h (super_get h a) >>= λ her. first_in (enough h) h her (super_get h other)
