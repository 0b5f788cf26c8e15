-- ===== src/Tests/Inheriting.antt =====
-- The classes of src/type on a small heap.
use tiger_compilor.Prelude.{
  ℕ, ◌≡◌, ◌≢◌, refl, true, false, Option, none, some, List, [], ◌∷◌, ◌↔◌, ◌==◌, arith,
  if◌then◌else◌,
}
use tiger_compilor.Types.Chains.{stop, link, contains}
use tiger_compilor.Types.Classes.{
  Class, Classes, Member, super_get, sound_loop, sound, im_parent, supers, first_in, common_root,
  attr_type, attr_find, owned_attr_find, member, find_up,
}
use tiger_compilor.Types.Classes.Ancestors.{IsBounded, Decides, im_parent-Decides, Extends}
use tiger_compilor.Types.Classes.Roots.{Rooted, at_object, above, RootedAbove, sound_iff}
use tiger_compilor.Types.Classes.Common.{Lowest, common_root-Lowest}

abbrev class_of : Option ℕ → List Member → Option Class
class_of super attrs =
    some (record { id = 0; super = super; subclasses = []; attrs = attrs; meths = [] })

-- Object, A with an attribute, B and C that extend A, and D that extends itself
abbrev classes : Classes
classes = record {
  size = 5;
  object = 0;
  counter = 5;
  deref = λ a.
      if a == 0
      then class_of none []
      else if a == 1
      then class_of (some 0) (record { name = "x"; type_ = 9 } ∷ [])
      else if a == 2
      then class_of (some 1) []
      else if a == 3
      then class_of (some 1) []
      else if a == 4
      then class_of (some 4) []
      else none;
}

classes-IsBounded : IsBounded classes
classes-IsBounded a h = ground arith

A-Rooted : Rooted classes 1
A-Rooted = above refl refl (at_object refl)

im_parent-Decides_example : Decides classes 1 (im_parent classes 1 2) 2
im_parent-Decides_example =
    im_parent-Decides classes 1 classes-IsBounded 2 2 (link refl (link refl (stop refl)))

sound_iff_example :
    ((sound classes 2 ≡ some true) ↔ RootedAbove classes 2) × (sound classes 2 ≢ some false)
sound_iff_example = sound_iff classes classes-IsBounded 2

common_root-Lowest_example :
    (r : ℕ) × (common_root classes 2 3 ≡ some r) × Lowest classes (Extends classes 1) 1 r
common_root-Lowest_example =
    common_root-Lowest classes classes-IsBounded 2 3 1 1 refl refl A-Rooted A-Rooted

-- A class is not its own super class, so that the common root of A and B is Object.
own_class : common_root classes 1 2 ≡ some 0
unfolding common_root supers first_in contains
own_class = refl

-- Object is the parent of no class.
object_parent : im_parent classes 0 2 ≡ some false
unfolding im_parent
object_parent = refl

-- On the class that extends itself the loop goes on.
recursive : sound_loop 100 classes (super_get classes 4) ≡ none
unfolding sound_loop
recursive = refl

-- The attribute of a super class is found by `attr_find`, and not by `attr_type`.
inherited :
    (attr_find classes 2 "x" ≡ some (some (record { name = "x"; type_ = 9 })))
    × (attr_type classes 2 "x" ≡ none)
unfolding attr_find attr_type owned_attr_find member find_up
inherited = (refl, refl)
