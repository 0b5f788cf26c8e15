-- ===== src/Escapes/Marks.antt =====
-- src/escapes: the marks that a tree puts on variables, in the order of the text, without a stack of
-- scopes.
use tiger_compilor.Prelude.{
  ℕ, String, Bool, true, false, not, ◌≡◌, ◌||◌, ◌==◌, Option, none, some, List, [], ◌∷◌, ◌++◌,
  str_eq, if◌then◌else◌,
}
use tiger_compilor.Ast.Syntax.{Node}
use tiger_compilor.Ast.Visitor.{Visitor}
use tiger_compilor.Ast.Summary.{summary, joined_option}

-- A declaration of a variable, in a primitive or not, or a use in the function that declares it.
pub data Mark : Type 0 where
  declared : Node → (primitive : Bool) → Mark
  used : Node → Mark

-- Where a part stands: in a primitive, and behind which declarations of the same function.
pub record Frame : Type 0 where
  pub primitive : Bool
  pub names : String → Bool

-- the frame around a whole program
abbrev pub outside : Frame
outside = record { primitive = false; names = λ x. false }

abbrev pub Meaning : Type 0
Meaning = Frame → Frame × List Mark

abbrev pub nothing : Meaning
nothing f = (f, [])

abbrev pub then_ : Meaning → Meaning → Meaning
then_ m k f = ((k (m f).0).0, (m f).1 ++ (k (m f).0).1)

abbrev pub present : Option Meaning → Meaning
present o = joined_option nothing then_ o

abbrev pub declare : String → Frame → Frame
declare x f = record f { names = λ y. str_eq x y || f.names y }

abbrev pub has_no_body : Option Meaning → Bool
has_no_body none = true
has_no_body (some body) = false

-- A function has names of its own, and its names are forgotten behind it.
abbrev pub inside : Option Meaning → Frame → Frame
inside body f = record { primitive = has_no_body body || f.primitive; names = λ x. false }

abbrev pub marks : Visitor Meaning
marks = record (summary nothing then_) {
  simple_var = λ n x f. (f, if f.names x then used n ∷ [] else []);
  var_dec = λ n x a b f.
      let m = then_ (present a) (present b) (declare x f) in (m.0, declared n f.primitive ∷ m.1);
  function_dec = λ n x a b c f.
      (record f { primitive = false }, (then_ a (then_ (present b) (present c)) (inside c f)).1);
}

module _ (def : ℕ → Option ℕ) where
  -- Each use that is marked has a definition.
  abbrev pub AllBound : List Mark → Type 0
  AllBound [] = Unit
  AllBound (declared n p ∷ l) = AllBound l
  AllBound (used n ∷ l) = ((d : ℕ) × (def n.address ≡ some d)) × AllBound l

  abbrev pub is : ℕ → Option ℕ → Bool
  is a none = false
  is a (some d) = d == a

  -- Whether a variable is escapable behind the marks: not if it is declared in a primitive, or is
  -- used in its own function behind its declaration.
  abbrev pub escapes : List Mark → ℕ → Bool → Bool
  escapes [] a b = b
  escapes (declared n p ∷ l) a b = escapes l a (if n.address == a then not p else b)
  escapes (used n ∷ l) a b = escapes l a (if is a (def n.address) then false else b)
