-- ===== src/Tasks/Register/Order.antt =====
-- src/task/task-register.cc: the dependencies of a task in `task_order_`.
use tiger_compilor.Prelude.{
  String, ◌≡◌, sym, subst, true, false, none, List, [], ◌∷◌, ◌++◌, append_assoc, append-nil, ◌⊎◌,
}
use tiger_compilor.Tasks.{Task, is_disjunctive}
use tiger_compilor.Tasks.Register.{find, has}

-- A dependency is in the list, or it is not the name of a task.
abbrev pub Got : List Task → List Task → String → Type 0
Got known front x = (find x known ≡ none) ⊎ (has front x ≡ true)

abbrev pub AllGot : List Task → List Task → List String → Type 0
AllGot known front [] = Unit
AllGot known front (x ∷ xs) = Got known front x × AllGot known front xs

abbrev pub SomeGot : List Task → List String → Type 0
SomeGot front [] = ⊥
SomeGot front (x ∷ xs) = (has front x ≡ true) ⊎ SomeGot front xs

-- Of a disjunction, which enables its first dependency when none is active.
abbrev pub Alternative : List Task → List Task → List String → Type 0
Alternative known front [] = Unit
Alternative known front (x ∷ xs) = SomeGot front (x ∷ xs) ⊎ (find x known ≡ none)

-- What a task needs before it.
abbrev pub Met : List Task → List Task → Task → Type 0
Met known front t = elim (is_disjunctive t.class) [
  | true ↦ Alternative known front t.dependencies
  | false ↦ AllGot known front t.dependencies
]

abbrev pub OrderedAfter : List Task → List Task → List Task → Type 0
OrderedAfter known front [] = Unit
OrderedAfter known front (t ∷ ts) = Met known front t × OrderedAfter known (front ++ t ∷ []) ts

-- Before each task stands what it needs.
abbrev pub Ordered : List Task → List Task → Type 0
Ordered known order = OrderedAfter known [] order

pub snoc-OrderedAfter :
    (known front ts : List Task) (t : Task)
    → OrderedAfter known front ts
    → Met known (front ++ ts) t
    → OrderedAfter known front (ts ++ t ∷ [])
snoc-OrderedAfter known front [] t h m = (subst (λ f. Met known f t) (append-nil front) m, tt)
snoc-OrderedAfter known front (u ∷ ts) t h m = (
  h.0,
  snoc-OrderedAfter known (front ++ u ∷ []) ts t h.1
      (subst (λ f. Met known f t) (sym (append_assoc front (u ∷ []) ts)) m),
)
