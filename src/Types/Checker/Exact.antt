-- ===== src/Types/Checker/Exact.antt =====
-- src/type/type-checker.cc: what `check_types` does, in terms of the ends of the names.
use tiger_compilor.Prelude.{
  ℕ, String, ◌<◌, ◌≡◌, refl, ap, true, Option, some, [], ◌∷◌, ◌++◌, arith, if◌then◌else◌, ◌==◌,
  Bool-cases, inl, inr,
}
use tiger_compilor.Ast.Syntax.{Node}
use tiger_compilor.Types.Heap.{nil, Heap, IsBounded, assign}
use tiger_compilor.Types.Named.Actual.{Resolves, proper, through, actual_iff}
use tiger_compilor.Types.Compatible.{is_nil}
use tiger_compilor.Types.Compatible.Laws.{Compares, are_compatible, compatible_with-Compares}
use tiger_compilor.Types.Checker.State.{
  type_mismatch, State, following, report, no_error, assigning, set_record_type, set_record_types,
  check_types,
}

-- The end `a`, if it is a `Nil`, is told its record `b`.
pub note : ℕ → ℕ → State → State
note a b s =
    if is_nil (s.heap.deref a) then record s { heap = assign a (nil (some b)) s.heap } else s

is_nil-lt : (h : Heap) (a : ℕ) → IsBounded h → is_nil (h.deref a) ≡ true → a < h.size
is_nil-lt h a bounded e = ground (arith, bounded a)

-- A `Nil` is no name, so that no chain of names is changed.
Resolves-assign :
    {h : Heap} {t c : ℕ} (a : ℕ) (r : Option ℕ)
    → is_nil (h.deref a) ≡ true
    → Resolves h t c
    → Resolves (assign a (nil r) h) t c
unfolding assign
Resolves-assign {h} {t} a r e (proper u p q) = elim (Bool-cases (a == t)) [
  | inl k ↦ proper (nil r) (rw k refl) tt
  | inr k ↦ proper u (rw k p) q
]
Resolves-assign {h} {t} a r e (through {b} {x} p q) = elim (Bool-cases (a == t)) [
  | inl k ↦ absurd (ground (arith, ap h.deref {x = a} {y = t}))
  | inr k ↦ through {x = x} (rw k p) (Resolves-assign a r e q)
]

module _ {t1 t2 a b : ℕ} where
  set_record_type-note :
      (s : State)
      → IsBounded s.heap
      → Resolves s.heap t1 a
      → Resolves s.heap t2 b
      → set_record_type t1 t2 s ≡ some (note a b s)
  unfolding set_record_type following assigning note
  set_record_type-note s bounded p q =
      let p' = (actual_iff s.heap bounded t1 a).1 p in
      let q' = (actual_iff s.heap bounded t2 b).1 q in
      elim (Bool-cases (is_nil (s.heap.deref a))) [
        | inl e ↦ rw (p', e) (rw q' refl)
        | inr e ↦ rw (p', e) refl
      ]

note-IsBounded : (a b : ℕ) (s : State) → IsBounded s.heap → IsBounded (note a b s).heap
unfolding assign note
note-IsBounded a b s bounded = elim (Bool-cases (is_nil (s.heap.deref a))) [
  | inl e ↦ rw e λ c le. ground (arith, bounded c, is_nil-lt s.heap a bounded e)
  | inr e ↦ rw e bounded
]

note-Resolves :
    {t c : ℕ} (a b : ℕ) (s : State) → Resolves s.heap t c → Resolves (note a b s).heap t c
unfolding note
note-Resolves a b s r = elim (Bool-cases (is_nil (s.heap.deref a))) [
  | inl e ↦ rw e (Resolves-assign a (some b) e r)
  | inr e ↦ rw e r
]

-- `check_types` returns. It reports one mismatch, and does nothing else, where the types are not
-- compatible; where they are and no error was reported before, it tells an end that is `Nil` the
-- other end; and where they are and there was an error it does nothing.
pub check_types-Compares :
    (n : Node) (x y : String) (t1 t2 a b : ℕ) (s : State)
    → IsBounded s.heap
    → Compares s.heap t1 a
    → Compares s.heap t2 b
    → check_types n x t1 y t2 s
      ≡ some (
          if are_compatible s.heap a b
          then (if no_error s.errors then note b a (note a b s) else s)
          else record s { errors = s.errors ++ type_mismatch n.location x t1 y t2 ∷ [] })
unfolding check_types set_record_types following report
check_types-Compares n x y t1 t2 a b s bounded p q =
    let c = compatible_with-Compares s.heap bounded t1 t2 a b p q in
    let first = set_record_type-note s bounded p.resolves q.resolves in
    let second =
      set_record_type-note (note a b s) (note-IsBounded a b s bounded)
        (note-Resolves a b s q.resolves) (note-Resolves a b s p.resolves) in
    elim (Bool-cases (are_compatible s.heap a b)) [
      | inl e ↦ elim (Bool-cases (no_error s.errors)) [
        | inl k ↦ rw (c, e) (rw k (rw first second))
        | inr k ↦ rw (c, e, k) refl
      ]
      | inr e ↦ rw (c, e) refl
    ]
