-- ===== src/Types/Checker/Checks.antt =====
-- src/type/type-checker.cc and type-checker.hxx: the pointers to types, in the checks.
use tiger_compilor.Prelude.{
  ℕ, String, ◌≤◌, ◌<◌, ◌≡◌, Option, some, List, arith, Option-cases, inl, inr,
}
use tiger_compilor.Ast.Syntax.{Node}
use tiger_compilor.Ast.Default.{Action}
use tiger_compilor.Types.Heap.{TigerType, nil}
use tiger_compilor.Types.Named.{actual}
use tiger_compilor.Types.Named.Actual.{actual_iff}
use tiger_compilor.Types.Compatible.Laws.{Resolves-proper}
use tiger_compilor.Types.Checker.State.{
  error, type_mismatch, State, Part, following, get_type, set_record_type, set_record_types,
  check_types, check_types_of, check_type, type_of, check_typables,
}
use tiger_compilor.Types.Checker.Owned.{
  AllInside, Owned, Keeps, skip-Keeps, ⨾-Keeps, following-Keeps, if-Keeps, weaken,
}
use tiger_compilor.Types.Checker.Setting.{report-Keeps, set_type-Keeps, assigning-Keeps}

-- What is read says nothing of the heap, or is the address of an object.
abbrev pub Anything : {A : Type 0} → ℕ → A → Type 0
Anything n v = Unit

abbrev pub Pointer : ℕ → ℕ → Type 0
Pointer n a = a < n

pub deref-lt :
    {s : State} (a : ℕ) (t : TigerType) → Owned s → s.heap.deref a ≡ some t → a < s.heap.size
deref-lt {s} a t o e = ground (arith, o.bounded a)

pub actual-lt : {s : State} (a c : ℕ) → Owned s → actual s.heap a ≡ some c → c < s.heap.size
actual-lt {s} a c o e =
    let (t, p, q) = Resolves-proper s.heap o.bounded ((actual_iff s.heap o.bounded a c).0 e) in
    deref-lt c t o p

pub reading-Keeps :
    {n : ℕ} {A : Type 0} (f : State → Option A) {k : A → Action State}
    → ((v : A) → Keeps n (k v))
    → Keeps n (following f k)
reading-Keeps f keeps = following-Keeps Anything (λ s v o e. tt) λ m v le h. weaken le (keeps v)

pub get_type-Keeps :
    {n : ℕ} (a : ℕ) {k : ℕ → Action State}
    → ((m t : ℕ) → n ≤ m → t < m → Keeps m (k t))
    → Keeps n (following (get_type a) k)
get_type-Keeps {n} a keeps = following-Keeps Pointer (λ s t o e. o.types a t e) keeps

set_record_type-Keeps : {n : ℕ} (t1 t2 : ℕ) → Keeps n (set_record_type t1 t2)
unfolding set_record_type
set_record_type-Keeps t1 t2 =
    following-Keeps Pointer (λ s a o e. actual-lt t1 a o e)
      λ m a le lt. reading-Keeps _ λ b.
        if-Keeps b
          (following-Keeps Pointer (λ s a2 o e. actual-lt t2 a2 o e)
            λ j a2 le2 lt2. assigning-Keeps a (nil (some a2)) (omega arith) lt2)
          skip-Keeps

set_record_types-Keeps : {n : ℕ} (t1 t2 : ℕ) → Keeps n (set_record_types t1 t2)
unfolding set_record_types
set_record_types-Keeps t1 t2 =
    reading-Keeps _ λ b.
      if-Keeps b (⨾-Keeps (set_record_type-Keeps t1 t2) (set_record_type-Keeps t2 t1)) skip-Keeps

pub check_types-Keeps :
    {n : ℕ} (e : Node) (x : String) (t1 : ℕ) (y : String) (t2 : ℕ)
    → Keeps n (check_types e x t1 y t2)
unfolding check_types
check_types-Keeps e x t1 y t2 = reading-Keeps _ λ b.
    if-Keeps b (set_record_types-Keeps t1 t2) (report-Keeps (type_mismatch e.location x t1 y t2))

pub check_types_of-Keeps :
    {n : ℕ} (e : Node) (x : String) (a : ℕ) (y : String) (b : ℕ)
    → Keeps n (check_types_of e x a y b)
unfolding check_types_of
check_types_of-Keeps e x a y b =
    reading-Keeps _ λ t1. reading-Keeps _ λ t2. check_types-Keeps e x t1 y t2

pub check_type-Keeps :
    {n : ℕ} (e : Node) (message : String) (expected : ℕ)
    → expected < 3
    → Keeps n (check_type e message expected)
unfolding check_type
check_type-Keeps e message expected i s u h o r = elim (Option-cases (s.types e.address)) [
  | inl p ↦ skip-Keeps s u h o (rw (p, check_type) at r)
  | inr (t, p) ↦
      reading-Keeps _
        (λ b. if-Keeps b skip-Keeps (
          ⨾-Keeps (report-Keeps (error e.location message)) (
            set_type-Keeps {n = s.heap.size} e.address (some expected)
              (omega (arith, i, o.instances)))))
        s u (omega arith) o (rw (p, check_type) at r)
]

-- All operations of a part of the tree keep the pointers to types.
pub record IsKept (p : Part) : Type 0 where
  pub visit : {n : ℕ} → Keeps n p.visit
  pub header : {n : ℕ} → Keeps n p.header
  pub body : {n : ℕ} → Keeps n p.body
  pub formals :
      {n : ℕ} {k : List (String × ℕ) → Action State}
      → ((m : ℕ) (fs : List (String × ℕ)) → n ≤ m → AllInside m fs → Keeps m (k fs))
      → Keeps n (p.formals k)

pub type_of-Keeps : {n : ℕ} {p : Part} → IsKept p → Keeps n (type_of p)
unfolding type_of
type_of-Keeps {n} {p} kept s u h o e = elim (Option-cases (s.types p.node.address)) [
  | inl q ↦ ⨾-Keeps kept.visit (reading-Keeps _ λ t. skip-Keeps) s u h o (rw (q, type_of) at e)
  | inr (t, q) ↦ skip-Keeps s u h o (rw (q, type_of) at e)
]

pub check_typables-Keeps :
    {n : ℕ} (e : Node) (x : String) {p : Part} (y : String) {q : Part}
    → IsKept p
    → IsKept q
    → Keeps n (check_typables e x p y q)
unfolding check_typables
check_typables-Keeps e x {p} y {q} k l =
    ⨾-Keeps (type_of-Keeps k)
      (⨾-Keeps (type_of-Keeps l) (check_types_of-Keeps e x p.node.address y q.node.address))
