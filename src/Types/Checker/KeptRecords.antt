-- ===== src/Types/Checker/KeptRecords.antt =====
-- src/type/type-checker.cc: the pointers to types, in records and arrays that are made.
use tiger_compilor.Prelude.{ℕ, String, ◌<◌, Option, none, some, List, [], ◌∷◌, arith}
use tiger_compilor.Ast.Syntax.{Node}
use tiger_compilor.Types.Heap.{int_instance, field_type}
use tiger_compilor.Types.Checker.State.{Part}
use tiger_compilor.Types.Checker.Access.{
  as_record, as_array, check_init, check_inits, record_of, record_exp, array_of, array_exp,
}
use tiger_compilor.Types.Checker.Owned.{Keeps, skip-Keeps, ⨾-Keeps}
use tiger_compilor.Types.Checker.Setting.{report-Keeps, type_default-Keeps, same_type_as-Keeps}
use tiger_compilor.Types.Checker.Checks.{
  IsKept, reading-Keeps, check_types-Keeps, check_type-Keeps, type_of-Keeps,
}
use tiger_compilor.Types.Checker.KeptAccess.{AllKept, or_void-Keeps, fail-Keeps, actual_type-Keeps}

check_init-Keeps :
    {n : ℕ} (e : Node) (x : String) (f : Part) (o : Option ℕ) → Keeps n (check_init e x f o)
unfolding check_init
check_init-Keeps e x f none = report-Keeps _
check_init-Keeps e x f (some t) = reading-Keeps _ λ u. check_types-Keeps e "init" u "field type" t

check_inits-Keeps :
    {n : ℕ} (x : String) (fs : List (String × ℕ)) (ps : List Part)
    → AllKept ps
    → Keeps n (check_inits x fs ps)
unfolding check_inits
check_inits-Keeps x fs [] h = skip-Keeps
check_inits-Keeps x fs (p ∷ ps) h =
    ⨾-Keeps (h.0).visit
      (⨾-Keeps (check_init-Keeps p.node x p (field_type p.name fs)) (check_inits-Keeps x fs ps h.1))

record_of-Keeps :
    {n : ℕ} (e : Node) (t : Part) (ps : List Part) (o : Option (List (String × ℕ)))
    → AllKept ps
    → Keeps n (record_of e t ps o)
unfolding record_of
record_of-Keeps e t ps none h = fail-Keeps e _
record_of-Keeps e t ps (some fs) h =
    ⨾-Keeps (check_inits-Keeps t.name fs ps h)
      (⨾-Keeps (same_type_as-Keeps e.address t.node.address) (or_void-Keeps e))

pub record_exp-Keeps :
    {n : ℕ} (e : Node) {t : Part} (ps : List Part)
    → IsKept t
    → AllKept ps
    → Keeps n (record_exp e t ps)
unfolding record_exp
record_exp-Keeps e {t} ps h hs =
    ⨾-Keeps (type_of-Keeps h) (reading-Keeps _ λ r. record_of-Keeps e t ps (as_record r.1) hs)

array_of-Keeps :
    {n : ℕ} (e : Node) (p : Part) {q r : Part} (a : ℕ) (o : Option ℕ)
    → IsKept q
    → IsKept r
    → a < n
    → Keeps n (array_of e p q r a o)
unfolding array_of
array_of-Keeps e p a none h k lt = fail-Keeps e _
array_of-Keeps e p {q} {r} a (some t) h k lt = ⨾-Keeps (type_of-Keeps h) (
    ⨾-Keeps (check_type-Keeps q.node _ int_instance (omega arith)) (
      ⨾-Keeps (type_of-Keeps k) (
        ⨾-Keeps (reading-Keeps _ λ u. check_types-Keeps e "element type" t "init" u)
          (⨾-Keeps (type_default-Keeps e.address (some a) lt) (or_void-Keeps e)))))

pub array_exp-Keeps :
    {n : ℕ} (e : Node) {p q r : Part} → IsKept p → IsKept q → IsKept r → Keeps n (array_exp e p q r)
unfolding array_exp
array_exp-Keeps e {p} h k l =
    ⨾-Keeps (type_of-Keeps h)
      (actual_type-Keeps _ λ m f le found. array_of-Keeps e p f.0 (as_array f.1) k l found.0)
