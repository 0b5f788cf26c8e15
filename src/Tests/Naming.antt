-- ===== src/Tests/Naming.antt =====
-- The names of types of src/type on a small heap.
use tiger_compilor.Prelude.{◌≡◌, refl, arith, none, some, [], ◌↔◌, true, if◌then◌else◌, ◌==◌}
use tiger_compilor.Types.Heap.{named, nil, record_type, Heap, IsBounded}
use tiger_compilor.Types.Named.{sound, actual}
use tiger_compilor.Types.Named.Sound.{IsAnswer, sound-IsAnswer}
use tiger_compilor.Types.Named.Actual.{Resolves, proper, through, actual_iff}
use tiger_compilor.Types.Compatible.{compatible_with}
use tiger_compilor.Types.Compatible.Laws.{Compares, compatible_with-Compares}
use tiger_compilor.Types.Checker.State.{State, check_types}
use tiger_compilor.Types.Checker.Walk.{init}
use tiger_compilor.Types.Checker.Exact.{note, check_types-Compares}
use tiger_compilor.Tests.Programs.{at}

-- type a = b, where b is a record, and type c = c
abbrev names : Heap
names = record {
  size = 6;
  deref = λ a.
      if a == 3
      then some (named "a" (some 4))
      else if a == 4
      then some (record_type [])
      else if a == 5
      then some (named "c" (some 5))
      else if a == 2
      then some (nil none)
      else none;
}

names-IsBounded : IsBounded names
names-IsBounded a h = ground arith

sound-IsAnswer_example : IsAnswer names (sound names 5) 5
sound-IsAnswer_example = sound-IsAnswer names names-IsBounded 5

actual_iff_example : (actual names 3 ≡ some 4) ↔ Resolves names 3 4
actual_iff_example = actual_iff names names-IsBounded 3 4

a-Compares : Compares names 3 4
a-Compares = record {
  resolves = through {x = "a"} refl (proper (record_type []) refl tt);
  no_function = refl;
  no_named_nil = λ e. cc;
}

nil-Compares : Compares names 2 2
nil-Compares = record {
  resolves = proper (nil none) refl tt;
  no_function = refl;
  no_named_nil = λ e. refl;
}

compatible_with-Compares_example : compatible_with names 3 2 ≡ some true
compatible_with-Compares_example =
    compatible_with-Compares names names-IsBounded 3 2 4 2 a-Compares nil-Compares

abbrev start : State
start = record init { heap = names }

-- a record and nil: the nil is told its record
check_types-Compares_example :
    check_types (at 1) "left" 3 "right" 2 start ≡ some (note 2 4 (note 4 2 start))
check_types-Compares_example =
    check_types-Compares (at 1) "left" "right" 3 2 4 2 start names-IsBounded a-Compares nil-Compares
