-- ===== src/Misc/Timer/Known.antt =====
-- lib/misc/timer.cc: the tasks that have an entry in `tasksmap`.
use tiger_compilor.Prelude.{
  ◌≡◌, refl, ap, String, true, none, some, List, [], ◌∷◌, str_eq, eq_iff, Bool-cases, Option-cases,
  inl, inr,
}
use tiger_compilor.Misc.Timer.{
  Time, TimeVar, Timer, new_time_var, start, stop, lookup, modify, at_top, with_task, push,
  pop_from, pop, pop_task, is_top,
}

abbrev pub In : String → List (String × TimeVar) → Type 0
In k m = (v : TimeVar) × (lookup k m ≡ some v)

abbrev pub AllIn : List String → List (String × TimeVar) → Type 0
AllIn [] m = Unit
AllIn (x ∷ xs) m = In x m × AllIn xs m

pub lookup-modify_self :
    (k : String) (f : TimeVar → TimeVar) (m : List (String × TimeVar)) (v : TimeVar)
    → lookup k m ≡ some v
    → lookup k (modify k f m) ≡ some (f v)
lookup-modify_self k f [] v h = cc
lookup-modify_self k f ((j, w) ∷ m) v h = elim (Bool-cases (str_eq j k)) [
  | inl same ↦
      let e : some w ≡ some v = rw same at h in
      let found : w ≡ v = cc in rw (same, same) (ap (λ (u : TimeVar). some (f u)) found)
  | inr other ↦
      let later : lookup k m ≡ some v = rw other at h in
      rw (other, other) (lookup-modify_self k f m v later)
]

pub In-modify :
    (k j : String) (f : TimeVar → TimeVar) (m : List (String × TimeVar))
    → In k m
    → In k (modify j f m)
In-modify k j f [] h = h
In-modify k j f ((i, w) ∷ m) (v, h) = elim (Bool-cases (str_eq i j)) [
  | inl same ↦ elim (Bool-cases (str_eq i k)) [
    | inl here ↦ (f w, rw (same, here) refl)
    | inr there ↦ let later : lookup k m ≡ some v = rw there at h in (v, rw (same, there) later)
  ]
  | inr other ↦ elim (Bool-cases (str_eq i k)) [
    | inl here ↦ (w, rw (other, here) refl)
    | inr there ↦
        let later : lookup k m ≡ some v = rw there at h in
        let (u, found) = In-modify k j f m (v, later) in (u, rw (other, there) found)
  ]
]

pub AllIn-modify :
    (xs : List String) (j : String) (f : TimeVar → TimeVar) (m : List (String × TimeVar))
    → AllIn xs m
    → AllIn xs (modify j f m)
AllIn-modify [] j f m h = tt
AllIn-modify (x ∷ xs) j f m h = (In-modify x j f m h.0, AllIn-modify xs j f m h.1)

pub AllIn-top :
    (f : TimeVar → TimeVar) (ys xs : List String) (m : List (String × TimeVar))
    → AllIn xs m
    → AllIn xs (at_top f ys m)
AllIn-top f [] xs m h = h
AllIn-top f (y ∷ ys) xs m h = AllIn-modify xs y f m h

pub str_eq_refl : (k : String) → str_eq k k ≡ true
str_eq_refl k = (eq_iff k k).1 refl

pub with_task-new :
    (k : String) (m : List (String × TimeVar))
    → lookup k m ≡ none
    → with_task k m ≡ (k, new_time_var) ∷ m
with_task-new k m e = rw (with_task, e) refl

pub with_task-old :
    (k : String) (m : List (String × TimeVar)) (v : TimeVar)
    → lookup k m ≡ some v
    → with_task k m ≡ m
with_task-old k m v e = rw (with_task, e) refl

pub In-with_task : (k : String) (m : List (String × TimeVar)) → In k (with_task k m)
In-with_task k m = elim (Option-cases (lookup k m)) [
  | inl missing ↦ (new_time_var, rw (with_task-new k m missing, str_eq_refl k) refl)
  | inr (v, found) ↦ (v, rw (with_task-old k m v found) found)
]

pub In-other : (x k : String) (m : List (String × TimeVar)) → In x m → In x (with_task k m)
In-other x k m (v, h) = elim (Option-cases (lookup k m)) [
  | inr (u, found) ↦ (v, rw (with_task-old k m u found) h)
  | inl missing ↦ elim (Bool-cases (str_eq k x)) [
    | inl same ↦ (new_time_var, rw (with_task-new k m missing, same) refl)
    | inr other ↦ (v, rw (with_task-new k m missing, other) h)
  ]
]

pub AllIn-with_task :
    (xs : List String) (k : String) (m : List (String × TimeVar))
    → AllIn xs m
    → AllIn xs (with_task k m)
AllIn-with_task [] k m h = tt
AllIn-with_task (x ∷ xs) k m h = (In-other x k m h.0, AllIn-with_task xs k m h.1)

pub AllIn-push :
    (xs : List String) (x : String) (r r' : Time) (t : Timer)
    → AllIn xs t.tasksmap
    → AllIn xs (push x r r' t).tasksmap
unfolding push
AllIn-push xs x r r' t h =
    let m = at_top (stop r) t.tasks t.tasksmap in
    AllIn-modify xs x (start r') (with_task x m)
      (AllIn-with_task xs x m (AllIn-top (stop r) t.tasks xs t.tasksmap h))

-- A task that has begun ends with no precondition broken.
pub pop_task-push :
    (x : String) (r₁ r₂ r₃ r₄ : Time) (t : Timer)
    → (t' : Timer) × (pop_task x r₃ r₄ (push x r₁ r₂ t) ≡ some t')
      × (pop_from (x ∷ t.tasks) r₃ r₄ (push x r₁ r₂ t) ≡ some t')
      × (t'.tasks ≡ t.tasks)
      × In x t'.tasksmap
      × ((xs : List String) → AllIn xs t.tasksmap → AllIn xs t'.tasksmap)
unfolding pop_task pop pop_from push is_top
pop_task-push x r₁ r₂ r₃ r₄ t =
    let m = with_task x (at_top (stop r₁) t.tasks t.tasksmap) in
    let begun = (push x r₁ r₂ t).tasksmap in
    let kept : (xs : List String)
        → AllIn xs begun
        → AllIn xs (at_top (start r₄) t.tasks (modify x (stop r₃) begun)) =
      λ xs h.
        AllIn-top (start r₄) t.tasks xs (modify x (stop r₃) begun)
          (AllIn-modify xs x (stop r₃) begun h) in
    let there : In x begun =
      In-modify x x (start r₂) m (In-with_task x (at_top (stop r₁) t.tasks t.tasksmap)) in
    (
      _,
      rw (pop_task, is_top, str_eq_refl x) refl,
      refl,
      refl,
      (kept (x ∷ []) (there, tt)).0,
      λ xs h. kept xs (AllIn-push xs x r₁ r₂ t h),
    )
