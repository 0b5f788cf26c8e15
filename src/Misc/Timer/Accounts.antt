-- ===== src/Misc/Timer/Accounts.antt =====
-- lib/misc/timer.cc: what the tasks of a timer have measured, for each kind of time.
use tiger_compilor.Prelude.{
  ℕ, ◌+◌, ◌-◌, ◌≤◌, ◌≡◌, ◌≢◌, refl, ap, String, some, List, [], ◌∷◌, str_eq, arith, Bool-cases,
  Option-cases, inl, inr,
}
use tiger_compilor.Misc.Timer.{
  Time, TimeVar, Timer, no_time, start, stop, lookup, modify, at_top, with_task, push, pop_from,
}
use tiger_compilor.Misc.Timer.Known.{
  In, AllIn, lookup-modify_self, In-modify, AllIn-modify, AllIn-top, with_task-new, with_task-old,
  In-with_task, AllIn-with_task,
}

-- The three members of a `time`.
pub data Part : Type 0 where
  user sys wall : Part

abbrev pub part : Part → Time → ℕ
part user t = t.user
part sys t = t.sys
part wall t = t.wall

module _ (p : Part) where
  -- what all tasks have measured
  unfoldable pub measured : List (String × TimeVar) → ℕ
  measured [] = 0
  measured ((k, v) ∷ m) = part p v.elapsed + measured m

  measured-modify :
      (k : String) (f : TimeVar → TimeVar) (m : List (String × TimeVar)) (v : TimeVar)
      → lookup k m ≡ some v
      → measured (modify k f m) + part p v.elapsed ≡ measured m + part p (f v).elapsed
  unfolding measured
  measured-modify k f [] v h = cc
  measured-modify k f ((j, w) ∷ m) v h = elim (Bool-cases (str_eq j k)) [
    | inl same ↦
        let e : some w ≡ some v = rw same at h in
        let found : w ≡ v = cc in
        rw same (
          omega (
            arith,
            ap (λ (u : TimeVar). part p u.elapsed) found,
            ap (λ (u : TimeVar). part p (f u).elapsed) found,
          ))
    | inr other ↦
        let later : lookup k m ≡ some v = rw other at h in
        rw other (omega (arith, measured-modify k f m v later))
  ]

  start-elapsed : (now : Time) (v : TimeVar) → (start now v).elapsed ≡ v.elapsed
  unfolding start
  start-elapsed now v = elim (Bool-cases v.initial) [ inl e ↦ rw e refl | inr e ↦ rw e refl ]

  start-begin : (now : Time) (v : TimeVar) → (start now v).begin ≡ now
  unfolding start
  start-begin now v = elim (Bool-cases v.initial) [ inl e ↦ rw e refl | inr e ↦ rw e refl ]

part-stop :
    (p : Part) (now : Time) (v : TimeVar)
    → part p (stop now v).elapsed ≡ part p v.elapsed + (part p now - part p v.begin)
unfolding stop
part-stop user now v = refl
part-stop sys now v = refl
part-stop wall now v = refl

part-no_time : (p : Part) → part p no_time ≡ 0
part-no_time user = refl
part-no_time sys = refl
part-no_time wall = refl

measured-with_task :
    (p : Part) (k : String) (m : List (String × TimeVar))
    → measured p (with_task k m) ≡ measured p m
unfolding measured
measured-with_task p k m = elim (Option-cases (lookup k m)) [
  | inl missing ↦ rw (with_task-new k m missing) (omega (arith, part-no_time p))
  | inr (v, found) ↦ rw (with_task-old k m v found) refl
]

module _ (p : Part) (lo : ℕ) where
  -- What is measured was spent after `lo`, and before the current task began, if there is one.
  abbrev pub Current : ℕ → List String → List (String × TimeVar) → Type 0
  Current now [] m = measured p m + lo ≤ now
  Current now (x ∷ xs) m =
      (v : TimeVar) × (lookup x m ≡ some v)
      × (measured p m + lo ≤ part p v.begin)
      × (part p v.begin ≤ now)

  pub record Accounted (now : ℕ) (t : Timer) : Type 0 where
    pub known : AllIn t.tasks t.tasksmap
    pub current : Current now t.tasks t.tasksmap

  stopped-lem :
      (now : ℕ) (r : Time) (xs : List String) (m : List (String × TimeVar))
      → Current now xs m
      → now ≤ part p r
      → measured p (at_top (stop r) xs m) + lo ≤ part p r
  stopped-lem now r [] m h k = omega arith
  stopped-lem now r (x ∷ xs) m (v, found, spent, begun) k =
      omega (arith, measured-modify p x (stop r) m v found, part-stop p r v)

  started-lem :
      (r r' : Time) (x : String) (xs : List String) (m : List (String × TimeVar))
      → In x m
      → measured p m + lo ≤ part p r
      → part p r ≤ part p r'
      → Current (part p r') (x ∷ xs) (modify x (start r') m)
  started-lem r r' x xs m (v, found) spent h =
      let same = ap (part p) (start-elapsed p r' v) in
      let begun = ap (part p) (start-begin p r' v) in
      (
        start r' v,
        lookup-modify_self x (start r') m v found,
        omega (arith, measured-modify p x (start r') m v found, same, begun),
        omega (arith, begun),
      )

  pub push-Accounted :
      (x : String) (now : ℕ) (r r' : Time) (t : Timer)
      → Accounted now t
      → now ≤ part p r
      → part p r ≤ part p r'
      → Accounted (part p r') (push x r r' t)
  unfolding push
  push-Accounted x now r r' t h k l =
      let m = at_top (stop r) t.tasks t.tasksmap in
      record {
        known = (
          In-modify x x (start r') (with_task x m) (In-with_task x m),
          AllIn-modify t.tasks x (start r') (with_task x m)
              (AllIn-with_task t.tasks x m (AllIn-top (stop r) t.tasks t.tasks t.tasksmap h.known)),
        );
        current =
            started-lem r r' x t.tasks (with_task x m) (In-with_task x m)
              (omega
                (arith, measured-with_task p x m, stopped-lem now r t.tasks t.tasksmap h.current k))
              l;
      }

  pub pop_from-Accounted :
      (xs : List String) (now : ℕ) (r r' : Time) (t : Timer)
      → AllIn xs t.tasksmap
      → Current now xs t.tasksmap
      → now ≤ part p r
      → part p r ≤ part p r'
      → xs ≢ []
      → (t' : Timer) × (pop_from xs r r' t ≡ some t') × Accounted (part p r') t'
  unfolding pop_from
  pop_from-Accounted [] now r r' t a c k l e = absurd (e refl)
  pop_from-Accounted (x ∷ []) now r r' t a c k l e =
      let spent = stopped-lem now r (x ∷ []) t.tasksmap c k in
      (_, refl, record { known = tt; current = omega arith })
  pop_from-Accounted (x ∷ y ∷ ys) now r r' t a c k l e =
      let m = modify x (stop r) t.tasksmap in
      let spent = stopped-lem now r (x ∷ y ∷ ys) t.tasksmap c k in
      let rest = AllIn-modify (y ∷ ys) x (stop r) t.tasksmap a.1 in
      (
        _,
        refl,
        record {
          known = AllIn-modify (y ∷ ys) y (start r') m rest;
          current = started-lem r r' y ys m rest.0 spent l;
        },
      )
