-- ===== src/Tasks/Execute/Timed.antt =====
-- src/task/task-register.cc: `TaskRegister::execute` is the execution of the tasks in their order,
-- with their times beside it.
use tiger_compilor.Prelude.{
  ℕ, suc, ◌+◌, ◌*◌, ◌≤◌, ◌≡◌, refl, subst, ◌∙◌, String, Option, none, some, List, [], ◌∷◌, length,
  ◌⊎◌, inl, inr, ◌>>=◌, arith, Option-cases,
}
use tiger_compilor.Tasks.{Task}
use tiger_compilor.Tasks.Register.{Register}
use tiger_compilor.Tasks.Execute.{World, label, execute, execute_all, execute_order}
use tiger_compilor.Misc.Timer.{Time, TimeVar, Timer, new_timer, push, pop_task}
use tiger_compilor.Misc.Timer.Known.{In, AllIn, pop_task-push}
use tiger_compilor.Misc.Timer.Accounts.{
  Part, part, measured, Current, Accounted, push-Accounted, pop_from-Accounted,
}
use tiger_compilor.Misc.Timer.Bounds.{new_timer-lem}

-- the labels of the tasks
abbrev pub labels : List Task → List String
labels [] = []
labels (t ∷ ts) = label t ∷ labels ts

module _ {W : Type 0} (call : String → World W → Option (World W))
    (call_with : String → String → World W → Option (World W)) where
  -- the tasks one after the other, without times
  abbrev pub execute_each : List Task → World W → Option (World W)
  execute_each [] w = some w
  execute_each (t ∷ ts) w = execute call call_with t w >>= execute_each ts

  module _ (p : Part) (lo : ℕ) (clock : ℕ → Time)
      (ascends : (k : ℕ) → part p (clock k) ≤ part p (clock (k + 1))) where
    step-lem : (k i : ℕ) → part p (clock (k + i)) ≤ part p (clock (k + suc i))
    step-lem k i =
        subst (λ (j : ℕ). part p (clock (k + i)) ≤ part p (clock j)) (omega arith) (ascends (k + i))

    Current-later :
        (now later : ℕ) (xs : List String) (m : List (String × TimeVar))
        → now ≤ later
        → Current p lo now xs m
        → Current p lo later xs m
    Current-later now later [] m h c = omega arith
    Current-later now later (x ∷ xs) m h (v, found, spent, begun) = (v, found, spent, omega arith)

    Accounted-later :
        (now later : ℕ) (t : Timer) → now ≤ later → Accounted p lo now t → Accounted p lo later t
    Accounted-later now later t h a = record {
      known = a.known;
      current = Current-later now later t.tasks t.tasksmap h a.current;
    }

    one-Timed :
        (x : String) (k : ℕ) (t : Timer)
        → Accounted p lo (part p (clock k)) t
        → t.tasks ≡ []
        → (t' : Timer) × (pop_task x
              (clock (k + 2))
              (clock (k + 3))
              (push x (clock k) (clock (k + 1)) t)
            ≡ some t')
          × Accounted p lo (part p (clock (k + 4))) t'
          × (t'.tasks ≡ [])
          × In x t'.tasksmap
          × ((xs : List String) → AllIn xs t.tasksmap → AllIn xs t'.tasksmap)
    unfolding push
    one-Timed x k t h idle =
        let r₁ = clock k in
        let r₂ = clock (k + 1) in
        let r₃ = clock (k + 2) in
        let r₄ = clock (k + 3) in
        let (t', popped, from, tasks, there, kept) = pop_task-push x r₁ r₂ r₃ r₄ t in
        let begun = push-Accounted p lo x (part p r₁) r₁ r₂ t h (omega arith) (ascends k) in
        let (u, from', accounted) =
          pop_from-Accounted p lo (x ∷ t.tasks) (part p r₂) r₃ r₄ (push x r₁ r₂ t) begun.known
            begun.current (step-lem k 1) (step-lem k 2) (λ e. cc) in
        let same : u ≡ t' = cc in
        (
          t',
          popped,
          Accounted-later (part p r₄) (part p (clock (k + 4))) t' (step-lem k 3)
              (subst (λ (v : Timer). Accounted p lo (part p r₄) v) same accounted),
          tasks ∙ idle,
          there,
          kept,
        )

    execute_all-Timed :
        (ts : List Task) (k : ℕ) (w : World W) (t : Timer)
        → Accounted p lo (part p (clock k)) t
        → t.tasks ≡ []
        → ((execute_each ts w ≡ none) × (execute_all call call_with clock k ts w t ≡ none))
          ⊎ ((w' : World W) × (t' : Timer) × (execute_each ts w ≡ some w')
              × (execute_all call call_with clock k ts w t ≡ some (w', t'))
              × Accounted p lo (part p (clock (k + 4 * length ts))) t'
              × (t'.tasks ≡ [])
              × AllIn (labels ts) t'.tasksmap
              × ((xs : List String) → AllIn xs t.tasksmap → AllIn xs t'.tasksmap))
    unfolding execute_all
    execute_all-Timed [] k w t h idle = inr (
      w,
      t,
      refl,
      refl,
      subst (λ (j : ℕ). Accounted p lo (part p (clock j)) t) (omega arith) h,
      idle,
      tt,
      λ xs a. a,
    )
    execute_all-Timed (x ∷ ts) k w t h idle =
        let (t₁, timed, h₁, idle₁, there, kept) = one-Timed (label x) k t h idle in
        elim (Option-cases (execute call call_with x w)) [
          | inl raised ↦ inl (rw raised refl, rw (execute_all, raised) refl)
          | inr (w₁, done) ↦ elim (execute_all-Timed ts (k + 4) w₁ t₁ h₁ idle₁) [
            | inl (raised, also) ↦ inl (rw done raised, rw (execute_all, done, ◌>>=◌, timed) also)
            | inr (w', t', each, all, h', idle', known, kept') ↦ inr (
              w',
              t',
              rw done each,
              rw (execute_all, done, ◌>>=◌, timed) all,
              subst (λ (j : ℕ). Accounted p lo (part p (clock j)) t') (omega arith) h',
              idle',
              ((kept' (label x ∷ []) (there, tt)).0, known),
              λ xs a. kept' xs (kept xs a),
            )
          ]
        ]

-- With a clock that does not go back, and a timer that is new, either a task raises an exception, and
-- then the execution does, or both return, with one world; then no task is left running, each task of
-- the order has its entry in the timer, and, in each kind of time, all of them have measured no more
-- together than the time between the first reading and the last.
pub execute_order-Timed :
    {W : Type 0} (call : String → World W → Option (World W))
    (call_with : String → String → World W → Option (World W)) (p : Part) (clock : ℕ → Time)
    (r : Register) (w : World W)
    → ((k : ℕ) → part p (clock k) ≤ part p (clock (k + 1)))
    → ((execute_each call call_with r.task_order w ≡ none)
        × (execute_order call call_with clock r w new_timer ≡ none))
      ⊎ ((w' : World W) × (t : Timer) × (execute_each call call_with r.task_order w ≡ some w')
          × (execute_order call call_with clock r w new_timer ≡ some (w', t))
          × (t.tasks ≡ [])
          × AllIn (labels r.task_order) t.tasksmap
          × (measured p t.tasksmap + part p (clock 0) ≤ part p (clock (4 * length r.task_order))))
unfolding execute_order
execute_order-Timed call call_with p clock r w ascends =
    let lo = part p (clock 0) in
    let n = 4 * length r.task_order in
    let start : Accounted p lo lo new_timer = record { known = tt; current = new_timer-lem p lo } in
    elim (execute_all-Timed call call_with p lo clock ascends r.task_order 0 w new_timer start
      refl) [
        | inl raised ↦ inl raised
        | inr (w', t, each, all, h, idle, known, kept) ↦
            let h' : Accounted p lo (part p (clock n)) t =
              subst (λ (j : ℕ). Accounted p lo (part p (clock j)) t) (omega arith) h in
            let spent : Current p lo (part p (clock n)) [] t.tasksmap =
              subst (λ (xs : List String). Current p lo (part p (clock n)) xs t.tasksmap) idle
                h'.current in
            inr (w', t, each, all, idle, known, spent)
      ]
