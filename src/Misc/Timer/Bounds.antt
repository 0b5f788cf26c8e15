-- ===== src/Misc/Timer/Bounds.antt =====
-- lib/misc/timer.cc: a sequence of calls of `push` and `pop`, as tasks begin and end.
use tiger_compilor.Prelude.{
  ℕ, zero, suc, ◌+◌, ◌≤◌, ◌≡◌, ◌≢◌, refl, ap, String, Option, some, List, [], ◌∷◌, length, ◌>>=◌,
  arith,
}
use tiger_compilor.Misc.Timer.{Time, Timer, new_timer, push, pop, pop_from}
use tiger_compilor.Misc.Timer.Accounts.{
  Part, part, measured, Current, Accounted, push-Accounted, pop_from-Accounted,
}

-- A call, with the two readings of the clock that it takes.
pub data Event : Type 0 where
  begins : String → Time → Time → Event
  ends : Time → Time → Event

unfoldable pub step : Event → Timer → Option Timer
step (begins x r r') t = some (push x r r' t)
step (ends r r') t = pop r r' t

unfoldable pub run : List Event → Timer → Option Timer
unfolding step
run [] t = some t
run (e ∷ es) t = step e t >>= run es

-- Only a task that has begun ends; at first `n` tasks are running.
abbrev pub Nested : ℕ → List Event → Type 0
Nested n [] = Unit
Nested n (begins x r r' ∷ es) = Nested (suc n) es
Nested zero (ends r r' ∷ es) = ⊥
Nested (suc n) (ends r r' ∷ es) = Nested n es

-- The readings go up from `now`.
abbrev pub Ascending : Part → ℕ → List Event → Type 0
Ascending p now [] = Unit
Ascending p now (begins x r r' ∷ es) =
    (now ≤ part p r) × (part p r ≤ part p r') × Ascending p (part p r') es
Ascending p now (ends r r' ∷ es) =
    (now ≤ part p r) × (part p r ≤ part p r') × Ascending p (part p r') es

-- the last reading
abbrev pub latest : Part → ℕ → List Event → ℕ
latest p now [] = now
latest p now (begins x r r' ∷ es) = latest p (part p r') es
latest p now (ends r r' ∷ es) = latest p (part p r') es

pop_from-length :
    (xs : List String) (r r' : Time) (t t' : Timer)
    → pop_from xs r r' t ≡ some t'
    → suc (length t'.tasks) ≡ length xs
unfolding pop_from
pop_from-length [] r r' t t' e = cc
pop_from-length (x ∷ xs) r r' t t' e = ground (arith, e)

pushed-length :
    (x : String) (r r' : Time) (t : Timer) (n : ℕ)
    → length t.tasks ≡ n
    → length (push x r r' t).tasks ≡ suc n
unfolding push
pushed-length x r r' t n h = ap suc h

pub new_timer-lem : (p : Part) (lo : ℕ) → measured p new_timer.tasksmap + lo ≤ lo
unfolding measured
new_timer-lem p lo = omega arith

module _ (p : Part) (lo : ℕ) where
  run-Accounted :
      (es : List Event) (n now : ℕ) (t : Timer)
      → Accounted p lo now t
      → length t.tasks ≡ n
      → Nested n es
      → Ascending p now es
      → (t' : Timer) × (run es t ≡ some t') × Accounted p lo (latest p now es) t'
  unfolding run pop
  run-Accounted [] n now t h l k a = (t, refl, h)
  run-Accounted (begins x r r' ∷ es) n now t h l k (a, b, c) =
      run-Accounted es (suc n) (part p r') (push x r r' t) (push-Accounted p lo x now r r' t h a b)
        (pushed-length x r r' t n l) k c
  run-Accounted (ends r r' ∷ es) zero now t h l k a = absurd k
  run-Accounted (ends r r' ∷ es) (suc n) now t h l k (a, b, c) =
      let more : t.tasks ≢ [] = λ e. absurd (omega (arith, l, ap length e)) in
      let (t', popped, next) =
        pop_from-Accounted p lo t.tasks now r r' t h.known h.current a b more in
      let fewer = pop_from-length t.tasks r r' t t' popped in
      let (u, run', final) = run-Accounted es n (part p r') t' next (omega (arith, fewer, l)) k c in
      (u, rw (run, step, pop, popped) run', final)

  spent-lem :
      (now : ℕ) (xs : List String) (t : Timer)
      → Current p lo now xs t.tasksmap
      → measured p t.tasksmap + lo ≤ now
  spent-lem now [] t h = h
  spent-lem now (x ∷ xs) t (v, found, spent, begun) = omega (arith, spent, begun)

-- Tasks that begin and end under a clock that does not go back, each end after a beginning, run with
-- no precondition broken, and what all tasks have measured together, in each kind of time, is no
-- more than the time between the first and the last reading.
pub run-bounds :
    (p : Part) (es : List Event) (lo : ℕ)
    → Nested 0 es
    → Ascending p lo es
    → (t : Timer) × (run es new_timer ≡ some t) × (measured p t.tasksmap + lo ≤ latest p lo es)
run-bounds p es lo h a =
    let (t, ran, final) =
      run-Accounted p lo es 0 lo new_timer (record { known = tt; current = new_timer-lem p lo })
        refl h a in
    (t, ran, spent-lem p lo (latest p lo es) t.tasks t final.current)
