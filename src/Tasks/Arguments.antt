-- ===== src/Tasks/Arguments.antt =====
-- src/task/argument-task.cc and src/task/int-task.cc: the argument of an option.
use tiger_compilor.Prelude.{
  ℕ, ◌-◌, ◌%◌, ◌<◌, String, ◌≡◌, refl, ap, true, ◌&&◌, ltb, if◌then◌else◌, arith, ◌⊎◌, subst,
  Bool-cases, inl, inr,
}
use tiger_compilor.Tasks.Numbers.{ℤ, pos, negsuc, leb, signed, to_int, is_int}

-- What `std::stol` returns or throws.
pub data Parsed : Type 0 where
  value : ℤ → Parsed
  invalid_argument out_of_range : Parsed

-- The members `arg_` and `var_`.
pub record Argument : Type 0 where
  pub arg : String
  pub var : ℤ

-- How `arg_set` ends: it returns, or an exception leaves it.
pub data Ended : Type 0 where
  returned invalid_argument out_of_range : Ended

module _ (stol : String → Parsed) where
  -- `IntTask::arg_set`, which sets the variable before it tests it.
  unfoldable pub arg_set : (min max : ℤ) → String → Argument → Ended × Argument
  arg_set min max arg s = elim (stol arg) [
    | Parsed.invalid_argument ↦ (Ended.invalid_argument, record s { arg = arg })
    | Parsed.out_of_range ↦ (Ended.out_of_range, record s { arg = arg })
    | value v ↦
        let n = to_int v in
        (
          if leb min n && leb n max then returned else Ended.invalid_argument,
          record { arg = arg; var = n },
        )
  ]

signed-is_int : (n : ℕ) → n < 4294967296 → is_int (signed n) ≡ true
signed-is_int n h = elim (Bool-cases (ltb n 2147483648)) [
  | inl e ↦ rw e e
  | inr e ↦ rw e (ground arith)
]

to_int-is_int : (v : ℤ) → is_int (to_int v) ≡ true
unfolding to_int
to_int-is_int (pos n) = signed-is_int (n % 4294967296) (omega arith)
to_int-is_int (negsuc n) = signed-is_int (4294967295 - n % 4294967296) (omega arith)

Parsed-cases :
    (p : Parsed)
    → ((v : ℤ) × (p ≡ value v)) ⊎ (p ≡ Parsed.invalid_argument) ⊎ (p ≡ Parsed.out_of_range)
Parsed-cases (value v) = inl (v, refl)
Parsed-cases Parsed.invalid_argument = inr (inl refl)
Parsed-cases Parsed.out_of_range = inr (inr refl)

module _ (stol : String → Parsed) (min max : ℤ) (arg : String) (s : Argument) where
  -- When `arg_set` returns, the variable is an `int` between the bounds.
  pub arg_set-bounds :
      (t : Argument)
      → arg_set stol min max arg s ≡ (returned, t)
      → ((leb min t.var && leb t.var max) ≡ true) × (is_int t.var ≡ true)
  unfolding arg_set
  arg_set-bounds t e = elim (Parsed-cases (stol arg)) [
    | inl (v, p) ↦
        let q = rw (p, arg_set) at e in
        let same = ap (λ z. z.1.var) q in
        elim (Bool-cases (leb min (to_int v) && leb (to_int v) max)) [
          | inl b ↦
              subst (λ n. ((leb min n && leb n max) ≡ true) × (is_int n ≡ true)) same
                (b, to_int-is_int v)
          | inr b ↦ let r = ap (λ z. z.0) q in cc (rw b at r)
        ]
    | inr (inl p) ↦ let r = ap (λ z. z.0) (rw (p, arg_set) at e) in cc
    | inr (inr p) ↦ let r = ap (λ z. z.0) (rw (p, arg_set) at e) in cc
  ]
