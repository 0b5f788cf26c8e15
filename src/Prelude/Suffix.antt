-- ===== src/Prelude/Suffix.antt =====
-- The number after the last underscore of a name, which tells apart the names that are made by
-- `name + "_" + std::to_string(n)`.
use Prim.Native.Char.{code}
use Prim.Native.Nat.{ℕ, zero, suc, ◌+◌, ◌-◌, ◌*◌, ◌/◌, ◌%◌, ◌<◌}
use Prim.Native.String.{String, ◌++◌}
use mathlib.Core.Path.{◌≡◌, sym, ap, ◌∙◌}
use mathlib.Core.Logic.{inl, inr}
use native.Mathlib.Omega.{arith}
use text.Mathlib.TextLemmas.{nil-append, cons-append}
use tiger_compilor.Prelude.Tests.{ltb, ◌==◌, if◌then◌else◌, Bool-cases}
use tiger_compilor.Prelude.Decimal.{digit, to_decimal, to_string}

-- An underscore starts again.
pub number_from : ℕ → String → ℕ
number_from acc String.[] = acc
number_from acc (String.◌∷◌ c s) =
    number_from (if code c == 95 then 0 else 10 * acc + (code c - 48)) s

number_from-append :
    (acc : ℕ) (s t : String) → number_from acc (s ++ t) ≡ number_from (number_from acc s) t
unfolding number_from
number_from-append acc String.[] t = rw (nil-append t)
number_from-append acc (String.◌∷◌ c s) t =
    rw (cons-append c s t)
      (number_from-append (if code c == 95 then 0 else 10 * acc + (code c - 48)) s t)

number_from-digit : (acc n : ℕ) → n < 10 → number_from acc (digit n) ≡ 10 * acc + n
unfolding number_from digit
number_from-digit acc zero h = omega arith
number_from-digit acc (suc zero) h = omega arith
number_from-digit acc (suc (suc zero)) h = omega arith
number_from-digit acc (suc (suc (suc zero))) h = omega arith
number_from-digit acc (suc (suc (suc (suc zero)))) h = omega arith
number_from-digit acc (suc (suc (suc (suc (suc zero))))) h = omega arith
number_from-digit acc (suc (suc (suc (suc (suc (suc zero)))))) h = omega arith
number_from-digit acc (suc (suc (suc (suc (suc (suc (suc zero))))))) h = omega arith
number_from-digit acc (suc (suc (suc (suc (suc (suc (suc (suc zero)))))))) h = omega arith
number_from-digit acc (suc (suc (suc (suc (suc (suc (suc (suc (suc n))))))))) h = omega arith

number_from-to_decimal : (fuel n : ℕ) → n < fuel → number_from 0 (to_decimal fuel n) ≡ n
unfolding to_decimal
number_from-to_decimal zero n h = absurd (omega arith)
number_from-to_decimal (suc fuel) n h = elim (Bool-cases (ltb n 10)) [
  | inl e ↦ rw (e, to_decimal) (number_from-digit 0 n (ground arith) ∙ omega arith)
  | inr e ↦
      rw (e, to_decimal)
        (number_from-append 0 (to_decimal fuel (n / 10)) (digit (n % 10))
          ∙ number_from-digit _ (n % 10) (omega arith)
          ∙ omega (arith, number_from-to_decimal fuel (n / 10) (ground arith)))
]

pub number_from-suffix :
    (acc : ℕ) (s : String) (n : ℕ) → number_from acc (s ++ ("_" ++ to_string n)) ≡ n
unfolding to_string number_from
number_from-suffix acc s n =
    number_from-append acc s ("_" ++ to_string n)
    ∙ number_from-append (number_from acc s) "_" (to_string n)
    ∙ number_from-to_decimal (suc n) n (omega arith)

-- Names that are made with different numbers are different.
pub suffix_inj :
    (x y : String) (j k : ℕ) → x ++ ("_" ++ to_string j) ≡ y ++ ("_" ++ to_string k) → j ≡ k
suffix_inj x y j k e =
    sym (number_from-suffix 0 x j) ∙ ap (number_from 0) e ∙ number_from-suffix 0 y k
