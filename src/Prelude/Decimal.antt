-- ===== src/Prelude/Decimal.antt =====
-- `std::to_string` of a number that is not negative.
use Prim.Native.Nat.{ℕ, zero, suc, ◌/◌, ◌%◌}
use Prim.Native.String.{String, ◌++◌}
use mathlib.Core.Path.{◌≡◌, refl}
use tiger_compilor.Prelude.Tests.{ltb, if◌then◌else◌}

unfoldable pub digit : ℕ → String
digit zero = "0"
digit (suc zero) = "1"
digit (suc (suc zero)) = "2"
digit (suc (suc (suc zero))) = "3"
digit (suc (suc (suc (suc zero)))) = "4"
digit (suc (suc (suc (suc (suc zero))))) = "5"
digit (suc (suc (suc (suc (suc (suc zero)))))) = "6"
digit (suc (suc (suc (suc (suc (suc (suc zero))))))) = "7"
digit (suc (suc (suc (suc (suc (suc (suc (suc zero)))))))) = "8"
digit _ = "9"

-- The fuel is more than the number, and so than its digits.
unfoldable pub to_decimal : ℕ → ℕ → String
to_decimal zero n = ""
to_decimal (suc fuel) n =
    let front = to_decimal fuel (n / 10) in if ltb n 10 then digit n else front ++ digit (n % 10)

unfoldable pub to_string : ℕ → String
unfolding to_decimal digit
to_string n = to_decimal (suc n) n

to_string_407 : to_string 407 ≡ "407"
unfolding to_string
to_string_407 = refl
