-- ===== src/Base/Decimal.antt =====
-- `String(n)` of a natural number, and that it can be read back.
use Prim.Native.Nat.{ℕ, zero, suc, ◌+◌, ◌-◌, ◌*◌, ◌/◌, ◌%◌, ◌<◌}
use mathlib.Core.Path.{◌≡◌, refl, ap}
use mathlib.Core.Logic.{inl, inr}
use mathlib.Core.List.{[], ◌∷◌, ◌++◌}
use native.Mathlib.Omega.{arith}
use open_webbridge.Base.Tests.{ltb, if◌then◌else◌, Bool-cases}
use open_webbridge.Base.Strings.{Text, lit}

-- The digits, most significant first, with fuel above the number of digits.
unfoldable pub decimal_fuel : ℕ → ℕ → Text
decimal_fuel zero n = []
decimal_fuel (suc fuel) n =
    let rest = decimal_fuel fuel (n / 10) in
    if ltb n 10 then (48 + n) ∷ [] else rest ++ (48 + n % 10) ∷ []

unfoldable pub decimal : ℕ → Text
unfolding decimal_fuel
decimal n = decimal_fuel (suc n) n

read_from : ℕ → Text → ℕ
read_from acc [] = acc
read_from acc (c ∷ s) = read_from (acc * 10 + (c - 48)) s

read_from-snoc :
    (acc : ℕ) (s : Text) (c : ℕ) → read_from acc (s ++ c ∷ []) ≡ read_from acc s * 10 + (c - 48)
unfolding read_from
read_from-snoc acc [] c = refl
read_from-snoc acc (d ∷ s) c = read_from-snoc (acc * 10 + (d - 48)) s c

read-decimal_fuel : (fuel n : ℕ) → n < fuel → read_from 0 (decimal_fuel fuel n) ≡ n
unfolding decimal_fuel read_from
read-decimal_fuel zero n h = elim h [ ]
read-decimal_fuel (suc fuel) n h = elim (Bool-cases (ltb n 10)) [
  | inl small ↦ rw small (omega arith)
  | inr big ↦
      rw (big, read_from-snoc 0 (decimal_fuel fuel (n / 10)) (48 + n % 10))
        (ground (arith, read-decimal_fuel fuel (n / 10)))
]

read-decimal : (n : ℕ) → read_from 0 (decimal n) ≡ n
unfolding decimal
read-decimal n = read-decimal_fuel (suc n) n (omega arith)

-- Two numbers with one decimal text are one number.
pub decimal-injective : (m n : ℕ) → decimal m ≡ decimal n → m ≡ n
decimal-injective m n e = cc (read-decimal m, read-decimal n, ap (read_from 0) e)

decimal_test : decimal 1205 ≡ lit "1205"
unfolding decimal
decimal_test = refl
