-- ===== src/Base/Digits.antt =====
-- The decimal text of a number consists of digits, and `trim` leaves such a text as it is.
use Prim.Native.Nat.{ℕ, zero, suc, ◌+◌, ◌/◌, ◌%◌, ◌≤◌}
use mathlib.Core.Path.{◌≡◌, refl}
use mathlib.Core.Logic.{inl, inr}
use mathlib.Core.Bool.{false}
use mathlib.Core.List.{[], ◌∷◌, ◌++◌, reverse, reverse-cons, reverse-reverse}
use native.Mathlib.Omega.{arith}
use open_webbridge.Base.Tests.{ltb, Bool-cases}
use open_webbridge.Base.Lists.{All, All-append}
use open_webbridge.Base.Strings.{Text, is_empty, is_space, trim_start, trim}
use open_webbridge.Base.Decimal.{decimal_fuel, decimal}

abbrev pub IsDigit : ℕ → Type 0
IsDigit c = (48 ≤ c) × (c ≤ 57)

digit : (n : ℕ) → IsDigit (48 + n % 10)
digit n = (omega arith, omega arith)

decimal_fuel-IsDigit : (fuel n : ℕ) → All IsDigit (decimal_fuel fuel n)
unfolding decimal_fuel
decimal_fuel-IsDigit zero n = tt
decimal_fuel-IsDigit (suc fuel) n = elim (Bool-cases (ltb n 10)) [
  | inl small ↦ rw small ((omega arith, ground arith), tt)
  | inr big ↦ rw big (
      All-append IsDigit (decimal_fuel fuel (n / 10)) ((48 + n % 10) ∷ [])
        (decimal_fuel-IsDigit fuel (n / 10)) (digit n, tt))
]

pub decimal-IsDigit : (n : ℕ) → All IsDigit (decimal n)
unfolding decimal
decimal-IsDigit n = decimal_fuel-IsDigit (suc n) n

snoc-empty : (s : Text) (c : ℕ) → is_empty (s ++ c ∷ []) ≡ false
snoc-empty [] c = refl
snoc-empty (d ∷ s) c = refl

pub decimal-empty : (n : ℕ) → is_empty (decimal n) ≡ false
unfolding decimal decimal_fuel
decimal-empty n = elim (Bool-cases (ltb n 10)) [
  | inl small ↦ rw small refl
  | inr big ↦ rw big (snoc-empty (decimal_fuel n (n / 10)) (48 + n % 10))
]

abbrev pub IsPlain : ℕ → Type 0
IsPlain c = is_space c ≡ false

pub digit-IsPlain : (c : ℕ) → IsDigit c → IsPlain c
unfolding is_space
digit-IsPlain c h = ground arith

trim_start-IsPlain : (s : Text) → All IsPlain s → trim_start s ≡ s
unfolding trim_start
trim_start-IsPlain [] h = refl
trim_start-IsPlain (c ∷ s) (here, h) = rw here refl

reverse-IsPlain : (s : Text) → All IsPlain s → All IsPlain (reverse s)
reverse-IsPlain [] h = tt
reverse-IsPlain (c ∷ s) (here, h) =
    rw (reverse-cons c s) (All-append IsPlain (reverse s) (c ∷ []) (reverse-IsPlain s h) (here, tt))

pub trim-IsPlain : (s : Text) → All IsPlain s → trim s ≡ s
unfolding trim
trim-IsPlain s h =
    rw (trim_start-IsPlain s h, trim_start-IsPlain (reverse s) (reverse-IsPlain s h))
      (reverse-reverse s)
