-- ===== src/Base/Decimal.antt =====
-- Decimal numerals as `printf` writes them with `%d` and `%u`.
use Prim.Native.Nat.{ℕ, zero, suc, ◌+◌, ◌-◌, ◌*◌, ◌/◌, ◌%◌, ◌^◌, ◌≤◌, ◌<◌}
use mathlib.Core.Path.{◌≡◌, refl}
use mathlib.Core.Logic.{◌≢◌}
use mathlib.Core.Bool.{true, false}
use mathlib.Core.List.{concat-ne-nil, [], ◌∷◌, ◌++◌}
use native.Mathlib.Omega.{arith}
use native.Mathlib.Nat.{pow-suc}
use svnsrv.Base.Tests.{ltb}
use svnsrv.Base.Lists.{length, length-append, All, All-append}
use svnsrv.Base.Text.{Bytes, IsDigit, decimal, decimal_from}

-- The digits of `n`, on fuel that `n` itself provides.
unfoldable pub digits_fuel : ℕ → ℕ → Bytes
digits_fuel zero n = (48 + n % 10) ∷ []
digits_fuel (suc f) n = elim (ltb n 10) [
  | true ↦ (48 + n) ∷ []
  | false ↦ digits_fuel f (n / 10) ++ (48 + n % 10) ∷ []
]

unfoldable pub digits : ℕ → Bytes
unfolding digits_fuel
digits n = digits_fuel n n

-- A number below 10^(k+1) has at most k+1 digits.
length-digits_fuel : (k f n : ℕ) → n < 10 ^ suc k → length (digits_fuel f n) ≤ suc k
unfolding digits_fuel
length-digits_fuel k zero n h = omega arith
length-digits_fuel zero (suc f) n h = ground arith
length-digits_fuel (suc k) (suc f) n h = ground (
  arith,
  length-append (digits_fuel f (n / 10)) ((48 + n % 10) ∷ []),
  length-digits_fuel k f (n / 10) (omega (arith, pow-suc 10 (suc k))),
)

pub length-digits : (k n : ℕ) → n < 10 ^ suc k → length (digits n) ≤ suc k
unfolding digits
length-digits k n h = length-digits_fuel k n n h

decimal_from-append :
    (m c : ℕ) (xs : Bytes) → decimal_from m (xs ++ c ∷ []) ≡ decimal_from m xs * 10 + (c - 48)
decimal_from-append m c [] = refl
decimal_from-append m c (x ∷ xs) = decimal_from-append (m * 10 + (x - 48)) c xs

decimal-digits_fuel : (f n : ℕ) → n ≤ f → decimal (digits_fuel f n) ≡ n
unfolding digits_fuel
decimal-digits_fuel zero n h = omega arith
decimal-digits_fuel (suc f) n h = ground (
  arith,
  decimal_from-append 0 (48 + n % 10) (digits_fuel f (n / 10)),
  decimal-digits_fuel f (n / 10),
)

pub decimal-digits : (n : ℕ) → decimal (digits n) ≡ n
unfolding digits
decimal-digits n = decimal-digits_fuel n n (omega arith)

digits_fuel-IsDigit : (f n : ℕ) → All IsDigit (digits_fuel f n)
unfolding digits_fuel
digits_fuel-IsDigit zero n = omega arith
digits_fuel-IsDigit (suc f) n = ground (
  arith,
  All-append IsDigit (digits_fuel f (n / 10)) ((48 + n % 10) ∷ []) (digits_fuel-IsDigit f (n / 10))
      (omega arith),
)

pub digits-IsDigit : (n : ℕ) → All IsDigit (digits n)
unfolding digits
digits-IsDigit n = digits_fuel-IsDigit n n

digits_fuel-ne-nil : (f n : ℕ) → digits_fuel f n ≢ []
unfolding digits_fuel
digits_fuel-ne-nil zero n = λ e. cc
digits_fuel-ne-nil (suc f) n = ground (arith, concat-ne-nil (48 + n % 10) (digits_fuel f (n / 10)))

pub digits-ne-nil : (n : ℕ) → digits n ≢ []
unfolding digits
digits-ne-nil n = digits_fuel-ne-nil n n
