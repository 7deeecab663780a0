-- ===== src/Base/Text.antt =====
-- Texts as lists of bytes, and the decimal numerals that the C library reads from them.
use Prim.Native.Char.{code}
use Prim.Native.String.{String}
use Prim.Native.Nat.{ℕ, ◌+◌, ◌-◌, ◌*◌, ◌^◌, ◌≤◌, ◌<◌}
use mathlib.Core.Path.{◌≡◌, refl}
use mathlib.Core.Logic.{◌≢◌}
use native.Mathlib.Omega.{arith}
use mathlib.Core.List.{List, [], ◌∷◌, ◌++◌}
use svnsrv.Base.Lists.{All}
use svnsrv.Base.Tests.{◌==◌, if◌then◌else◌}
use svnsrv.Base.Int.{ℤ, pos, negsuc}

abbrev pub Bytes : Type 0
Bytes = List ℕ

-- The bytes of an ASCII literal.
abbrev pub codes : String → Bytes
codes String.[] = []
codes (String.◌∷◌ c s) = code c ∷ codes s

-- The text of a `std::string` as `c_str()` shows it, up to its first zero byte.
unfoldable pub c_str : Bytes → Bytes
c_str [] = []
c_str (c ∷ cs) = if c == 0 then [] else c ∷ c_str cs

pub c_str-no_zero : (text : Bytes) → All (λ c. c ≢ 0) text → c_str text ≡ text
unfolding c_str
c_str-no_zero [] h = refl
c_str-no_zero (c ∷ cs) h = ground (arith, c_str-no_zero cs h.1)

-- Strings one behind the other, each with a zero byte behind it.
abbrev pub laid_out : List Bytes → Bytes
laid_out [] = []
laid_out (a ∷ as_) = a ++ 0 ∷ laid_out as_

abbrev pub IsText : Bytes → Type 0
IsText text = All (λ c. c ≢ 0) text

pub c_str-append : (text rest : Bytes) → IsText text → c_str (text ++ 0 ∷ rest) ≡ text
unfolding c_str
c_str-append [] rest h = refl
c_str-append (c ∷ cs) rest h = ground (arith, c_str-append cs rest h.1)

abbrev pub IsDigit : ℕ → Type 0
IsDigit c = (48 ≤ c) × (c ≤ 57)

abbrev pub decimal_from : ℕ → Bytes → ℕ
decimal_from n [] = n
decimal_from n (c ∷ cs) = decimal_from (n * 10 + (c - 48)) cs

-- The number that a run of decimal digits stands for.
abbrev pub decimal : Bytes → ℕ
decimal = decimal_from 0

-- What the program relies on of `strtol(s, &end, 10)`: it reads a run of decimal digits as their
-- value where a 64-bit `long` holds it, and a minus sign in front of one as its negation.
pub record Strtol : Type 0 where
  pub strtol : Bytes → ℤ
  pub reads_digits :
      (ds : Bytes) → All IsDigit ds → decimal ds < 2 ^ 63 → strtol ds ≡ pos (decimal ds)
  pub reads_minus :
      (ds : Bytes) (n : ℕ)
      → All IsDigit ds
      → decimal ds ≡ n + 1
      → n < 2 ^ 63
      → strtol (b'-' ∷ ds) ≡ negsuc n
