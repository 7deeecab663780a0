-- ===== src/Base/Int.antt =====
-- Signed integers over the native numbers, and their conversions to machine words.
use Prim.Native.Nat.{ℕ, ◌-◌, ◌%◌, ◌^◌}
use svnsrv.Base.Tests.{ltb, if◌then◌else◌}

-- `negsuc n` is -(n + 1).
pub data ℤ : Type 0 where
  pos : ℕ → ℤ
  negsuc : ℕ → ℤ

-- The value modulo 2^w, as a conversion to an unsigned type of w bits gives it.
abbrev pub to_unsigned : ℕ → ℤ → ℕ
to_unsigned w (pos n) = n % 2 ^ w
to_unsigned w (negsuc n) = 2 ^ w - 1 - n % 2 ^ w

-- The value of a `char` with the given byte, where `char` is signed: -128 to 127.
abbrev pub signed_char : ℕ → ℤ
signed_char c = if ltb c 128 then pos c else negsuc (255 - c)
