-- ===== src/Tests/Concrete.antt =====
-- A concrete `strtol`, for base 10, to run the definitions with.
use svnsrv.Base.{
  ℕ, zero, suc, ◌+◌, [], ◌∷◌, ◌≡◌, refl, ◌∙◌, ap, ◌==◌, ◌&&◌, leb, if◌then◌else◌, All, arith,
}
use svnsrv.Base.Int.{ℤ, pos, negsuc}
use svnsrv.Base.Text.{Bytes, IsDigit, decimal, Strtol}

abbrev pub leading_digits : Bytes → Bytes
leading_digits [] = []
leading_digits (c ∷ cs) = if leb 48 c && leb c 57 then c ∷ leading_digits cs else []

abbrev pub negated : ℕ → ℤ
negated zero = pos 0
negated (suc n) = negsuc n

abbrev pub read_long : Bytes → ℤ
read_long [] = pos 0
read_long (c ∷ cs) =
    if c == b'-'
    then negated (decimal (leading_digits cs))
    else pos (decimal (leading_digits (c ∷ cs)))

pub leading_digits-all : (ds : Bytes) → All IsDigit ds → leading_digits ds ≡ ds
leading_digits-all [] h = refl
leading_digits-all (c ∷ cs) h = ground (arith, leading_digits-all cs h.1)

pub read_long-digits : (ds : Bytes) → All IsDigit ds → read_long ds ≡ pos (decimal ds)
read_long-digits [] h = refl
read_long-digits (c ∷ cs) h = ground (arith, leading_digits-all cs h.1)

pub read_long-minus :
    (ds : Bytes) (n : ℕ) → All IsDigit ds → decimal ds ≡ n + 1 → read_long (b'-' ∷ ds) ≡ negsuc n
read_long-minus ds n h e =
    let next : decimal ds ≡ suc n = omega (arith, e) in
    ap (λ x. negated (decimal x)) (leading_digits-all ds h) ∙ ap negated next

abbrev pub long_reader : Strtol
long_reader = record {
  strtol = read_long;
  reads_digits = λ ds h lt. read_long-digits ds h;
  reads_minus = λ ds n h e lt. read_long-minus ds n h e;
}
