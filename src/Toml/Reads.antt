-- ===== src/Toml/Reads.antt =====
-- What a key of a TOML table holds, and the reads with a default of src/TOMLParse.cc.
use native.Mathlib.Nat.{mod-eq_of_lt}
use svnsrv.Base.{ap, inl, inr, ℕ, ◌<◌, ◌^◌, Bool, true, false, some, ◌≡◌, ◌⊎◌, arith}
use svnsrv.Base.Int.{pos, to_unsigned}
use svnsrv.Base.Run.{done}
use svnsrv.Base.Text.{Bytes}
use svnsrv.Toml.{Toml, string_or, int_or, bool_or}

module _ (toml : Toml) where
  open toml use {Table, contains, get_string, get_int, get_bool}

  -- The value of a text key: it is there with this value, or it is missing and has the default.
  abbrev pub HasString : Table → Bytes → Bytes → Bytes → Type 0
  HasString t key v d =
      ((contains t key ≡ true) × (get_string t key ≡ some v)) ⊎ ((contains t key ≡ false) × (v ≡ d))

  -- The same for a number that fits an unsigned type of `w` bits.
  abbrev pub HasNumber : Table → Bytes → ℕ → ℕ → ℕ → Type 0
  HasNumber t key v w d =
      ((contains t key ≡ true) × (get_int t key ≡ some (pos v)) × (v < 2 ^ w))
      ⊎ ((contains t key ≡ false) × (v ≡ d))

  abbrev pub HasBool : Table → Bytes → Bool → Bool → Type 0
  HasBool t key v d =
      ((contains t key ≡ true) × (get_bool t key ≡ some v)) ⊎ ((contains t key ≡ false) × (v ≡ d))

  pub string_or-HasString :
      (t : Table) (key v d : Bytes) → HasString t key v d → string_or toml t key d ≡ done v
  unfolding string_or
  string_or-HasString t key v d h = ground arith

  pub int_or-HasNumber :
      (t : Table) (key : Bytes) (v w d : ℕ)
      → HasNumber t key v w d
      → int_or toml t key (to_unsigned w) d ≡ done v
  unfolding int_or
  int_or-HasNumber t key v w d (inl (c, g, lt)) = rw (c, g) (ap done (mod-eq_of_lt lt))
  int_or-HasNumber t key v w d (inr (c, e)) = ground arith

  pub bool_or-HasBool :
      (t : Table) (key : Bytes) (v d : Bool) → HasBool t key v d → bool_or toml t key d ≡ done v
  unfolding bool_or
  bool_or-HasBool t key v d h = ground arith
