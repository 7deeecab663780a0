-- ===== src/Toml.antt =====
-- What the program uses of src/cpptoml.h, a library, as an interface, and its reads with a default:
-- the lambdas of `ParseServiceProfile` (src/TOMLParse.cc), which src/RouterSeletor.cc repeats inline.
pub mod Reads
use svnsrv.Base.{ℕ, Bool, List, Option, none, some, if◌then◌else◌}
use svnsrv.Base.Int.{ℤ}
use svnsrv.Base.Run.{Run, done, crash}
use svnsrv.Base.Text.{Bytes}

-- `get_string`, `get_int` and `get_bool` are `get_qualified(key)->as<T>()` at a key that is there:
-- `none` is the null pointer that `as` gives for a value of another type.
pub record Toml : Type 1 where
  pub Table : Type 0
  -- `none` is a `parse_exception`
  pub parse_file : Bytes → Option Table
  pub contains : Table → Bytes → Bool
  pub get_string : Table → Bytes → Option Bytes
  pub get_int : Table → Bytes → Option ℤ
  pub get_bool : Table → Bytes → Option Bool
  -- `get_table_array_qualified`; `none` is the null pointer
  pub table_array : Table → Bytes → Option (List Table)

-- `->get()` on what `as` gave.
abbrev pub deref {ℓ} : {A : Type ℓ} → Option A → Run A
deref none = crash
deref (some a) = done a

module _ (toml : Toml) where
  open toml use {Table, contains, get_string, get_int, get_bool}

  unfoldable pub string_or : Table → Bytes → Bytes → Run Bytes
  string_or t key v = if contains t key then deref (get_string t key) else done v

  unfoldable pub int_or : Table → Bytes → (ℤ → ℕ) → ℕ → Run ℕ
  int_or t key cast v =
      if contains t key
      then (elim (get_int t key) [ none ↦ crash | some i ↦ done (cast i) ])
      else done v

  unfoldable pub bool_or : Table → Bytes → Bool → Run Bool
  bool_or t key v = if contains t key then deref (get_bool t key) else done v
