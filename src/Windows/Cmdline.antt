-- ===== src/Windows/Cmdline.antt =====
-- `FindSelfExecuteFileName`, `InternalPathGetArgsW` and `build_cmdline` of src/daemonize_win.inl.
pub mod Room
use svnsrv.Base.{
  ℕ, Bool, true, false, not, ◌&&◌, [], ◌∷◌, ◌++◌, Option, none, some, ◌==◌, ltb, if◌then◌else◌,
  is_empty, length, take,
}
use svnsrv.Base.Run.{Run, done, crash, ◌>>=◌}
use svnsrv.Base.Text.{Bytes, c_str}

-- The text of a buffer of `size` characters that ends before `size`, after `wcsncpy` with that size.
-- A text that fills the buffer leaves it without an end.
unfoldable pub wcsncpy : ℕ → Bytes → Run Bytes
wcsncpy size text = if ltb (length text) size then done text else crash

-- `wcsncat` with the size of the buffer: it puts at most so many characters behind the text, and an
-- end behind them, wherever the buffer ends.
unfoldable pub wcsncat : ℕ → Bytes → Bytes → Run Bytes
wcsncat size text more =
    let joined = text ++ take size more in if ltb (length joined) size then done joined else crash

unfoldable pub has_space : Bytes → Bool
has_space [] = false
has_space (c ∷ cs) = let rest = has_space cs in if c == b' ' then true else rest

-- A name in quotes, put together in the buffer.
unfoldable pub enclose : ℕ → Bytes → Run (Option Bytes)
unfolding wcsncpy wcsncat
enclose size path = wcsncpy size (b'"' ∷ []) >>= λ quote. wcsncat size quote path >>= λ named.
    wcsncat size named (b'"' ∷ []) >>= λ closed. done (some closed)

-- The buffer with the name of the program, in quotes where it has a space, or `none` for `false`. The
-- name is what `GetModuleFileName` gives.
unfoldable pub find_self_execute_file_name : ℕ → Option Bytes → Run (Option Bytes)
unfolding enclose wcsncpy has_space
find_self_execute_file_name size none = done none
find_self_execute_file_name size (some path) =
    if has_space path then enclose size path else wcsncpy size path >>= λ copied. done (some copied)

-- The loop of `InternalPathGetArgsW`, with `bSeenQuote`: the text behind the first space that no
-- quotes enclose.
unfoldable pub path_get_args : Bool → Bytes → Bytes
path_get_args seen_quote [] = []
path_get_args seen_quote (c ∷ cs) =
    let rest = path_get_args (if c == b'"' then not seen_quote else seen_quote) cs in
    if (c == b' ') && not seen_quote then cs else rest

-- The buffer after the call, or `none` for `false`.
unfoldable pub build_cmdline : ℕ → Option Bytes → Bytes → Run (Option Bytes)
unfolding find_self_execute_file_name path_get_args wcsncat
build_cmdline size name oldcmd =
    if is_empty oldcmd
    then done none
    else find_self_execute_file_name size name >>= λ found. elim found [
      | none ↦ done none
      | some self ↦ wcsncat size self (b' ' ∷ []) >>= λ spaced.
          wcsncat size spaced (path_get_args false (c_str oldcmd)) >>= λ line. done (some line)
    ]
