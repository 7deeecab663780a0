-- ===== src/Runtime.antt =====
-- src/Runtime.cc on Linux: the directory of the program, and the files that it looks for. The calls
-- of the system are a record of their answers.
pub mod Folder
pub mod Variants
use svnsrv.Base.{
  ℕ, zero, suc, ◌≤◌, Bool, true, false, not, ◌&&◌, ◌||◌, [], ◌∷◌, ◌++◌, Option, none, some, ◌==◌,
  if◌then◌else◌, is_empty, length, take, get_or,
}
use svnsrv.Base.Run.{Run, done, crash}
use svnsrv.Base.Text.{Bytes, codes, c_str}

-- `readlink` of the program's file, with the bytes it stores, or `none` for -1; whether `stat`
-- finds a name; the home directory of `getpwuid`, or `none` for a null pointer.
pub record System : Type 0 where
  pub self_exe : Option Bytes
  pub stat : Bytes → Bool
  pub home : Option Bytes

abbrev pub path_max : ℕ
path_max = 4096

-- The loop of `PathRemoveFileSpec` at `end`, over the text of `path`. `path[i] = 0` cuts the text
-- off; `none` is the end of the loop.
unfoldable pub cut_at_slash : Bytes → ℕ → Option Bytes
cut_at_slash path zero = none
cut_at_slash path (suc end) =
    if get_or path end 0 == b'/'
    then some (take (if end == 0 then 1 else end) path)
    else cut_at_slash path end

-- The result, and the text after the call; `none` is the null pointer.
unfoldable pub path_remove_file_spec : Option Bytes → ℕ → Bool × Option Bytes
unfolding cut_at_slash
path_remove_file_spec none len = (false, none)
path_remove_file_spec (some path) len =
    if len == 0 then (false, some path) else elim (cut_at_slash path (length path)) [
      | none ↦ (false, some path)
      | some cut ↦ (true, some cut)
    ]

-- The end of `GetProcessImageFileFolder`, with `exe_path` filled. The result is the directory, or
-- `none` for `false`.
unfoldable pub folder_of : Bytes → Option Bytes
unfolding path_remove_file_spec
folder_of exe_path =
    let r = path_remove_file_spec (some exe_path) path_max in if r.0 then r.1 else none

-- `exe_path[len] = 0` is out of bounds where the link fills the array.
unfoldable pub get_process_image_file_folder : System → Run (Option Bytes)
unfolding folder_of
get_process_image_file_folder sys = elim sys.self_exe [
  | none ↦ done none
  | some link ↦
      if length link == 0
      then done none
      else if length link == path_max
      then crash
      else done (folder_of (c_str link))
]

unfoldable pub path_file_is_exists : System → Bytes → Bool
path_file_is_exists sys path = if is_empty path then false else sys.stat (c_str path)

-- `back()` of a text that is not empty.
abbrev pub last_byte : Bytes → ℕ
last_byte [] = 0
last_byte (c ∷ []) = c
last_byte (c ∷ d ∷ cs) = last_byte (d ∷ cs)

abbrev pub without_slash : Bytes → Bytes
without_slash [] = []
without_slash (c ∷ cs) = if c == b'/' then cs else c ∷ cs

-- The directory and the relative path with one slash between them.
unfoldable pub combine : Bytes → Bytes → Bytes
combine dir relative =
    (if not (last_byte dir == b'/') then dir ++ b'/' ∷ [] else dir) ++ without_slash relative

-- The result, and the path after the call. `back()` of an empty home directory is undefined.
unfoldable pub path_combine_home_exists : System → Bytes → Option Bytes → Run (Bool × Bytes)
unfolding path_file_is_exists combine
path_combine_home_exists sys path none = done (false, path)
path_combine_home_exists sys path (some relative) = elim sys.home [
  | none ↦ done (false, path)
  | some [] ↦ crash
  | some (c ∷ cs) ↦
      let full = combine (c ∷ cs) relative in done (path_file_is_exists sys full, full)
]
