-- ===== src/Windows/Paths.antt =====
-- The Windows parts of src/Runtime.cc and src/TOMLParse.cc: the conversions between texts and wide
-- texts, the files that the program looks for, and the names of files in the settings. The calls of
-- the system are a record of their answers.
use svnsrv.Base.{
  Bool, true, false, not, [], ◌∷◌, ◌++◌, Option, none, some, ◌==◌, if◌then◌else◌, is_empty,
}
use svnsrv.Base.Run.{Run, done, crash, ◌>>=◌}
use svnsrv.Base.Text.{Bytes, codes, c_str}
use svnsrv.Runtime.{last_byte}
use svnsrv.Profile.{LauncherArgs}
use svnsrv.Toml.{Toml, string_or, bool_or}

-- `WideCharToMultiByte` for the code page, and `MultiByteToWideChar` from it and from UTF-8, with
-- `none` for the result 0; `GetModuleFileNameW` and `SHGetKnownFolderPath`, with `none` for a
-- failure; `PathRemoveFileSpecW`, with `none` where it removes nothing; and whether
-- `GetFileAttributesW` gives attributes, also of the null pointer.
pub record System : Type 0 where
  pub to_page : Bytes → Option Bytes
  pub from_page : Bytes → Option Bytes
  pub from_utf8 : Bytes → Option Bytes
  pub module_name : Option Bytes
  pub profile_folder : Option Bytes
  pub without_file : Bytes → Option Bytes
  pub has_attributes : Option Bytes → Bool

-- The array of a `new` with one character more than its length, which is set to 0.
abbrev pub filled : Option Bytes → Bytes
filled none = []
filled (some text) = c_str text

-- `CharacterA`, and its `Get`
unfoldable pub character_a : System → Option Bytes → Option Bytes
character_a sys none = none
character_a sys (some wstr) = some (filled (sys.to_page wstr))

-- `CharacterW`, and its `Get`
unfoldable pub character_w : System → Option Bytes → Option Bytes
character_w sys none = none
character_w sys (some str) = elim (sys.from_page str) [
  | none ↦ none
  | some wide ↦ some (c_str wide)
]

-- `CharacterFlip`, and its `Get`
unfoldable pub character_flip : System → Option Bytes → Option Bytes
character_flip sys none = none
character_flip sys (some u8) = elim (sys.from_utf8 u8) [
  | none ↦ none
  | some wide ↦ some (filled (sys.to_page (c_str wide)))
]

-- `std::string = const char *`
abbrev pub assigned : Option Bytes → Run Bytes
assigned none = crash
assigned (some text) = done text

-- The result is the directory, or `none` for `false`.
unfoldable pub get_process_image_file_folder : System → Run (Option Bytes)
unfolding character_a
get_process_image_file_folder sys = elim sys.module_name [
  | none ↦ done none
  | some name ↦ elim (sys.without_file name) [
    | none ↦ done none
    | some folder ↦ assigned (character_a sys (some folder)) >>= λ dir. done (some dir)
  ]
]

unfoldable pub path_file_is_exists : System → Bytes → Bool
unfolding character_w
path_file_is_exists sys path =
    if is_empty path then false else sys.has_attributes (character_w sys (some (c_str path)))

unfoldable pub without_slash : Bytes → Bytes
without_slash [] = []
without_slash (c ∷ cs) = if c == b'\\' then cs else if c == b'/' then cs else c ∷ cs

-- The directory and the relative path with one backslash between them.
unfoldable pub combine : Bytes → Bytes → Bytes
unfolding without_slash
combine dir relative =
    (if not (last_byte dir == b'\\') then dir ++ b'\\' ∷ [] else dir) ++ without_slash relative

-- The path in a home directory whose name was converted. `back()` of an empty text is undefined.
unfoldable pub under_home : Option Bytes → Bytes → Run (Bool × Bytes)
unfolding combine
under_home none relative = crash
under_home (some home) relative =
    if is_empty home then crash else done (true, combine home relative)

-- What follows `SHGetKnownFolderPath`, by its answer.
unfoldable pub in_profile : System → Bytes → Bytes → Option Bytes → Run (Bool × Bytes)
unfolding character_a under_home
in_profile sys path relative none = done (false, path)
in_profile sys path relative (some buffer) = under_home (character_a sys (some buffer)) relative

-- The same where the compiler is no Microsoft one: `getenv("USERPROFILE")`, or `none` for a null pointer.
unfoldable pub in_user_profile : Option Bytes → Bytes → Run (Bool × Bytes)
unfolding under_home
in_user_profile none relative = crash
in_user_profile (some home) relative = under_home (some home) relative

-- The result, and the path after the call, which is not looked for.
unfoldable pub path_combine_home_exists : System → Bytes → Option Bytes → Run (Bool × Bytes)
unfolding in_profile
path_combine_home_exists sys path none = done (false, path)
path_combine_home_exists sys path (some relative) = in_profile sys path relative sys.profile_folder

module _ (toml : Toml) where
  open toml use {Table}

  -- The name of a file in the settings, in the code page.
  unfoldable pub file_or : System → Table → Bytes → Bytes → Run Bytes
  unfolding character_flip
  file_or sys g key otherwise =
      string_or toml g key otherwise >>= λ file. assigned (character_flip sys (some (c_str file)))

  unfoldable pub read_launcher : System → Table → Run LauncherArgs
  unfolding file_or
  read_launcher sys g =
      file_or sys g (codes "Router.RangeFile") (codes "router.toml") >>= λ router_file.
      file_or sys g (codes "Logger.Access") (codes "svnsrv.access.log") >>= λ log_access.
      file_or sys g (codes "Logger.Error") (codes "svnsrv.error.log") >>= λ log_error.
      file_or sys g (codes "Daemon.PidFile") (codes "svnsrv.pid") >>= λ pid_file.
      bool_or toml g (codes "Daemon.CrashRestart") false >>= λ restart. done (record {
        pid_file = pid_file;
        log_access = log_access;
        log_error = log_error;
        router_file = router_file;
        crash_restart = restart;
      })
