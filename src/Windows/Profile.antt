-- ===== src/Windows/Profile.antt =====
-- `ParseServiceProfile` of src/TOMLParse.cc on Windows.
pub mod Search
pub mod Settings
use svnsrv.Base.{Bool, true, false, [], ◌∷◌, ◌++◌, Option, none, some, if◌then◌else◌}
use svnsrv.Base.Run.{Run, done, ◌>>=◌}
use svnsrv.Base.Text.{Bytes, codes}
use svnsrv.Profile.{NetworkServerArgs, LauncherArgs, profile_name, read_network}
use svnsrv.Toml.{Toml}
use svnsrv.Windows.Paths.{
  System, get_process_image_file_folder, path_file_is_exists, path_combine_home_exists,
  read_launcher,
}

-- The search behind the directory of the program, with the name that was tried there.
unfoldable pub find_elsewhere : System → Bytes → Run (Option Bytes)
unfolding path_file_is_exists path_combine_home_exists profile_name
find_elsewhere sys toml_file =
    if path_file_is_exists sys profile_name
    then done (some profile_name)
    else path_combine_home_exists sys toml_file (some (codes ".svnsrv/svnsrv.toml")) >>= λ r.
        done (if r.0 then some r.1 else none)

unfoldable pub find_default : System → Option Bytes → Run (Option Bytes)
unfolding find_elsewhere
find_default sys none = done none
find_default sys (some dir) =
    let toml_file = dir ++ codes "/svnsrv.toml" in
    if path_file_is_exists sys toml_file
    then done (some toml_file)
    else find_elsewhere sys toml_file

-- The file to read, or `none` for an early `return false`. The argument is `configfile`, with
-- `none` for the null pointer.
unfoldable pub find_profile : System → Option Bytes → Run (Option Bytes)
unfolding get_process_image_file_folder find_default
find_profile sys none = get_process_image_file_folder sys >>= λ dir. find_default sys dir
find_profile sys (some file) = done (if path_file_is_exists sys file then some file else none)

module _ (toml : Toml) where
  open toml use {Table, parse_file}

  -- From the file on. The result, and the two objects after the call.
  unfoldable pub read_profile :
      System
      → Option Bytes
      → NetworkServerArgs
      → LauncherArgs
      → Run (Bool × NetworkServerArgs × LauncherArgs)
  unfolding read_network read_launcher
  read_profile sys none na la = done (false, na, la)
  read_profile sys (some file) na la = elim (parse_file file) [
    | none ↦ done (false, na, la)
    | some g ↦
        read_network toml g >>= λ na'. read_launcher toml sys g >>= λ la'. done (true, na', la')
  ]

  unfoldable pub parse_service_profile :
      System
      → Option Bytes
      → NetworkServerArgs
      → LauncherArgs
      → Run (Bool × NetworkServerArgs × LauncherArgs)
  unfolding find_profile read_profile
  parse_service_profile sys configfile na la =
      find_profile sys configfile >>= λ file. read_profile sys file na la
