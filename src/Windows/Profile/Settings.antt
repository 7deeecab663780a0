-- ===== src/Windows/Profile/Settings.antt =====
-- The settings that `ParseServiceProfile` of src/TOMLParse.cc reads on Windows.
use svnsrv.Base.{true, false, Option, some, ◌≡◌, refl}
use svnsrv.Base.Run.{done}
use svnsrv.Base.Text.{Bytes, codes, c_str}
use svnsrv.Profile.{NetworkServerArgs, LauncherArgs}
use svnsrv.Profile.Settings.{IsNetwork, read_network-IsNetwork}
use svnsrv.Toml.{Toml}
use svnsrv.Toml.Reads.{HasString, HasBool, string_or-HasString, bool_or-HasBool}
use svnsrv.Windows.Paths.{System, character_flip, file_or, read_launcher}
use svnsrv.Windows.Profile.{find_profile, read_profile, parse_service_profile}

module _ (toml : Toml) (sys : System) where
  open toml use {Table, parse_file}

  -- The name of a file: the text of its key or the default, from UTF-8 into the code page.
  abbrev pub HasFile : Table → Bytes → Bytes → Bytes → Type 0
  HasFile t key file d =
      (v : Bytes) × HasString toml t key v d × (character_flip sys (some (c_str v)) ≡ some file)

  -- The keys of the launcher's settings.
  pub record IsLauncher (g : Table) (la : LauncherArgs) : Type 0 where
    pub router_file : HasFile g (codes "Router.RangeFile") la.router_file (codes "router.toml")
    pub log_access : HasFile g (codes "Logger.Access") la.log_access (codes "svnsrv.access.log")
    pub log_error : HasFile g (codes "Logger.Error") la.log_error (codes "svnsrv.error.log")
    pub pid_file : HasFile g (codes "Daemon.PidFile") la.pid_file (codes "svnsrv.pid")
    pub restart : HasBool toml g (codes "Daemon.CrashRestart") la.crash_restart false

  file_or-HasFile :
      (t : Table) (key file d : Bytes) → HasFile t key file d → file_or toml sys t key d ≡ done file
  unfolding file_or
  file_or-HasFile t key file d (v, s, e) = rw (string_or-HasString toml t key v d s, e) refl

  read_launcher-IsLauncher :
      (g : Table) (la : LauncherArgs) → IsLauncher g la → read_launcher toml sys g ≡ done la
  unfolding read_launcher
  read_launcher-IsLauncher g la h =
      rw
        (
          file_or-HasFile g (codes "Router.RangeFile") la.router_file (codes "router.toml")
              h.router_file,
          file_or-HasFile g (codes "Logger.Access") la.log_access (codes "svnsrv.access.log")
              h.log_access,
          file_or-HasFile g (codes "Logger.Error") la.log_error (codes "svnsrv.error.log")
              h.log_error,
          file_or-HasFile g (codes "Daemon.PidFile") la.pid_file (codes "svnsrv.pid") h.pid_file,
          bool_or-HasBool toml g (codes "Daemon.CrashRestart") la.crash_restart false h.restart,
        )
        refl

  -- On Windows: if a profile is found and cpptoml reads it, and each key of it is missing or has a
  -- value of its type, a number one of 0 to 2^32 - 1, and the conversion of each file name succeeds,
  -- then the call succeeds with these values, the file names converted, and with the defaults of
  -- Windows for the missing keys.
  pub parse_service_profile-converted :
      (configfile : Option Bytes) (file : Bytes) {g : Table} (na na' : NetworkServerArgs)
      (la la' : LauncherArgs)
      → find_profile sys configfile ≡ done (some file)
      → parse_file file ≡ some g
      → IsNetwork toml g na'
      → IsLauncher g la'
      → parse_service_profile toml sys configfile na la ≡ done (true, na', la')
  unfolding parse_service_profile
  parse_service_profile-converted configfile file {g} na na' la la' f p n l =
      rw (f, read_profile, p, read_network-IsNetwork toml g na' n, read_launcher-IsLauncher g la' l)
