-- ===== src/Profile.antt =====
-- `ParseServiceProfile` of src/TOMLParse.cc on a POSIX system, with the settings of src/svnsrv.h.
pub mod Search
pub mod Settings
use svnsrv.Base.{ℕ, ◌-◌, ◌^◌, Bool, true, false, [], ◌∷◌, ◌++◌, Option, none, some, if◌then◌else◌}
use svnsrv.Base.Int.{ℤ, to_unsigned}
use svnsrv.Base.Run.{Run, done, ◌>>=◌}
use svnsrv.Base.Text.{Bytes, codes}
use svnsrv.Runtime.{
  System, get_process_image_file_folder, path_file_is_exists, path_combine_home_exists,
}
use svnsrv.Toml.{Toml, string_or, int_or, bool_or}

pub record NetworkServerArgs : Type 0 where
  pub pool_size : ℕ
  pub port : ℕ
  pub compression_level : ℕ
  pub connect_timeout : ℕ
  pub is_domain_filter : Bool
  pub is_tunnel : Bool
  pub address : Bytes
  pub domain : Bytes

pub record LauncherArgs : Type 0 where
  pub pid_file : Bytes
  pub log_access : Bytes
  pub log_error : Bytes
  pub router_file : Bytes
  pub crash_restart : Bool

-- `TIMEOUT_INFINITE`, `(uint32_t)-1`
abbrev pub timeout_infinite : ℕ
timeout_infinite = 2 ^ 32 - 1

unfoldable pub profile_name : Bytes
profile_name = codes "svnsrv.toml"

-- The search behind the directory of the program, with the name that was tried there.
unfoldable pub find_elsewhere : System → Bytes → Run (Option Bytes)
unfolding path_file_is_exists path_combine_home_exists profile_name
find_elsewhere sys toml_file =
    if path_file_is_exists sys profile_name
    then done (some profile_name)
    else path_combine_home_exists sys toml_file (some (codes ".svnsrv/svnsrv.toml")) >>= λ r.
        done (if r.0 then some r.1 else none)

unfoldable pub find_default : System → Option Bytes → Run (Option Bytes)
unfolding find_elsewhere
find_default sys none = done none
find_default sys (some dir) =
    let toml_file = dir ++ codes "/svnsrv.toml" in
    if path_file_is_exists sys toml_file
    then done (some toml_file)
    else find_elsewhere sys toml_file

-- The file to read, or `none` for an early `return false`. The argument is `configfile`, with
-- `none` for the null pointer.
unfoldable pub find_profile : System → Option Bytes → Run (Option Bytes)
unfolding get_process_image_file_folder find_default
find_profile sys none = get_process_image_file_folder sys >>= λ dir. find_default sys dir
find_profile sys (some file) = done (if path_file_is_exists sys file then some file else none)

module _ (toml : Toml) where
  open toml use {Table, parse_file}

  unfoldable pub read_network : Table → Run NetworkServerArgs
  read_network g = int_or toml g (codes "Service.PoolSize") (to_unsigned 32) 64 >>= λ pool_size.
      int_or toml g (codes "Network.Port") (to_unsigned 32) 3690 >>= λ port.
      int_or toml g (codes "Network.Compression") (to_unsigned 32) 0 >>= λ level.
      int_or toml g (codes "Network.Timeout") (to_unsigned 32) timeout_infinite >>= λ timeout.
      string_or toml g (codes "Network.Address") (codes "127.0.0.1") >>= λ address.
      string_or toml g (codes "Network.Domain") (codes "git.oschina.net") >>= λ domain.
      bool_or toml g (codes "Network.DomainFilter") false >>= λ filter.
      bool_or toml g (codes "Network.Tunnel") false >>= λ tunnel. done (record {
        pool_size = pool_size;
        port = port;
        compression_level = level;
        connect_timeout = timeout;
        is_domain_filter = filter;
        is_tunnel = tunnel;
        address = address;
        domain = domain;
      })

  unfoldable pub read_launcher : Table → Run LauncherArgs
  read_launcher g =
      string_or toml g (codes "Logger.Access") (codes "/tmp/svnsrv.access.log") >>= λ log_access.
      string_or toml g (codes "Logger.Error") (codes "/tmp/svnsrv.error.log") >>= λ log_error.
      string_or toml g (codes "Daemon.PidFile") (codes "/tmp/svnsrv.pid") >>= λ pid_file.
      bool_or toml g (codes "Daemon.CrashRestart") true >>= λ restart.
      string_or toml g (codes "Router.RangeFile") (codes "router.toml") >>= λ router_file.
      done (record {
        pid_file = pid_file;
        log_access = log_access;
        log_error = log_error;
        router_file = router_file;
        crash_restart = restart;
      })

  -- From the file on. The result, and the two objects after the call.
  unfoldable pub read_profile :
      Option Bytes
      → NetworkServerArgs
      → LauncherArgs
      → Run (Bool × NetworkServerArgs × LauncherArgs)
  unfolding read_network read_launcher
  read_profile none na la = done (false, na, la)
  read_profile (some file) na la = elim (parse_file file) [
    | none ↦ done (false, na, la)
    | some g ↦ read_network g >>= λ na'. read_launcher g >>= λ la'. done (true, na', la')
  ]

  unfoldable pub parse_service_profile :
      System
      → Option Bytes
      → NetworkServerArgs
      → LauncherArgs
      → Run (Bool × NetworkServerArgs × LauncherArgs)
  unfolding find_profile read_profile
  parse_service_profile sys configfile na la =
      find_profile sys configfile >>= λ file. read_profile file na la
