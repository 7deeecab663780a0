-- ===== src/Profile/Settings.antt =====
-- The settings that `ParseServiceProfile` of src/TOMLParse.cc reads.
use svnsrv.Base.{true, false, Option, some, ◌≡◌}
use svnsrv.Base.Run.{done}
use svnsrv.Base.Text.{Bytes, codes}
use svnsrv.Runtime.{System}
use svnsrv.Toml.{Toml}
use svnsrv.Toml.Reads.{
  HasString, HasNumber, HasBool, string_or-HasString, int_or-HasNumber, bool_or-HasBool,
}
use svnsrv.Profile.{
  NetworkServerArgs, LauncherArgs, timeout_infinite, find_profile, read_network, read_launcher,
  read_profile, parse_service_profile,
}

module _ (toml : Toml) where
  open toml use {Table, parse_file}

  -- The keys of the network settings, each with its default.
  pub record IsNetwork (g : Table) (na : NetworkServerArgs) : Type 0 where
    pub pool_size : HasNumber toml g (codes "Service.PoolSize") na.pool_size 32 64
    pub port : HasNumber toml g (codes "Network.Port") na.port 32 3690
    pub level : HasNumber toml g (codes "Network.Compression") na.compression_level 32 0
    pub timeout : HasNumber toml g (codes "Network.Timeout") na.connect_timeout 32 timeout_infinite
    pub address : HasString toml g (codes "Network.Address") na.address (codes "127.0.0.1")
    pub domain : HasString toml g (codes "Network.Domain") na.domain (codes "git.oschina.net")
    pub filter : HasBool toml g (codes "Network.DomainFilter") na.is_domain_filter false
    pub tunnel : HasBool toml g (codes "Network.Tunnel") na.is_tunnel false

  -- The keys of the launcher's settings.
  pub record IsLauncher (g : Table) (la : LauncherArgs) : Type 0 where
    pub log_access :
        HasString toml g (codes "Logger.Access") la.log_access (codes "/tmp/svnsrv.access.log")
    pub log_error :
        HasString toml g (codes "Logger.Error") la.log_error (codes "/tmp/svnsrv.error.log")
    pub pid_file : HasString toml g (codes "Daemon.PidFile") la.pid_file (codes "/tmp/svnsrv.pid")
    pub restart : HasBool toml g (codes "Daemon.CrashRestart") la.crash_restart true
    pub router_file :
        HasString toml g (codes "Router.RangeFile") la.router_file (codes "router.toml")

  pub read_network-IsNetwork :
      (g : Table) (na : NetworkServerArgs) → IsNetwork g na → read_network toml g ≡ done na
  unfolding read_network
  read_network-IsNetwork g na h = rw (
    int_or-HasNumber toml g (codes "Service.PoolSize") na.pool_size 32 64 h.pool_size,
    int_or-HasNumber toml g (codes "Network.Port") na.port 32 3690 h.port,
    int_or-HasNumber toml g (codes "Network.Compression") na.compression_level 32 0 h.level,
    int_or-HasNumber toml g (codes "Network.Timeout") na.connect_timeout 32 timeout_infinite
        h.timeout,
    string_or-HasString toml g (codes "Network.Address") na.address (codes "127.0.0.1") h.address,
    string_or-HasString toml g (codes "Network.Domain") na.domain (codes "git.oschina.net")
        h.domain,
    bool_or-HasBool toml g (codes "Network.DomainFilter") na.is_domain_filter false h.filter,
    bool_or-HasBool toml g (codes "Network.Tunnel") na.is_tunnel false h.tunnel,
  )

  read_launcher-IsLauncher :
      (g : Table) (la : LauncherArgs) → IsLauncher g la → read_launcher toml g ≡ done la
  unfolding read_launcher
  read_launcher-IsLauncher g la h = rw (
    string_or-HasString toml g (codes "Logger.Access") la.log_access
        (codes "/tmp/svnsrv.access.log") h.log_access,
    string_or-HasString toml g (codes "Logger.Error") la.log_error (codes "/tmp/svnsrv.error.log")
        h.log_error,
    string_or-HasString toml g (codes "Daemon.PidFile") la.pid_file (codes "/tmp/svnsrv.pid")
        h.pid_file,
    bool_or-HasBool toml g (codes "Daemon.CrashRestart") la.crash_restart true h.restart,
    string_or-HasString toml g (codes "Router.RangeFile") la.router_file (codes "router.toml")
        h.router_file,
  )

  -- If a profile is found and cpptoml reads it, and each key of it is missing or has a value of its
  -- type, a number one of 0 to 2^32 - 1, then the call succeeds with these values, and with the
  -- defaults for the missing keys, whatever the two objects held before.
  pub parse_service_profile-settings :
      (sys : System) (configfile : Option Bytes) (file : Bytes) {g : Table}
      (na na' : NetworkServerArgs) (la la' : LauncherArgs)
      → find_profile sys configfile ≡ done (some file)
      → parse_file file ≡ some g
      → IsNetwork g na'
      → IsLauncher g la'
      → parse_service_profile toml sys configfile na la ≡ done (true, na', la')
  unfolding parse_service_profile
  parse_service_profile-settings sys configfile file {g} na na' la la' f p n l =
      rw (f, read_profile, p, read_network-IsNetwork g na' n, read_launcher-IsLauncher g la' l)
