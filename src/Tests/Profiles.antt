-- ===== src/Tests/Profiles.antt =====
-- Runs of src/Runtime.cc and of `ParseServiceProfile` of src/TOMLParse.cc, and of their theorems.
use svnsrv.Base.{
  ◌^◌, ◌-◌, true, false, [], ◌∷◌, ◌++◌, none, some, ◌≡◌, ◌⊎◌, inl, inr, refl, if◌then◌else◌,
  is_empty, All, arith,
}
use svnsrv.Base.Run.{done}
use svnsrv.Base.Text.{Bytes, codes, c_str}
use svnsrv.Url.{equal}
use svnsrv.Runtime.{System, path_remove_file_spec, folder_of, path_file_is_exists}
use svnsrv.Runtime.Folder.{NoSlash, path_remove_file_spec-folder}
use svnsrv.Toml.{Toml}
use svnsrv.Profile.{NetworkServerArgs, LauncherArgs, find_profile, parse_service_profile}
use svnsrv.Profile.Search.{first_existing, places, find_profile-first}
use svnsrv.Profile.Settings.{IsNetwork, IsLauncher, parse_service_profile-settings}
use svnsrv.Tests.Routes.{TextTable, text_at, is_there}

path_remove_file_spec-folder_example :
    (All NoSlash (codes "/opt/x")
      × (path_remove_file_spec (some (codes "/opt/x")) 4096 ≡ (false, some (codes "/opt/x"))))
    ⊎ ((dir : Bytes) × (name : Bytes) × (codes "/opt/x" ≡ dir ++ b'/' ∷ name)
        × All NoSlash name
        × (path_remove_file_spec (some (codes "/opt/x")) 4096
            ≡ (true, some (if is_empty dir then b'/' ∷ [] else dir))))
path_remove_file_spec-folder_example =
    path_remove_file_spec-folder (codes "/opt/x") 4096 (omega arith)

-- The directory of a program in the root directory is the root directory.
root_folder : path_remove_file_spec (some (codes "/x")) 4096 ≡ (true, some (codes "/"))
unfolding path_remove_file_spec
root_folder = refl

abbrev pub sample_system : System
sample_system = record {
  self_exe = some (codes "/opt/x");
  stat = λ name. equal name (codes "svnsrv.toml");
  home = some (codes "/root");
}

opt_folder : folder_of (c_str (codes "/opt/x")) ≡ some (codes "/opt")
unfolding folder_of c_str
opt_folder = refl

find_profile-first_example :
    find_profile sample_system none
    ≡ done (first_existing sample_system (places (codes "/opt") (codes "/root")))
find_profile-first_example =
    find_profile-first sample_system (codes "/opt/x") (codes "/opt") b'/' (codes "root") refl
      (omega arith) (omega arith) opt_folder refl

abbrev profile_table : TextTable
profile_table = (codes "Network.Address", codes "0.0.0.0") ∷ []

abbrev profile_toml : Toml
profile_toml = record {
  Table = TextTable;
  parse_file = λ file. some profile_table;
  contains = λ t key. is_there (text_at t key);
  get_string = text_at;
  get_int = λ t key. none;
  get_bool = λ t key. none;
  table_array = λ t key. none;
}

abbrev pub profile_network : NetworkServerArgs
profile_network = record {
  pool_size = 64;
  port = 3690;
  compression_level = 0;
  connect_timeout = 2 ^ 32 - 1;
  is_domain_filter = false;
  is_tunnel = false;
  address = codes "0.0.0.0";
  domain = codes "git.oschina.net";
}

abbrev pub profile_launcher : LauncherArgs
profile_launcher = record {
  pid_file = codes "/tmp/svnsrv.pid";
  log_access = codes "/tmp/svnsrv.access.log";
  log_error = codes "/tmp/svnsrv.error.log";
  router_file = codes "router.toml";
  crash_restart = true;
}

sample-IsNetwork : IsNetwork profile_toml profile_table profile_network
unfolding equal
sample-IsNetwork = record {
  pool_size = inr (refl, refl);
  port = inr (refl, refl);
  level = inr (refl, refl);
  timeout = inr (refl, refl);
  address = inl (refl, refl);
  domain = inr (refl, refl);
  filter = inr (refl, refl);
  tunnel = inr (refl, refl);
}

sample-IsLauncher : IsLauncher profile_toml profile_table profile_launcher
unfolding equal
sample-IsLauncher = record {
  log_access = inr (refl, refl);
  log_error = inr (refl, refl);
  pid_file = inr (refl, refl);
  restart = inr (refl, refl);
  router_file = inr (refl, refl);
}

pub named_profile :
    find_profile sample_system (some (codes "svnsrv.toml")) ≡ done (some (codes "svnsrv.toml"))
unfolding find_profile path_file_is_exists equal c_str
named_profile = refl

abbrev pub no_network : NetworkServerArgs
no_network = record profile_network { pool_size = 0; address = [] }

abbrev pub no_launcher : LauncherArgs
no_launcher = record profile_launcher { pid_file = [] }

parse_service_profile-settings_example :
    parse_service_profile profile_toml sample_system
      (some (codes "svnsrv.toml"))
      no_network
      no_launcher
    ≡ done (true, profile_network, profile_launcher)
parse_service_profile-settings_example =
    parse_service_profile-settings profile_toml sample_system (some (codes "svnsrv.toml"))
      (codes "svnsrv.toml") no_network profile_network no_launcher profile_launcher named_profile
      refl sample-IsNetwork sample-IsLauncher
