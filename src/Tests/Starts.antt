-- ===== src/Tests/Starts.antt =====
-- Runs of src/main.cc, and of its theorems.
use svnsrv.Base.{
  ℕ, true, ◌||◌, List, [], ◌∷◌, ◌++◌, Option, none, some, ◌≡◌, inr, refl, if◌then◌else◌, arith,
}
use svnsrv.Base.Run.{done, Whenever}
use svnsrv.Base.Text.{Bytes, codes, c_str}
use svnsrv.Url.{equal}
use svnsrv.Daemon.Launch.{failed}
use svnsrv.Profile.{NetworkServerArgs, find_profile}
use svnsrv.Profile.Settings.{IsNetwork, IsLauncher}
use svnsrv.Router.{StorageElement, RouterSeletor}
use svnsrv.Main.{
  Options, no_options, parse_options, saved_argv, World, serves, opens_logs, handles_int, main,
}
use svnsrv.Main.Configured.{IsConfigured}
use svnsrv.Main.Parsing.{given, last_given, parse_options-chosen}
use svnsrv.Main.Start.{Justified, WhenServes, main-serves}
use svnsrv.Main.Proxy.{main-proxy}
use svnsrv.Base.Decimal.{digits}
use svnsrv.Session.{Env}
use svnsrv.Session.System.{Config, env_at, accepted, Reach}
use svnsrv.Session.Flow.{storage_bytes, client_bytes, IsRelaying}
use svnsrv.Session.Opening.{connecting_to}
use svnsrv.Session.Routing.{url_of, answer_of, machine, IsUsable}
use svnsrv.Tests.Concrete.{long_reader}
use svnsrv.Tests.Relays.{sample_client, sample_chunks, sample-IsClient, waiting_session}
use svnsrv.Tests.Sessions.{sample_env, moment}
use svnsrv.Tests.Daemons.{pid_reader, fresh_host, good_calls, shown}
use svnsrv.Tests.Profiles.{
  profile_network, profile_launcher, sample_system, named_profile, no_network, no_launcher,
}
use svnsrv.Tests.Routes.{text_toml, row_table, root_table, sample_host, sample-IsRouting}

abbrev command_line : List (ℕ × Option Bytes)
command_line = (b'D', none) ∷ (b'c', some (codes "svnsrv.toml")) ∷ []

parse_options-chosen_example : parse_options command_line no_options ≡ (
    if given b'?' command_line || given b'h' command_line
    then none
    else some (record {
      daemon = given b'D' command_line;
      config = last_given b'c' command_line none;
      debug = given b'd' command_line;
      version = given b'v' command_line;
      quiet = given b'q' command_line;
      signame = last_given b's' command_line none;
    }))
parse_options-chosen_example = parse_options-chosen command_line

-- A start in the foreground with the profile of the command line.
abbrev pub sample_world : World
sample_world = record {
  getopt = λ argv. (b'c', some (codes "svnsrv.toml")) ∷ [];
  system = sample_system;
  scan = pid_reader.scan;
  host = fresh_host;
  killed = true;
  later = fresh_host;
  proc = shown;
  restart_fork = failed;
  exec_error = none;
  calls = good_calls;
  is_worker = true;
}

abbrev typed : List Bytes
typed = codes "svnsrv" ∷ codes "-c" ∷ codes "svnsrv.toml" ∷ []

main-serves_example :
    Whenever
      (WhenServes (
        Justified text_toml sample_world no_network no_launcher
          (parse_options (sample_world.getopt (saved_argv 3 typed)) no_options)))
      (main text_toml sample_world no_network no_launcher 3 typed)
main-serves_example = main-serves text_toml sample_world no_network no_launcher 3 typed

abbrev foreground : Options
foreground = record no_options { config = some (codes "svnsrv.toml") }

foreground_line :
    parse_options (sample_world.getopt (saved_argv 3 typed)) no_options ≡ some foreground
unfolding parse_options
foreground_line = refl

abbrev pub default_network : NetworkServerArgs
default_network = record profile_network { address = codes "127.0.0.1" }

default-IsNetwork : IsNetwork text_toml root_table default_network
unfolding equal
default-IsNetwork = record {
  pool_size = inr (refl, refl);
  port = inr (refl, refl);
  level = inr (refl, refl);
  timeout = inr (refl, refl);
  address = inr (refl, refl);
  domain = inr (refl, refl);
  filter = inr (refl, refl);
  tunnel = inr (refl, refl);
}

default-IsLauncher : IsLauncher text_toml root_table profile_launcher
unfolding equal
default-IsLauncher = record {
  log_access = inr (refl, refl);
  log_error = inr (refl, refl);
  pid_file = inr (refl, refl);
  restart = inr (refl, refl);
  router_file = inr (refl, refl);
}

machine-IsUsable :
    IsUsable
      (env_at sample_env (moment 3))
      (url_of sample_client)
      (machine (sample_host ∷ []) (codes "10.0.0.1") 3690 b'o' b'w')
unfolding c_str digits
machine-IsUsable = (refl, refl, omega arith)

abbrev filled_env : RouterSeletor → Env
filled_env router = record sample_env { router = router }

pub sample-IsConfigured :
    {w : World} {o : Options}
    → find_profile w.system o.config ≡ done (some (codes "svnsrv.toml"))
    → IsConfigured text_toml w o default_network profile_launcher
        (row_table ∷ root_table ∷ [])
        (sample_host ∷ [])
        (codes "10.0.0.1")
        3690
        (codes "svnsrv.toml")
        root_table
        root_table
sample-IsConfigured f = record {
  found = f;
  profile = refl;
  network = default-IsNetwork;
  launcher = default-IsLauncher;
  named = λ e. cc;
  table = refl;
  routing = sample-IsRouting;
}

abbrev first_machine : StorageElement
first_machine = machine (sample_host ∷ []) (codes "10.0.0.1") 3690 b'o' b'w'

abbrev to_first : RouterSeletor → Config
to_first router =
    connecting_to (filled_env router) (moment 3) waiting_session sample_client first_machine

main-proxy_example :
    (router : RouterSeletor) × (c' : Config) × (main text_toml sample_world no_network no_launcher 3
        typed
      ≡ done (
        serves default_network router sample_world.host,
        opens_logs (c_str profile_launcher.log_access) (c_str profile_launcher.log_error)
            ∷ handles_int
            ∷ [],
      ))
    × Reach (filled_env router) (accepted waiting_session) (to_first router)
    × Reach (filled_env router) (to_first router) c'
    × IsRelaying c'
    × (c'.to_backend ≡ answer_of sample_client ++ client_bytes sample_chunks)
    × (c'.to_client ≡ storage_bytes sample_chunks)
main-proxy_example =
    main-proxy text_toml sample_world long_reader sample_env (moment 3) no_network default_network
      no_launcher profile_launcher 3 typed foreground (codes "svnsrv.toml") waiting_session
      sample_client (codes "( )") sample_chunks foreground_line (refl, refl, refl)
      (sample-IsConfigured named_profile) refl sample-IsClient (omega arith) (omega arith)
      machine-IsUsable (omega arith) (omega arith) (omega arith)
