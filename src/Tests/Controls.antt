-- ===== src/Tests/Controls.antt =====
-- A daemon of src/main.cc that is started, met and stopped.
use svnsrv.Base.{ℕ, true, false, [], ◌∷◌, Option, none, some, ◌≡◌, refl, arith}
use svnsrv.Base.Int.{pos, negsuc}
use svnsrv.Base.Run.{done}
use svnsrv.Base.Text.{Bytes, codes, c_str}
use svnsrv.Profile.{find_profile}
use svnsrv.Router.{RouterSeletor}
use svnsrv.Daemon.Pid.{check_pid}
use svnsrv.Daemon.Launch.{running_text}
use svnsrv.Daemon.Single.{Starts, launched}
use svnsrv.Daemon.Restart.{terminates, waits_for, stop_success, not_running}
use svnsrv.Main.{
  Options, no_options, parse_options, saved_argv, World, exits_with, serves, commands, handles_usr1,
  complains, require_exit, kill_process_failed, says, wait_returns,
}
use svnsrv.Main.Control.{opened, Invoked, run_of, Meets, main-controls}
use svnsrv.Tests.Daemons.{pid_reader, fresh_host, good_calls}
use svnsrv.Tests.Profiles.{profile_launcher, named_profile, no_network, no_launcher}
use svnsrv.Tests.Routes.{text_toml, row_table, root_table, sample_host}
use svnsrv.Tests.Starts.{sample_world, default_network, sample-IsConfigured}

-- The command line with `-c` and one more option.
abbrev worded : ℕ → Option Bytes → World
worded ch optarg = record sample_world {
  getopt = λ argv. (ch, optarg) ∷ (b'c', some (codes "svnsrv.toml")) ∷ [];
}

abbrev starting : World
starting = worded b'D' none

abbrev pid_file : Bytes
pid_file = profile_launcher.pid_file

-- The process 5, after the start.
abbrev meeting : World → World
meeting w = record w {
  host = record (launched good_calls fresh_host (c_str pid_file)).host { own = 5 };
}

abbrev again : World
again = meeting starting

abbrev stopping : World
stopping = meeting (worded b's' (some (codes "stop")))

abbrev late : World
late = record stopping { host = record stopping.host { exists = λ pid. false } }

abbrev daemon_asked : Options
daemon_asked = record no_options { daemon = true; config = some (codes "svnsrv.toml") }

abbrev stop_asked : Options
stop_asked = record no_options {
  config = some (codes "svnsrv.toml");
  signame = some (codes "stop");
}

sample-Invoked :
    (w : World) (o : Options)
    → parse_options (w.getopt (saved_argv 0 [])) no_options ≡ some o
    → o.version ≡ false
    → find_profile w.system o.config ≡ done (some (codes "svnsrv.toml"))
    → Invoked text_toml default_network profile_launcher w o
sample-Invoked w o parsed no_version found = record {
  held_na = no_network;
  held_la = no_launcher;
  argc = 0;
  argv = [];
  parsed = parsed;
  no_version = no_version;
  file = codes "svnsrv.toml";
  profile = root_table;
  routes = root_table;
  rows = row_table ∷ root_table ∷ [];
  hosts = sample_host ∷ [];
  address = codes "10.0.0.1";
  port = 3690;
  configured = sample-IsConfigured found;
}

start_run : Invoked text_toml default_network profile_launcher starting daemon_asked
unfolding parse_options
start_run = sample-Invoked starting daemon_asked refl refl named_profile

again_run : Invoked text_toml default_network profile_launcher again daemon_asked
unfolding parse_options
again_run = sample-Invoked again daemon_asked refl refl named_profile

stop_run : Invoked text_toml default_network profile_launcher stopping stop_asked
unfolding parse_options
stop_run = sample-Invoked stopping stop_asked refl refl named_profile

late_run : Invoked text_toml default_network profile_launcher late stop_asked
unfolding parse_options
late_run = sample-Invoked late stop_asked refl refl named_profile

start-Starts : Starts starting.scan starting.calls starting.host profile_launcher.pid_file
unfolding check_pid
start-Starts = (refl, refl, refl, refl, refl, refl, refl)

waits_for_nothing : wait_returns profile_launcher.crash_restart starting.is_worker ≡ true
unfolding wait_returns
waits_for_nothing = refl

meeting-Meets : (w : World) → Meets profile_launcher starting (meeting w)
meeting-Meets w = record { left = refl; other = omega arith }

late-Meets : Meets profile_launcher starting late
late-Meets = record { left = refl; other = omega arith }

main-controls_example :
    (router : RouterSeletor) × (run_of text_toml default_network profile_launcher start_run
      ≡ done (
        serves default_network router (launched good_calls fresh_host (c_str pid_file)).host,
        opened profile_launcher
            ∷ handles_usr1
            ∷ says
                (codes "svnsrv run as daemon success,pid: ")
                (launched good_calls fresh_host (c_str pid_file)).host,
      ))
    × (run_of text_toml default_network profile_launcher again_run
        ≡ done (
          exits_with (negsuc 0),
          opened profile_launcher
              ∷ handles_usr1
              ∷ complains (running_text (pos 2))
              ∷ says (codes "cannot create svnsrv daemon,this pid= ") again.host,
        ))
    × (run_of text_toml default_network profile_launcher stop_run
        ≡ done (
          exits_with require_exit,
          opened profile_launcher
              ∷ commands (terminates (pos 2) ∷ waits_for (pos 2) ∷ stop_success ∷ [])
              ∷ [],
        ))
    × (run_of text_toml default_network profile_launcher late_run
        ≡ done (
          exits_with kill_process_failed,
          opened profile_launcher ∷ commands (not_running ∷ []) ∷ [],
        ))
main-controls_example =
    main-controls text_toml default_network profile_launcher pid_reader start_run again_run stop_run
      late_run (refl, refl) start-Starts waits_for_nothing (omega arith) (omega arith) (refl, refl)
      refl refl refl refl refl (meeting-Meets starting)
      (meeting-Meets (worded b's' (some (codes "stop")))) late-Meets refl refl refl
