-- ===== src/Main.antt =====
-- src/main.cc on Linux, with `SavedArgv` of src/Argv.hpp: the options, and the order of the start.
pub mod Parsing
pub mod Start
pub mod Configured
pub mod Control
pub mod Foreground
pub mod Proxy
use svnsrv.Base.{
  ℕ, zero, suc, Bool, true, false, not, List, [], ◌∷◌, ◌++◌, Option, none, some, ◌==◌,
  if◌then◌else◌,
}
use svnsrv.Base.Decimal.{digits}
use svnsrv.Base.Int.{ℤ, pos, negsuc}
use svnsrv.Base.Run.{Run, done, ◌>>=◌}
use svnsrv.Base.Text.{Bytes, codes, c_str}
use svnsrv.Url.{equal}
use svnsrv.Toml.{Toml}
use svnsrv.Runtime.{System}
use svnsrv.Profile.{NetworkServerArgs, LauncherArgs, parse_service_profile}
use svnsrv.Router.{RouterSeletor, initialize_router_seletor}
use svnsrv.Daemon.Pid.{Host}
use svnsrv.Daemon.Launch.{Fork, Calls, Launch, Outcome, returns, exits, daemonize}
use svnsrv.Daemon.Restart.{
  Command, Proc, Restarted, returned, executes, exited, daemon_stop, daemon_restart,
}

-- `SavedArgv`: a copy of each of the `argc` arguments.
unfoldable pub saved_argv : ℕ → List Bytes → List Bytes
saved_argv zero argv = []
saved_argv (suc n) [] = []
saved_argv (suc n) (a ∷ as_) = c_str a ∷ saved_argv n as_

unfoldable pub usage_text : Bytes
usage_text =
    codes "OVERVIEW: svnsrv subversion proxy service\n"
    ++ (codes "Usage: svnsrv [options] <input> \n"
        ++ (codes "\nOPTIONS:\n"
            ++ (codes "  -D [--daemon]      run svnsrv as a daemon\n"
                ++ (codes "  -c [--config]      set svnsrv config file,file is toml format\n"
                    ++ (codes "  -d [--debug]       run svnsrv as debug mode\n"
                        ++ (codes "  -h [-?|--help]     print svnsrv usage information and exit\n"
                            ++ (codes "  -v [--version]     print svnsrv version and exit\n"
                                ++ (codes "  -q [--quiet]       print svnsrv version short mode\n"
                                    ++ codes
                                        "  -s [--signal]      send a signal to svnsrv,argument: stop|restart \n"))))))))

-- `CONFIG_VERSION` of src/version.h
unfoldable pub config_version : Bytes
config_version = codes "1.0.0.0"

unfoldable pub version_text : Bytes
unfolding config_version
version_text =
    codes "svnsrv version "
    ++ (config_version
        ++ (codes "\nsvnsrv is authored by Force Charlie <forcemz@forcemz.net>.\n"
            ++ (codes "Copyright (C) 2016 OSChina.NET .All Rights Reserved.\n"
                ++ codes "This software Licensed under the MTI License.\n")))

unfoldable pub print_version : Bool → Bytes
unfolding config_version version_text
print_version quiet = if quiet then config_version ++ b'\n' ∷ [] else version_text

unfoldable pub print_usage : Bytes
unfolding usage_text
print_usage = usage_text ++ b'\n' ∷ []

-- The locals that the options set.
pub record Options : Type 0 where
  pub daemon : Bool
  pub config : Option Bytes
  pub debug : Bool
  pub version : Bool
  pub quiet : Bool
  pub signame : Option Bytes

abbrev pub no_options : Options
no_options = record {
  daemon = false;
  config = none;
  debug = false;
  version = false;
  quiet = false;
  signame = none;
}

-- The cases of the `switch` that set a local.
unfoldable pub set_option : ℕ → Option Bytes → Options → Options
set_option ch optarg o =
    if ch == b'D'
    then record o { daemon = true }
    else if ch == b'c'
    then record o { config = optarg }
    else if ch == b'd'
    then record o { debug = true }
    else if ch == b'v'
    then record o { version = true }
    else if ch == b'q'
    then record o { quiet = true }
    else if ch == b's'
    then record o { signame = optarg }
    else o

-- The loop over what `getopt_long` returns before its -1, each with `optarg`. `none` is the early
-- `return PrintUsage()`.
unfoldable pub parse_options : List (ℕ × Option Bytes) → Options → Option Options
unfolding set_option
parse_options [] o = some o
parse_options ((ch, optarg) ∷ rest) o =
    let next = parse_options rest (set_option ch optarg o) in
    if ch == b'?' then none else if ch == b'h' then none else next

-- What the outside answers: `getopt_long`, the calls behind the profile, the pid file as `fscanf`
-- reads it, the processes, and `DaemonWait` by whether this process is the worker of a master.
pub record World : Type 0 where
  pub getopt : List Bytes → List (ℕ × Option Bytes)
  pub system : System
  pub scan : Bytes → Option ℤ
  pub host : Host
  pub killed : Bool
  pub later : Host
  pub proc : Proc
  pub restart_fork : Fork
  pub exec_error : Option (ℕ × Bytes)
  pub calls : Calls
  pub is_worker : Bool

-- How `main` ends for a process: with a status, as another program, or in the server.
pub data End : Type 0 where
  exits_with : ℤ → End
  becomes : Bytes → List Bytes → End
  serves : NetworkServerArgs → RouterSeletor → Host → End

pub data Action : Type 0 where
  prints : Bytes → Action
  opens_logs : Bytes → Bytes → Action
  commands : List Command → Action
  handles_usr1 handles_int : Action
  logs : Bytes → Action
  flushes : Action
  complains : Bytes → Action

-- `ProcessSignalFlow`
abbrev pub require_exit : ℤ
require_exit = pos 0

abbrev pub kill_process_failed : ℤ
kill_process_failed = pos 1

abbrev pub require_continue : ℤ
require_continue = pos 2

abbrev pub argument_error : ℤ
argument_error = pos 3

unfoldable pub after_restart : Restarted → End
after_restart (returned ok) = exits_with (if ok then require_continue else kill_process_failed)
after_restart (executes path argv) = becomes path argv
after_restart (exited code) = exits_with code

unfoldable pub process_signal_args : World → Bytes → LauncherArgs → End × List Action
unfolding equal daemon_stop daemon_restart after_restart
process_signal_args w signame la =
    if equal signame (codes "stop")
    then (let r = daemon_stop w.scan w.host w.killed la.pid_file in
        (exits_with (if r.0 then require_exit else kill_process_failed), commands r.1 ∷ []))
    else if equal signame (codes "restart")
    then (let r =
          daemon_restart w.scan w.host w.later w.proc w.restart_fork w.exec_error la.pid_file in
        (after_restart r.0, commands r.1 ∷ []))
    else (
      exits_with argument_error,
      prints (codes "Unsupported signal: " ++ (signame ++ b'\n' ∷ [])) ∷ [],
    )

-- `DaemonWait` where it returns: a process without a master serves, and so does a worker. A master
-- returns `false`, where it cannot fork.
unfoldable pub wait_returns : Bool → Bool → Bool
wait_returns crash_restart is_worker = if not crash_restart then true else is_worker

-- A line of the log that ends with the process's number, and `FileFlush`.
unfoldable pub says : Bytes → Host → List Action
says text h = logs (text ++ digits h.own) ∷ flushes ∷ []

-- What follows `Daemonize`, by its result.
unfoldable pub after_daemonize :
    World → NetworkServerArgs → LauncherArgs → RouterSeletor → Launch → Outcome → End × List Action
unfolding wait_returns says
after_daemonize w na la router l (exits code) = (exits_with code, [])
after_daemonize w na la router l (returns (pos zero)) =
    let said = says (codes "svnsrv run as daemon success,pid: ") l.host in
    if not (wait_returns la.crash_restart w.is_worker)
    then (exits_with (negsuc 0), said ++ logs (codes "cannot create watcher process !") ∷ [])
    else (serves na router l.host, said)
after_daemonize w na la router l (returns code) =
    (exits_with (negsuc 0), says (codes "cannot create svnsrv daemon,this pid= ") l.host)

abbrev pub logged : List Bytes → List Action
logged [] = []
logged (line ∷ lines) = logs line ∷ logged lines

abbrev pub complained : List Bytes → List Action
complained [] = []
complained (text ∷ texts) = complains text ∷ complained texts

unfoldable pub start_service :
    World → Options → NetworkServerArgs → LauncherArgs → RouterSeletor → End × List Action
unfolding daemonize after_daemonize
start_service w o na la router =
    if o.daemon
    then (let l = daemonize w.scan w.calls w.host la.pid_file in
        let r = after_daemonize w na la router l l.outcome in
        (r.0, handles_usr1 ∷ (complained l.errors ++ (logged l.log ++ r.1))))
    else (serves na router w.host, handles_int ∷ [])

-- `if (signame)` and what follows.
unfoldable pub serve_or_signal :
    World
    → Options
    → NetworkServerArgs
    → LauncherArgs
    → RouterSeletor
    → Option Bytes
    → End × List Action
unfolding process_signal_args start_service
serve_or_signal w o na la router none = start_service w o na la router
serve_or_signal w o na la router (some signame) = process_signal_args w signame la

-- From the logs on.
unfoldable pub with_router :
    World → Options → NetworkServerArgs → LauncherArgs → RouterSeletor → End × List Action
unfolding serve_or_signal
with_router w o na la router =
    let r = serve_or_signal w o na la router o.signame in
    (r.0, opens_logs (c_str la.log_access) (c_str la.log_error) ∷ r.1)

abbrev pub new_selector : RouterSeletor
new_selector = record { host_element = []; default_element = []; default_port = 0 }

abbrev pub unrouted : Action
unrouted = complains (codes "svnsrv cannot initialized RouterSeletor !")

module _ (toml : Toml) where
  unfoldable pub load_router :
      World → Options → Bool × NetworkServerArgs × LauncherArgs → Run (End × List Action)
  unfolding initialize_router_seletor with_router
  load_router w o p =
      if not p.0
      then done
          (exits_with (negsuc 0), complains (codes "svnsrv parse svnsrv.toml failed !\n") ∷ [])
      else initialize_router_seletor toml p.2.router_file new_selector >>= λ r.
          done (
            if not r.0 then (exits_with (negsuc 1), unrouted ∷ []) else with_router w o p.1 p.2 r.1)

  -- From the loop over the options on. The two objects hold whatever the memory held.
  unfoldable pub run_options :
      World → NetworkServerArgs → LauncherArgs → Option Options → Run (End × List Action)
  unfolding load_router
  run_options w na la none = done (exits_with (pos 0), prints print_usage ∷ [])
  run_options w na la (some o) =
      if o.version
      then done (exits_with (pos 0), prints (print_version o.quiet) ∷ [])
      else parse_service_profile toml w.system o.config na la >>= λ p. load_router w o p

  unfoldable pub main :
      World → NetworkServerArgs → LauncherArgs → ℕ → List Bytes → Run (End × List Action)
  unfolding parse_options run_options
  main w na la argc argv =
      run_options w na la (parse_options (w.getopt (saved_argv argc argv)) no_options)
