-- ===== src/Main/Control.antt =====
-- The runs of src/main.cc that start, meet and stop one daemon, which they know by its pid file.
use svnsrv.Base.{
  ℕ, ◌^◌, ◌<◌, true, false, List, [], ◌∷◌, none, some, ◌≡◌, ◌≢◌, refl, ◌∙◌, ap, if◌then◌else◌,
  arith,
}
use svnsrv.Base.Decimal.{digits}
use svnsrv.Base.Int.{pos, negsuc}
use svnsrv.Base.Run.{Run, done}
use svnsrv.Base.Text.{Bytes, codes, c_str}
use svnsrv.Files.{update_self}
use svnsrv.Url.{equal}
use svnsrv.Toml.{Toml}
use svnsrv.Profile.{NetworkServerArgs, LauncherArgs}
use svnsrv.Router.{RouterSeletor}
use svnsrv.Router.Lookup.{Host}
use svnsrv.Daemon.Pid.{Scanf, check_pid}
use svnsrv.Daemon.Launch.{running_text}
use svnsrv.Daemon.Single.{
  Starts, launched, check_pid-stored, check_pid-stale, daemonize-running, daemonize-launched,
}
use svnsrv.Daemon.Restart.{terminates, waits_for, stop_success, not_running, daemon_stop}
use svnsrv.Main.{
  Options, no_options, parse_options, saved_argv, World, End, exits_with, serves, Action,
  opens_logs, commands, handles_usr1, complains, require_exit, kill_process_failed,
  process_signal_args, wait_returns, says, after_daemonize, start_service, serve_or_signal,
  with_router, main,
}
use svnsrv.Main.Configured.{IsConfigured, main-configured}

-- What `-D` and `-s stop` ask for.
abbrev pub AsksDaemon : Options → Type 0
AsksDaemon o = (o.signame ≡ none) × (o.daemon ≡ true)

abbrev pub AsksStop : Options → Type 0
AsksStop o = o.signame ≡ some (codes "stop")

-- What a run in this world sees of the daemon `n`: its pid in the pid file, which is another
-- process's.
pub record Sees (n : ℕ) (pid_file : Bytes) (w : World) : Type 0 where
  pub stored : w.host.files (c_str pid_file) ≡ some (digits n)
  pub other : n ≢ w.host.own

module _ (s : Scanf) (n : ℕ) (positive : n ≢ 0) (small : n < 2 ^ 31) (w : World)
    (e : w.scan ≡ s.scan) where
  Sees-running :
      (pid_file : Bytes)
      → Sees n pid_file w
      → w.host.exists (pos n) ≡ true
      → check_pid w.scan w.host (c_str pid_file) ≡ pos n
  Sees-running pid_file v alive =
      rw e (check_pid-stored s w.host (c_str pid_file) n v.stored small positive v.other alive)

  Sees-stale :
      (pid_file : Bytes)
      → Sees n pid_file w
      → w.host.exists (pos n) ≡ false
      → check_pid w.scan w.host (c_str pid_file) ≡ pos 0
  Sees-stale pid_file v dead =
      rw e (check_pid-stale s w.host (c_str pid_file) n v.stored small dead)

-- A run in the world `w'` finds the pid file as the daemon that `w` started left it, and is another
-- process.
pub record Meets (la : LauncherArgs) (w w' : World) : Type 0 where
  pub left :
      w'.host.files (c_str la.pid_file)
      ≡ (launched w.calls w.host (c_str la.pid_file)).host.files (c_str la.pid_file)
  pub other : w.calls.child_own ≢ w'.host.own

Meets-Sees :
    (la : LauncherArgs) (w w' : World) → Meets la w w' → Sees w.calls.child_own la.pid_file w'
Meets-Sees la w w' m = record {
  stored = m.left ∙ update_self w.host.files (c_str la.pid_file) (some (digits w.calls.child_own));
  other = m.other;
}

abbrev pub opened : LauncherArgs → Action
opened la = opens_logs (c_str la.log_access) (c_str la.log_error)

with_router-launched :
    (w : World) (o : Options) (na : NetworkServerArgs) (la : LauncherArgs) (router : RouterSeletor)
    → AsksDaemon o
    → Starts w.scan w.calls w.host la.pid_file
    → wait_returns la.crash_restart w.is_worker ≡ true
    → let h = (launched w.calls w.host (c_str la.pid_file)).host in
      with_router w o na la router ≡ (
        serves na router h,
        opened la ∷ handles_usr1 ∷ says (codes "svnsrv run as daemon success,pid: ") h,
      )
unfolding with_router serve_or_signal start_service after_daemonize
with_router-launched w o na la router a st waits =
    rw (a.0, a.1, daemonize-launched w.scan w.calls w.host la.pid_file st, waits) refl

with_router-refused :
    (w : World) (o : Options) (na : NetworkServerArgs) (la : LauncherArgs) (router : RouterSeletor)
    (n : ℕ)
    → AsksDaemon o
    → check_pid w.scan w.host (c_str la.pid_file) ≡ pos n
    → n ≢ 0
    → with_router w o na la router ≡ (
      exits_with (negsuc 0),
      opened la
          ∷ handles_usr1
          ∷ complains (running_text (pos n))
          ∷ says (codes "cannot create svnsrv daemon,this pid= ") w.host,
    )
unfolding with_router serve_or_signal start_service after_daemonize
with_router-refused w o na la router n a e nz =
    rw (a.0, a.1, daemonize-running w.scan w.calls w.host la.pid_file n e nz) refl

with_router-stop :
    (w : World) (o : Options) (na : NetworkServerArgs) (la : LauncherArgs) (router : RouterSeletor)
    (n : ℕ)
    → AsksStop o
    → check_pid w.scan w.host (c_str la.pid_file) ≡ pos n
    → n ≢ 0
    → with_router w o na la router ≡ (
      exits_with (if w.killed then require_exit else kill_process_failed),
      opened la ∷ commands (terminates (pos n) ∷ waits_for (pos n) ∷ stop_success ∷ []) ∷ [],
    )
unfolding with_router serve_or_signal process_signal_args equal daemon_stop
with_router-stop w o na la router n a e nz = rw (a, e) (ground arith)

with_router-nothing :
    (w : World) (o : Options) (na : NetworkServerArgs) (la : LauncherArgs) (router : RouterSeletor)
    → AsksStop o
    → check_pid w.scan w.host (c_str la.pid_file) ≡ pos 0
    → with_router w o na la router
      ≡ (exits_with kill_process_failed, opened la ∷ commands (not_running ∷ []) ∷ [])
unfolding with_router serve_or_signal process_signal_args equal daemon_stop
with_router-nothing w o na la router a e = rw (a, e) refl

module _ (toml : Toml) (na : NetworkServerArgs) (la : LauncherArgs) where
  open toml use {Table}

  -- A run of the program with these settings: what its memory held, its arguments, the options in them,
  -- and its two files.
  pub record Invoked (w : World) (o : Options) : Type 0 where
    pub held_na : NetworkServerArgs
    pub held_la : LauncherArgs
    pub argc : ℕ
    pub argv : List Bytes
    pub parsed : parse_options (w.getopt (saved_argv argc argv)) no_options ≡ some o
    pub no_version : o.version ≡ false
    pub file : Bytes
    pub profile : Table
    pub routes : Table
    pub rows : List Table
    pub hosts : List Host
    pub address : Bytes
    pub port : ℕ
    pub configured : IsConfigured toml w o na la rows hosts address port file profile routes

  abbrev pub run_of : {w : World} {o : Options} → Invoked w o → Run (End × List Action)
  run_of {w} i = main toml w i.held_na i.held_la i.argc i.argv

  run_of-with_router :
      {w : World} {o : Options} (i : Invoked w o)
      → (router : RouterSeletor) × (run_of i ≡ done (with_router w o na la router))
  run_of-with_router {w} {o} i =
      let r =
        main-configured toml w i.held_na na i.held_la la i.argc i.argv o i.file 0 0 []
          (record { address = []; port = 0 }) i.parsed i.no_version i.configured (omega arith)
          (omega arith) in
      (r.0, r.1)

  -- Four runs with the same settings. The first, with `-D`, finds no daemon, and no call of the system
  -- fails: it serves as the daemon, whose pid it leaves in the pid file. The others are by other
  -- processes and find the pid file as the daemon left it. While the daemon lives, a second `-D` ends
  -- with -1, and `-s stop` sends `SIGUSR1` to the daemon and calls `waitpid` for it, and its status is 0 if the
  -- signal could be sent. Once no process has the daemon's pid, `-s stop` finds none and ends with 1.
  pub main-controls :
      (s : Scanf) {w w1 w2 w3 : World} {o o1 o2 o3 : Options} (start : Invoked w o)
      (again : Invoked w1 o1) (stop : Invoked w2 o2) (late : Invoked w3 o3)
      → AsksDaemon o
      → Starts w.scan w.calls w.host la.pid_file
      → wait_returns la.crash_restart w.is_worker ≡ true
      → w.calls.child_own ≢ 0
      → w.calls.child_own < 2 ^ 31
      → AsksDaemon o1
      → AsksStop o2
      → AsksStop o3
      → w1.scan ≡ s.scan
      → w2.scan ≡ s.scan
      → w3.scan ≡ s.scan
      → Meets la w w1
      → Meets la w w2
      → Meets la w w3
      → w1.host.exists (pos w.calls.child_own) ≡ true
      → w2.host.exists (pos w.calls.child_own) ≡ true
      → w3.host.exists (pos w.calls.child_own) ≡ false
      → (router : RouterSeletor) × (run_of start
          ≡ done (
            serves na router (launched w.calls w.host (c_str la.pid_file)).host,
            opened la
                ∷ handles_usr1
                ∷ says
                    (codes "svnsrv run as daemon success,pid: ")
                    (launched w.calls w.host (c_str la.pid_file)).host,
          ))
        × (run_of again
            ≡ done (
              exits_with (negsuc 0),
              opened la
                  ∷ handles_usr1
                  ∷ complains (running_text (pos w.calls.child_own))
                  ∷ says (codes "cannot create svnsrv daemon,this pid= ") w1.host,
            ))
        × (run_of stop
            ≡ done (
              exits_with (if w2.killed then require_exit else kill_process_failed),
              opened la
                  ∷ commands (
                      terminates (pos w.calls.child_own)
                      ∷ waits_for (pos w.calls.child_own)
                      ∷ stop_success
                      ∷ [])
                  ∷ [],
            ))
        × (run_of late
            ≡ done (exits_with kill_process_failed, opened la ∷ commands (not_running ∷ []) ∷ []))
  main-controls s {w} {w1} {w2} {w3} {o} {o1} {o2} {o3} start again stop late d st waits nz lt d1 a2
        a3 e1 e2 e3 m1 m2 m3 x1 x2 x3 =
      let n = w.calls.child_own in
      let r = run_of-with_router start in
      let r1 = run_of-with_router again in
      let r2 = run_of-with_router stop in
      let r3 = run_of-with_router late in
      (
        r.0,
        r.1 ∙ ap done (with_router-launched w o na la r.0 d st waits),
        r1.1
            ∙ ap done (
                with_router-refused w1 o1 na la r1.0 n d1
                  (Sees-running s n nz lt w1 e1 la.pid_file (Meets-Sees la w w1 m1) x1) nz),
        r2.1
            ∙ ap done (
                with_router-stop w2 o2 na la r2.0 n a2
                  (Sees-running s n nz lt w2 e2 la.pid_file (Meets-Sees la w w2 m2) x2) nz),
        r3.1
            ∙ ap done (
                with_router-nothing w3 o3 na la r3.0 a3
                  (Sees-stale s n nz lt w3 e3 la.pid_file (Meets-Sees la w w3 m3) x3)),
      )
