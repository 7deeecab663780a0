-- ===== src/Windows/Restart/Arguments.antt =====
-- `DaemonRestart` of src/daemonize_win.inl: what the new process is started with.
use svnsrv.Base.{
  Bool, List, ◌++◌, ℕ, ◌+◌, ◌<◌, true, false, ◌∷◌, Option, some, ◌≡◌, ◌≢◌, refl, ap, ◌∙◌, ◌==◌,
  length, All, arith,
}
use svnsrv.Base.Run.{Run, done}
use svnsrv.Base.Text.{Bytes, c_str}
use svnsrv.Windows.Service.{Host, Action, terminates, closes, unlinks, creates, check_pid}
use svnsrv.Windows.Cmdline.{build_cmdline, path_get_args}
use svnsrv.Windows.Cmdline.Room.{build_cmdline-arguments}
use svnsrv.Windows.Restart.{
  line_size, reported, unkilled, start_again, restart_process, daemon_restart,
}

-- What is done to put a process in the place of another.
abbrev pub replaces : Bool → Bool → ℕ → Bytes → Bytes → List Action
replaces killed created pid pid_file line =
    terminates pid
    ∷ (unkilled killed ++ (closes pid ∷ unlinks pid_file ∷ creates line ∷ reported created))

start_again-creates :
    (created : Bool) (path oldcmd line : Bytes)
    → build_cmdline line_size (some path) oldcmd ≡ done (some line)
    → start_again created (some path) oldcmd ≡ done (false, creates line ∷ reported created)
unfolding start_again
start_again-creates created path oldcmd line e = rw e refl

restart_process-creates :
    (read_line : ℕ → Run (Option Bytes)) (killed created : Bool) (path pid_file oldcmd line : Bytes)
    (pid : ℕ)
    → 0 < pid
    → read_line pid ≡ done (some oldcmd)
    → build_cmdline line_size (some path) oldcmd ≡ done (some line)
    → restart_process read_line true killed created (some path) pid_file pid
      ≡ done (false, replaces killed created pid pid_file line)
unfolding restart_process
restart_process-creates read_line killed created path pid_file oldcmd line pid pos found built =
    let alive : (pid == 0) ≡ false = ground arith in
    rw (alive, found, start_again-creates created path oldcmd line built) refl

-- A daemon that runs, a handle to its process, a command line of it that is not empty, and a name
-- of the program without quotes that leaves room for the arguments: the old process is terminated
-- (a failure is reported only), its handle closed and the pid file removed, in this order; and then
-- a process is created whose command line has the arguments of the old one. The result is `false`
-- all the same, also where the success is printed.
pub daemon_restart-arguments :
    (scan : Bytes → Option ℕ) (h : Host) (read_line : ℕ → Run (Option Bytes))
    (killed created : Bool) (path pid_file : Bytes) (pid c : ℕ) (cs : Bytes)
    → check_pid scan h (c_str pid_file) ≡ pid
    → 0 < pid
    → read_line pid ≡ done (some (c ∷ cs))
    → All (λ d. d ≢ b'"') path
    → length path + 3 + length (path_get_args false (c_str (c ∷ cs))) < line_size
    → (line : Bytes) × (daemon_restart scan h read_line true killed created (some path) pid_file
        ≡ done (false, replaces killed created pid (c_str pid_file) line))
      × (path_get_args false line ≡ path_get_args false (c_str (c ∷ cs)))
unfolding daemon_restart
daemon_restart-arguments scan h read_line killed created path pid_file pid c cs running pos found q
      room =
    let r = build_cmdline-arguments line_size path c cs q room in
    (
      r.0,
      ap (restart_process read_line true killed created (some path) (c_str pid_file)) running
          ∙ restart_process-creates read_line killed created path (c_str pid_file) (c ∷ cs) r.0 pid
              pos found r.1,
      r.2,
    )
