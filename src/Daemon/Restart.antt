-- ===== src/Daemon/Restart.antt =====
-- `DaemonStop`, `ParsePathAndArgv` and `DaemonRestart` of src/daemonize_linux.inl.
use svnsrv.Base.{
  ℕ, Bool, true, false, not, List, [], ◌∷◌, ◌++◌, Option, none, some, ◌==◌, if◌then◌else◌, is_empty,
  take,
}
use svnsrv.Base.Decimal.{digits}
use svnsrv.Base.Int.{ℤ, pos, negsuc}
use svnsrv.Base.Text.{Bytes, codes, c_str}
use svnsrv.Daemon.Pid.{Host, is_pid, int_text, check_pid}
use svnsrv.Daemon.Launch.{Fork, failed, child, parent}

-- What a command does: `kill(pid, SIGUSR1)`, `waitpid(pid, …)`, a line of the log, and the texts that
-- it writes to the standard output and, by `perror` too, to the standard error.
pub data Command : Type 0 where
  terminates : ℤ → Command
  waits_for : ℤ → Command
  logs : Bytes → Command
  prints : Bytes → Command
  complains : Bytes → Command

abbrev pub not_running : Command
not_running = complains (codes "svnsrv daemon not runing !\n")

abbrev pub stop_success : Command
stop_success = prints (codes "stop svnsrv daemon success !\n")

-- `killed` is whether `kill` returns 0. The result, and what was done.
unfoldable pub daemon_stop : (Bytes → Option ℤ) → Host → Bool → Bytes → Bool × List Command
unfolding check_pid
daemon_stop scan h killed pid_file =
    let pid = check_pid scan h (c_str pid_file) in
    if is_pid pid 0
    then (false, not_running ∷ [])
    else (killed, terminates pid ∷ waits_for pid ∷ stop_success ∷ [])

-- What /proc shows of the daemon: the link `exe`, or `none` for -1, whether `cmdline` opens, and what
-- one `read` of it into the buffer of 4096 bytes gives, or `none` for -1.
pub record Proc : Type 0 where
  pub exe : Option Bytes
  pub opens : Bool
  pub cmdline : Option Bytes

-- The loop over `buf`, from a position on: at a zero byte it takes the string behind it, and goes on
-- behind the first byte of that. The buffer is zero behind the bytes that were read; what is behind a
-- buffer that is full is not modelled.
unfoldable pub more_args : Bytes → List Bytes
more_args [] = []
more_args (c ∷ []) = []
more_args (c ∷ d ∷ ds) =
    let at_zero = c_str (d ∷ ds) ∷ more_args ds in
    let onward = more_args (d ∷ ds) in if c == 0 then at_zero else onward

unfoldable pub argv_of : Option Bytes → List Bytes
unfolding more_args
argv_of none = [] ∷ []
argv_of (some read) = c_str read ∷ more_args read

-- `sz == 0`: only an empty link is refused, not the -1 of a failure, which leaves the path empty.
unfoldable pub exe_path : Option Bytes → Option Bytes
exe_path none = some []
exe_path (some link) = if is_empty link then none else some (c_str (take 4095 link))

-- The path and the arguments, or `none` for `false`.
unfoldable pub parse_path_and_argv : Proc → Option (Bytes × List Bytes)
unfolding argv_of exe_path
parse_path_and_argv p = elim (exe_path p.exe) [
  | none ↦ none
  | some path ↦ if not p.opens then none else some (path, argv_of p.cmdline)
]

-- The line of the log where `cmdline` does not open.
unfoldable pub unopened : Proc → ℤ → List Command
unfolding exe_path int_text
unopened p pid = elim (exe_path p.exe) [
  | none ↦ []
  | some path ↦
      if p.opens
      then []
      else logs (codes "cannot open /proc/" ++ (int_text pid ++ codes "/cmdline")) ∷ []
]

abbrev pub cannot_parse : Command
cannot_parse = complains (codes "cannot parse svnsrv daemon cmdline !\n")

-- How a process leaves `DaemonRestart`: it returns, or `execvp` puts the program at a path with its
-- arguments in its place.
pub data Restarted : Type 0 where
  returned : Bool → Restarted
  executes : Bytes → List Bytes → Restarted
  exited : ℤ → Restarted

-- The check at the end.
unfoldable pub verdict : (Bytes → Option ℤ) → Host → Bytes → Restarted × List Command
unfolding check_pid int_text
verdict scan h pid_file =
    let nid = check_pid scan h pid_file in
    if not (is_pid nid 0)
    then (
      returned true,
      prints (codes "New daemon service runing, pid= " ++ (int_text nid ++ b'\n' ∷ [])) ∷ [],
    )
    else (returned false, [])

-- What the child says of an `execvp` that comes back with -1, by `errno` and its text.
unfoldable pub cannot_start : ℕ × Bytes → List Command
cannot_start errno =
    complains (codes "cannot start svnsrv,result: -1, errno: " ++ digits errno.0)
    ∷ logs (codes "cannot start svnsrv,result: -1, errno: " ++ c_str errno.1)
    ∷ []

-- `switch ((cpid = fork()))` and what follows, with the system `later` as the check at the end sees
-- it, and the error of `execvp`, with `none` where the program runs.
unfoldable pub start_again :
    (Bytes → Option ℤ)
    → Host
    → Option (ℕ × Bytes)
    → Bytes
    → Bytes × List Bytes
    → Fork
    → Restarted × List Command
unfolding verdict cannot_start
start_again scan later none pid_file program child = (executes program.0 program.1, [])
start_again scan later (some errno) pid_file program child = (exited (negsuc 0), cannot_start errno)
start_again scan later failure pid_file program failed = verdict scan later pid_file
start_again scan later failure pid_file program (parent pid) =
    let r = verdict scan later pid_file in (r.0, waits_for (pos pid) ∷ r.1)

unfoldable pub daemon_restart :
    (Bytes → Option ℤ)
    → Host
    → Host
    → Proc
    → Fork
    → Option (ℕ × Bytes)
    → Bytes
    → Restarted × List Command
unfolding check_pid parse_path_and_argv unopened start_again
daemon_restart scan h later p fork failure pid_file =
    let pid = check_pid scan h (c_str pid_file) in
    if is_pid pid 0 then (returned false, not_running ∷ []) else elim (parse_path_and_argv p) [
      | none ↦ (returned false, unopened p pid ++ cannot_parse ∷ [])
      | some program ↦
          let r = start_again scan later failure (c_str pid_file) program fork in
          (r.0, terminates pid ∷ waits_for pid ∷ r.1)
    ]
