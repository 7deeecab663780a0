-- ===== src/Windows/Service.antt =====
-- The pid file, `Daemonize`, the signal methods and `DaemonStop` of src/daemonize_win.inl.
pub mod Single
use svnsrv.Base.{
  ℕ, Bool, true, false, not, ◌&&◌, ◌||◌, List, [], ◌∷◌, ◌++◌, Option, none, some, ◌==◌,
  if◌then◌else◌, take,
}
use svnsrv.Base.Decimal.{digits}
use svnsrv.Base.Int.{ℤ, pos, negsuc}
use svnsrv.Base.Text.{Bytes, codes, c_str}
use svnsrv.Files.{update}
use svnsrv.Daemon.Launch.{Outcome, returns, exits}

-- What a process sees of the system: the files and which of them can be opened for writing, which
-- pids `OpenProcess` gives a handle for, and its own pid.
pub record Host : Type 0 where
  pub files : Bytes → Option Bytes
  pub writable : Bytes → Bool
  pub opens : ℕ → Bool
  pub own : ℕ

-- What the program does to other processes and to files. A handle is named by its process, the null
-- handle by 0. `closes_created` closes the two handles of a process that was created. `prints` writes to
-- the standard output, and `complains`, also for `perror`, to the standard error.
pub data Action : Type 0 where
  terminates : ℕ → Action
  closes : ℕ → Action
  unlinks : Bytes → Action
  creates : Bytes → Action
  closes_created : Action
  prints complains : Bytes → Action

-- `check_pid` behind `fscanf` with `PRIu32`: `n != 1` is `none`.
unfoldable pub running_pid : Host → Option ℕ → ℕ
running_pid h none = 0
running_pid h (some pid) =
    if (pid == 0) || (pid == h.own) then 0 else if not (h.opens pid) then 0 else pid

unfoldable pub check_pid : (Bytes → Option ℕ) → Host → Bytes → ℕ
unfolding running_pid
check_pid scan h pidfile = elim (h.files pidfile) [
  | none ↦ 0
  | some content ↦ running_pid h (scan content)
]

-- The result, with the system and the lines of the log after it.
unfoldable pub write_pid : Host → Bytes → Bool × Host × List Bytes
unfolding update
write_pid h pidfile =
    if h.writable pidfile
    then (true, record h { files = update h.files pidfile (some (digits h.own)) }, [])
    else (false, h, (codes "cannot open " ++ pidfile) ∷ [])

-- What the calls of the system answer to `Daemonize`: whether the window is hidden already, the
-- command line, whether `CreateProcessW` succeeds, and whether the three streams open on `nul`.
pub record Calls : Type 0 where
  pub hidden : Bool
  pub line : Bytes
  pub starts : Bool
  pub null_out : Bool
  pub null_err : Bool
  pub null_in : Bool

pub record Launch : Type 0 where
  pub outcome : Outcome
  pub host : Host
  pub actions : List Action
  pub log : List Bytes
  pub errors : List Bytes

abbrev pub ends : ℤ → List Bytes → Host → Launch
ends code errors h = record {
  outcome = returns code;
  host = h;
  actions = [];
  log = [];
  errors = errors;
}

unfoldable pub running_text : ℕ → Bytes
running_text pid = codes "svnsrv is already running, daemon pid = " ++ (digits pid ++ codes ".\n")

-- `Daemonize` in a process with a hidden window. `freopen` works in the order of the tests.
unfoldable pub hidden_start : Calls → Host → Bytes → Launch
unfolding write_pid
hidden_start calls h pidfile =
    let w = write_pid h pidfile in
    if calls.null_out && (calls.null_err && calls.null_in)
    then record {
      outcome = returns (if w.0 then pos 0 else negsuc 1);
      host = w.1;
      actions = [];
      log = w.2;
      errors = [];
    }
    else ends (negsuc 0) [] h

-- A process with a window starts the same command without one, and ends.
unfoldable pub daemonize : (Bytes → Option ℕ) → Calls → Host → Bytes → Launch
unfolding check_pid running_text hidden_start
daemonize scan calls h pidfile =
    let pid = check_pid scan h (c_str pidfile) in
    if not (pid == 0)
    then ends (pos 1) (running_text pid ∷ []) h
    else if not calls.hidden
    then if calls.starts
      then record {
        outcome = exits (pos 0);
        host = h;
        actions = creates (take 32767 calls.line) ∷ closes_created ∷ [];
        log = [];
        errors = [];
      }
      else ends (negsuc 1) [] h
    else hidden_start calls h (c_str pidfile)

unfoldable pub daemon_wait : Bool → Bool
daemon_wait crash_restart = true

-- `WhenExit`, which both signal methods hand to `atexit`: the last line of the log.
unfoldable pub when_exit : Bytes
when_exit = codes "svnsrv shutdown"

-- Both signal methods: their result, and what runs at the exit.
unfoldable pub signal_method : ℤ × List Bytes
unfolding when_exit
signal_method = (pos 0, when_exit ∷ [])

abbrev pub not_running : Action
not_running = complains (codes "svnsrv daemon not runing !\n")

abbrev pub terminate_failed : Action
terminate_failed = complains (codes "terminate svnsrv failed !\n")

abbrev pub stop_success : Action
stop_success = prints (codes "stop svnsrv daemon success !\n")

-- `reopens` is whether `OpenProcess` gives a handle after `check_pid`, and `killed` whether
-- `TerminateProcess` succeeds. The result, and what was done.
unfoldable pub daemon_stop : (Bytes → Option ℕ) → Host → Bool → Bool → Bytes → Bool × List Action
unfolding check_pid
daemon_stop scan h reopens killed pid_file =
    let pid = check_pid scan h (c_str pid_file) in
    if pid == 0
    then (false, not_running ∷ [])
    else if not reopens
    then (false, not_running ∷ [])
    else let end = stop_success ∷ closes pid ∷ unlinks (c_str pid_file) ∷ [] in
      (true, terminates pid ∷ (if killed then end else terminate_failed ∷ closes pid ∷ end))
