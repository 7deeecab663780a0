-- ===== src/Daemon/Launch.antt =====
-- `Daemonize` of src/daemonize_linux.inl, as the process that goes on runs it.
use svnsrv.Base.{ℕ, Bool, not, ◌&&◌, List, [], ◌∷◌, ◌++◌, Option, none, some, ltb, if◌then◌else◌}
use svnsrv.Base.Int.{ℤ, pos, negsuc}
use svnsrv.Base.Text.{Bytes, codes, c_str}
use svnsrv.Daemon.Pid.{Host, is_pid, int_text, check_pid, write_pid}

-- The answer of `fork`: -1, 0, or the pid of the child.
pub data Fork : Type 0 where
  failed child : Fork
  parent : ℕ → Fork

-- What the calls of the system answer to `Daemonize`, and the pid of the child.
pub record Calls : Type 0 where
  pub fork : Fork
  pub child_own : ℕ
  pub setsid : Bool
  pub null_fd : Option ℕ
  pub dup_in : Bool
  pub dup_out : Bool
  pub close_fd : Bool
  pub malloc : Bool

-- A function that returns to its caller, or ends the process.
pub data Outcome : Type 0 where
  returns : ℤ → Outcome
  exits : ℤ → Outcome

-- What a launch leaves: the system, the pid file's name in `mask`, the lines of the log, and the texts
-- that it wrote to the standard error, by `perror` too.
pub record Launch : Type 0 where
  pub outcome : Outcome
  pub host : Host
  pub mask : Option Bytes
  pub log : List Bytes
  pub errors : List Bytes

abbrev pub minus_one : ℤ
minus_one = negsuc 0

abbrev pub ends : ℤ → List Bytes → Host → Launch
ends code errors h = record {
  outcome = returns code;
  host = h;
  mask = none;
  log = [];
  errors = errors;
}

unfoldable pub running_text : ℤ → Bytes
unfolding int_text
running_text pid = codes "svnsrv is already running, daemon pid = " ++ (int_text pid ++ codes ".\n")

-- `ProcessIdMask::Cache`: the name in `ptr` after the call, where `malloc` may fail.
unfoldable pub cache : Bool → Option Bytes → Option Bytes
cache malloc none = none
cache malloc (some file) = if malloc then some file else none

-- `if (!write_pid(…))` and what follows it.
unfoldable pub store_pid : Calls → Host → Bytes → Launch
unfolding write_pid cache
store_pid calls h pidfile =
    let w = write_pid h pidfile in
    if not w.0
    then record {
      outcome = returns (pos 2);
      host = w.1;
      mask = none;
      log = w.2 ++ codes "svnsrv daemon create pidfile failed !" ∷ [];
      errors = [];
    }
    else record {
      outcome = returns (pos 0);
      host = w.1;
      mask = cache calls.malloc (some pidfile);
      log = w.2;
      errors = [];
    }

-- `fd` is the descriptor of /dev/null; 2 is `STDERR_FILENO`.
unfoldable pub redirect : Calls → Host → Bytes → ℕ → Launch
unfolding store_pid
redirect calls h pidfile fd =
    if not calls.dup_in
    then ends minus_one (codes "cannot dup2() set STDIN_FILENO" ∷ []) h
    else if not calls.dup_out
    then ends minus_one (codes "cannot dup2() set STDOUT_FILENO" ∷ []) h
    else if ltb 2 fd && not calls.close_fd
    then ends minus_one [] h
    else store_pid calls h pidfile

unfoldable pub open_null : Calls → Host → Bytes → Launch
unfolding redirect
open_null calls h pidfile = elim calls.null_fd [
  | none ↦ ends minus_one (codes "cannot open /dev/null \n" ∷ []) h
  | some fd ↦ redirect calls h pidfile fd
]

-- The `switch (fork())`. The child has a pid of its own.
unfoldable pub split_off : Calls → Host → Bytes → Fork → Launch
unfolding open_null
split_off calls h pidfile failed = ends minus_one (codes "svnsrv fork() failed\n" ∷ []) h
split_off calls h pidfile (parent pid) = record {
  outcome = exits (pos 0);
  host = h;
  mask = none;
  log = [];
  errors = [];
}
split_off calls h pidfile child =
    let h' = record h { own = calls.child_own } in
    if not calls.setsid then ends minus_one [] h' else open_null calls h' pidfile

unfoldable pub daemonize : (Bytes → Option ℤ) → Calls → Host → Bytes → Launch
unfolding check_pid running_text split_off
daemonize scan calls h pidfile =
    let pid = check_pid scan h (c_str pidfile) in
    if not (is_pid pid 0)
    then ends (pos 1) (running_text pid ∷ []) h
    else split_off calls h (c_str pidfile) calls.fork
