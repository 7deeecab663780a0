-- ===== src/Daemon/Master.antt =====
-- `DaemonWait` and `SignalDaemonKill` of src/daemonize_linux.inl: a master that waits for its worker
-- and starts it anew, as the family of the processes and the signals between them.
use svnsrv.Base.{
  ℕ, zero, suc, ◌+◌, Bool, true, false, not, List, [], ◌∷◌, ◌++◌, Option, none, some, ◌≡◌, ◌==◌,
  if◌then◌else◌,
}
use svnsrv.Base.Decimal.{digits}
use svnsrv.Base.Int.{ℤ, pos, negsuc}
use svnsrv.Base.Text.{Bytes, codes}
use svnsrv.Daemon.Launch.{Fork, failed, child, parent}

pub data SignalAction : Type 0 where
  destroys : Bytes → SignalAction
  unlinks : Bytes → SignalAction
  kills : ℕ → SignalAction
  exits : ℕ → SignalAction

-- `if (mask.Get()) { unlink(mask.Get()); }`
unfoldable pub unlink_mask : Option Bytes → List SignalAction
unlink_mask none = []
unlink_mask (some file) = unlinks file ∷ []

-- `default:` of the switch, whose test is `child_pid > 0`.
unfoldable pub shut_worker : Option Bytes → ℤ → List SignalAction
unfolding unlink_mask
shut_worker mask (pos zero) = []
shut_worker mask (pos (suc n)) = unlink_mask mask ++ kills (suc n) ∷ []
shut_worker mask (negsuc n) = []

-- `SignalDaemonKill`, by `child_pid`. The test of `case -1` is `child_pid > 0` too, so it is never
-- met.
unfoldable pub signal_daemon_kill : Option Bytes → ℤ → List SignalAction
unfolding shut_worker
signal_daemon_kill mask (pos zero) = destroys (codes "svnsrv worker shutdown") ∷ exits 0 ∷ []
signal_daemon_kill mask (negsuc zero) = destroys (codes "svnsrv single shutdown") ∷ exits 0 ∷ []
signal_daemon_kill mask child_pid =
    shut_worker mask child_pid ++ destroys (codes "svnsrv master shutdown") ∷ exits 0 ∷ []

-- `ForegroundShutdown`
unfoldable pub foreground_shutdown : List SignalAction
foreground_shutdown = destroys (codes "svnsrv shutdown") ∷ exits 0 ∷ []

-- What `signal` registers, for `SIGINT` or for `SIGUSR1`.
pub data Registered : Type 0 where
  on_int : List SignalAction → Registered
  on_usr1 : (Option Bytes → ℤ → List SignalAction) → Registered

-- Each with its result.
unfoldable pub foreground_signal_method : Registered × ℤ
unfolding foreground_shutdown
foreground_signal_method = (on_int foreground_shutdown, pos 0)

unfoldable pub daemon_signal_method : Registered × ℤ
unfolding signal_daemon_kill
daemon_signal_method = (on_usr1 signal_daemon_kill, pos 0)

-- Where the master is in the loop of `DaemonWait`, with `n`, and with the pid that `fork` returned:
-- before `fork`; behind it, with the pid not yet stored; at `waitpid`, with the pid stored; behind
-- `waitpid`; behind the line of the log; behind a `fork` that failed, with -1 stored; or no more, since
-- it returned or ended, with the pid of a child that was not stored until then.
pub data Master : Type 0 where
  forking : ℕ → Master
  forked waiting reaped counted : ℕ → ℕ → Master
  refused : Master
  gone : Option ℕ → Master

-- The static variable `child_pid` of the master.
abbrev pub child_pid : Master → ℤ
child_pid (waiting n pid) = pos pid
child_pid (reaped n pid) = pos pid
child_pid (counted n pid) = pos pid
child_pid refused = negsuc 0
child_pid _ = pos 0

-- The child that `fork` returned to a master that did not store it yet.
abbrev pub unstored : Master → Option ℕ
unstored (forked n pid) = some pid
unstored _ = none

abbrev pub is_gone : Master → Bool
is_gone (gone left) = true
is_gone _ = false

-- The master with its workers that live, the pids that `SIGUSR1` is on the way to, whether the pid
-- file is there, and the lines of the log.
pub record Family : Type 0 where
  pub master : Master
  pub workers : List ℕ
  pub signalled : List ℕ
  pub pid_file : Bool
  pub log : List Bytes

abbrev pub without : ℕ → List ℕ → List ℕ
without p [] = []
without p (q ∷ qs) = if p == q then without p qs else q ∷ without p qs

abbrev pub is_in : ℕ → List ℕ → Bool
is_in p [] = false
is_in p (q ∷ qs) = if p == q then true else is_in p qs

-- `DaemonWait` at its start. Without `crashRestart` the process is the daemon by itself.
unfoldable pub daemon_wait : Bool → Option Master
daemon_wait crash_restart = if not crash_restart then none else some (forking 0)

unfoldable pub restart_line : ℕ → Bytes
restart_line n = codes "Restart worker process,times: " ++ digits n

-- What `fork` does in `while ((child_pid = fork()))`, in the master, with the store of -1. The child
-- leaves the loop as a worker.
unfoldable pub fork_worker : ℕ → Fork → Family → Family
fork_worker n failed f = record f { master = refused }
fork_worker n child f = f
fork_worker n (parent pid) f = record f { master = forked n pid; workers = pid ∷ f.workers }

-- The store to `child_pid`.
unfoldable pub store_child : ℕ → ℕ → Family → Family
store_child n pid f = record f { master = waiting n pid }

-- `return false`
unfoldable pub give_up : Family → Family
give_up f = record f { master = gone none }

-- `waitpid` returns.
unfoldable pub end_wait : ℕ → ℕ → Family → Family
end_wait n pid f = record f { master = reaped n pid }

-- `n++` and the line of the log.
unfoldable pub count_restart : ℕ → ℕ → Family → Family
unfolding restart_line
count_restart n pid f = record f {
  master = counted (n + 1) pid;
  log = f.log ++ restart_line (n + 1) ∷ [];
}

-- `child_pid = 0`
unfoldable pub reset_child : ℕ → Family → Family
reset_child n f = record f { master = forking n }

-- The actions of the handler, as the system carries them out for the master.
unfoldable pub carry_out : List SignalAction → Family → Family
carry_out [] f = f
carry_out (destroys text ∷ as_) f = carry_out as_ (record f { log = f.log ++ text ∷ [] })
carry_out (unlinks file ∷ as_) f = carry_out as_ (record f { pid_file = false })
carry_out (kills pid ∷ as_) f = carry_out as_ (record f { signalled = pid ∷ f.signalled })
carry_out (exits code ∷ as_) f = record f { master = gone (unstored f.master) }

unfoldable pub stop_master : Option Bytes → Family → Family
unfolding signal_daemon_kill carry_out
stop_master mask f = carry_out (signal_daemon_kill mask (child_pid f.master)) f

abbrev pub end_worker : ℕ → Family → Family
end_worker p f = record f { workers = without p f.workers }

-- What may happen to the family: the steps of the loop, where `waitpid` returns once the child is
-- dead; a worker dies; `SIGUSR1` reaches the master, between any two steps of the loop, or a worker,
-- whose handler ends it.
pub data Step (mask : Option Bytes) (f : Family) : Family → Type 0 where
  forks : (n pid : ℕ) → f.master ≡ forking n → Step mask f (fork_worker n (parent (suc pid)) f)
  stores : (n p : ℕ) → f.master ≡ forked n p → Step mask f (store_child n p f)
  fork_fails : (n : ℕ) → f.master ≡ forking n → Step mask f (fork_worker n failed f)
  gives_up : f.master ≡ refused → Step mask f (give_up f)
  waited :
      (n p : ℕ) → f.master ≡ waiting n p → is_in p f.workers ≡ false → Step mask f (end_wait n p f)
  counts : (n p : ℕ) → f.master ≡ reaped n p → Step mask f (count_restart n p f)
  resets : (n p : ℕ) → f.master ≡ counted n p → Step mask f (reset_child n f)
  dies : (p : ℕ) → is_in p f.workers ≡ true → Step mask f (end_worker p f)
  stops : is_gone f.master ≡ false → Step mask f (stop_master mask f)
  delivers :
      (p : ℕ) → is_in p f.signalled ≡ true → is_in p f.workers ≡ true → Step mask f (end_worker p f)

-- The daemon as it enters the loop.
abbrev pub entered : Family
entered = record { master = forking 0; workers = []; signalled = []; pid_file = true; log = [] }

pub data Reach (mask : Option Bytes) : Family → Type 0 where
  here : Reach mask entered
  later : {f g : Family} → Reach mask f → Step mask f g → Reach mask g
