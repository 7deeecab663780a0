-- ===== src/Daemon/Single.antt =====
-- `Daemonize` of src/daemonize_linux.inl from one process to the next, by the pid file.
use svnsrv.Base.{
  ℕ, ◌<◌, ◌^◌, Bool, true, false, not, ◌&&◌, ◌∷◌, [], Option, none, some, ◌≡◌, ◌≢◌, ◌↔◌, inl, inr,
  Option-cases, refl, ltb, arith,
}
use svnsrv.Base.Decimal.{digits}
use svnsrv.Base.Int.{ℤ, pos}
use svnsrv.Base.Text.{Bytes, c_str}
use svnsrv.Files.{update, update_self}
use svnsrv.Daemon.Pid.{Host, Scanf, is_pid, running_pid, check_pid, write_pid}
use svnsrv.Daemon.Launch.{
  Fork, failed, child, parent, Calls, Launch, returns, ends, running_text, store_pid, redirect,
  cache, open_null, split_off, daemonize,
}

-- A launch that returns 0 has written the child's pid.
abbrev Stored : Calls → Bytes → Launch → Type 0
Stored calls pidfile l =
    l.outcome ≡ returns (pos 0) → l.host.files pidfile ≡ some (digits calls.child_own)

store_pid-Stored :
    (calls : Calls) (h : Host) (pidfile : Bytes)
    → h.own ≡ calls.child_own
    → Stored calls pidfile (store_pid calls h pidfile)
unfolding store_pid write_pid
store_pid-Stored calls h pidfile e ok =
    ground (arith, update_self h.files pidfile (some (digits h.own)))

split_off-Stored :
    (calls : Calls) (h : Host) (pidfile : Bytes) (f : Fork)
    → Stored calls pidfile (split_off calls h pidfile f)
unfolding split_off open_null redirect
split_off-Stored calls h pidfile failed ok = ground arith
split_off-Stored calls h pidfile (parent pid) ok = ground arith
split_off-Stored calls h pidfile child ok =
    ground (arith, store_pid-Stored calls (record h { own = calls.child_own }) pidfile refl)

running_pid-other :
    (h : Host) (n : ℕ)
    → n ≢ 0
    → n ≢ h.own
    → h.exists (pos n) ≡ true
    → running_pid h (some (pos n)) ≡ pos n
unfolding running_pid
running_pid-other h n nz other ex = ground arith

pub check_pid-stored :
    (s : Scanf) (h : Host) (pidfile : Bytes) (n : ℕ)
    → h.files pidfile ≡ some (digits n)
    → n < 2 ^ 31
    → n ≢ 0
    → n ≢ h.own
    → h.exists (pos n) ≡ true
    → check_pid s.scan h pidfile ≡ pos n
unfolding check_pid
check_pid-stored s h pidfile n f lt nz other ex =
    rw (check_pid, f, s.reads_digits n lt) (running_pid-other h n nz other ex)

running_pid-dead :
    (h : Host) (n : ℕ) → h.exists (pos n) ≡ false → running_pid h (some (pos n)) ≡ pos 0
unfolding running_pid
running_pid-dead h n dead = ground arith

pub check_pid-stale :
    (s : Scanf) (h : Host) (pidfile : Bytes) (n : ℕ)
    → h.files pidfile ≡ some (digits n)
    → n < 2 ^ 31
    → h.exists (pos n) ≡ false
    → check_pid s.scan h pidfile ≡ pos 0
unfolding check_pid
check_pid-stale s h pidfile n f lt dead =
    rw (check_pid, f, s.reads_digits n lt) (running_pid-dead h n dead)

pub daemonize-running :
    (scan : Bytes → Option ℤ) (calls : Calls) (h : Host) (pidfile : Bytes) (n : ℕ)
    → check_pid scan h (c_str pidfile) ≡ pos n
    → n ≢ 0
    → daemonize scan calls h pidfile ≡ ends (pos 1) (running_text (pos n) ∷ []) h
unfolding daemonize
daemonize-running scan calls h pidfile n e nz = rw (daemonize, e) (ground arith)

daemonize-Stored :
    (scan : Bytes → Option ℤ) (calls : Calls) (h : Host) (pidfile : Bytes)
    → Stored calls (c_str pidfile) (daemonize scan calls h pidfile)
unfolding daemonize
daemonize-Stored scan calls h pidfile ok =
    ground (arith, split_off-Stored calls h (c_str pidfile) calls.fork)

-- A launch that returns 0 makes every later one, by another process and while the daemon lives,
-- return 1 before it forks, report the daemon's pid, and leave the pid file alone; the daemon's pid is positive and fits an
-- `int`.
pub daemonize-single :
    (s : Scanf) (calls calls' : Calls) (h : Host) (pidfile : Bytes) (q : ℕ) (exists' : ℤ → Bool)
    → (daemonize s.scan calls h pidfile).outcome ≡ returns (pos 0)
    → calls.child_own ≢ 0
    → calls.child_own < 2 ^ 31
    → calls.child_own ≢ q
    → exists' (pos calls.child_own) ≡ true
    → let h' = record (daemonize s.scan calls h pidfile).host { own = q; exists = exists' } in
      daemonize s.scan calls' h' pidfile ≡ ends (pos 1) (running_text (pos calls.child_own) ∷ []) h'
daemonize-single s calls calls' h pidfile q exists' ok nz lt other ex =
    let h' = record (daemonize s.scan calls h pidfile).host { own = q; exists = exists' } in
    daemonize-running s.scan calls' h' pidfile calls.child_own
      (check_pid-stored s h' (c_str pidfile) calls.child_own
        (daemonize-Stored s.scan calls h pidfile ok) lt nz other ex)
      nz

-- /dev/null opens, and what is not a standard descriptor can be closed again.
abbrev null_opens : Calls → Option ℕ → Bool
null_opens calls none = false
null_opens calls (some fd) = not (ltb 2 fd && not calls.close_fd)

-- What a launch needs to succeed: no daemon runs, this is the child of the fork, and no call fails.
abbrev pub Starts : (Bytes → Option ℤ) → Calls → Host → Bytes → Type 0
Starts scan calls h pidfile =
    (is_pid (check_pid scan h (c_str pidfile)) 0 ≡ true)
    × (calls.fork ≡ child)
    × (calls.setsid ≡ true)
    × (calls.dup_in ≡ true)
    × (calls.dup_out ≡ true)
    × (h.writable (c_str pidfile) ≡ true)
    × (null_opens calls calls.null_fd ≡ true)

-- What such a launch leaves.
abbrev pub launched : Calls → Host → Bytes → Launch
launched calls h file = record {
  outcome = returns (pos 0);
  host = record h {
    files = update h.files file (some (digits calls.child_own));
    own = calls.child_own;
  };
  mask = cache calls.malloc (some file);
  log = [];
  errors = [];
}

open_null-success :
    (calls : Calls) (h : Host) (file : Bytes)
    → ((open_null calls h file).outcome ≡ returns (pos 0)) ↔ (
        (calls.dup_in ≡ true)
        × (calls.dup_out ≡ true)
        × (h.writable file ≡ true)
        × (null_opens calls calls.null_fd ≡ true))
unfolding open_null redirect store_pid write_pid
open_null-success calls h file = (
  (λ ok. elim (Option-cases calls.null_fd) [ inl e ↦ ground arith | inr (fd, e) ↦ ground arith ]),
  (λ ok. elim (Option-cases calls.null_fd) [ inl e ↦ ground arith | inr (fd, e) ↦ ground arith ]),
)

-- `Daemonize` returns 0 in just these cases: the pid file names no other process that runs, this is
-- the child of the fork, and no call of the system fails, of which closing /dev/null is one where it
-- is no standard descriptor, and the pid file can be opened for writing.
daemonize_success :
    (scan : Bytes → Option ℤ) (calls : Calls) (h : Host) (pidfile : Bytes)
    → ((daemonize scan calls h pidfile).outcome ≡ returns (pos 0)) ↔ Starts scan calls h pidfile
unfolding daemonize split_off
daemonize_success scan calls h pidfile =
    ground (arith, open_null-success calls (record h { own = calls.child_own }) (c_str pidfile))

open_null-launched :
    (calls : Calls) (h : Host) (file : Bytes)
    → calls.dup_in ≡ true
    → calls.dup_out ≡ true
    → h.writable file ≡ true
    → null_opens calls calls.null_fd ≡ true
    → h.own ≡ calls.child_own
    → open_null calls h file ≡ launched calls h file
unfolding open_null redirect store_pid write_pid
open_null-launched calls h file i o wr nu own = elim (Option-cases calls.null_fd) [
  | inl e ↦ ground arith
  | inr (fd, e) ↦ ground arith
]

pub daemonize-launched :
    (scan : Bytes → Option ℤ) (calls : Calls) (h : Host) (pidfile : Bytes)
    → Starts scan calls h pidfile
    → daemonize scan calls h pidfile ≡ launched calls h (c_str pidfile)
unfolding daemonize split_off
daemonize-launched scan calls h pidfile st = ground (
  arith,
  open_null-launched calls (record h { own = calls.child_own }) (c_str pidfile) (st.3) (st.4) (st.5)
      (st.6) refl,
)
