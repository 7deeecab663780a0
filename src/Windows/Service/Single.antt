-- ===== src/Windows/Service/Single.antt =====
-- The pid file of src/daemonize_win.inl from one process to the next.
use svnsrv.Base.{ℕ, ◌<◌, ◌^◌, Bool, true, false, [], ◌∷◌, Option, some, ◌≡◌, ◌≢◌, refl, ◌==◌, arith}
use svnsrv.Base.Decimal.{digits}
use svnsrv.Base.Int.{pos}
use svnsrv.Base.Text.{Bytes, c_str}
use svnsrv.Daemon.Launch.{returns}
use svnsrv.Files.{update_self}
use svnsrv.Windows.Service.{
  Host, terminates, closes, unlinks, running_pid, check_pid, write_pid, Calls, ends, running_text,
  stop_success, hidden_start, daemonize, daemon_stop,
}

-- What the program relies on of `fscanf` with `PRIu32`: it reads back the decimal number of a pid.
pub record Scanf : Type 0 where
  pub scan : Bytes → Option ℕ
  pub reads_digits : (n : ℕ) → n < 2 ^ 32 → scan (digits n) ≡ some n

-- A launch that returns 0 has written its own pid.
hidden_start-stored :
    (calls : Calls) (h : Host) (pidfile : Bytes)
    → (hidden_start calls h pidfile).outcome ≡ returns (pos 0)
    → (hidden_start calls h pidfile).host.files pidfile ≡ some (digits h.own)
unfolding hidden_start write_pid
hidden_start-stored calls h pidfile ok =
    ground (arith, update_self h.files pidfile (some (digits h.own)))

daemonize-stored :
    (scan : Bytes → Option ℕ) (calls : Calls) (h : Host) (pidfile : Bytes)
    → (daemonize scan calls h pidfile).outcome ≡ returns (pos 0)
    → (daemonize scan calls h pidfile).host.files (c_str pidfile) ≡ some (digits h.own)
unfolding daemonize
daemonize-stored scan calls h pidfile ok =
    ground (arith, hidden_start-stored calls h (c_str pidfile))

running_pid-other :
    (h : Host) (n : ℕ) → n ≢ 0 → n ≢ h.own → h.opens n ≡ true → running_pid h (some n) ≡ n
unfolding running_pid
running_pid-other h n nz other o = ground arith

check_pid-stored :
    (s : Scanf) (h : Host) (pidfile : Bytes) (n : ℕ)
    → h.files pidfile ≡ some (digits n)
    → n < 2 ^ 32
    → n ≢ 0
    → n ≢ h.own
    → h.opens n ≡ true
    → check_pid s.scan h pidfile ≡ n
unfolding check_pid
check_pid-stored s h pidfile n e lt nz other o =
    rw (check_pid, e, s.reads_digits n lt) (running_pid-other h n nz other o)

daemonize-running :
    (scan : Bytes → Option ℕ) (calls : Calls) (h : Host) (pidfile : Bytes) (n : ℕ)
    → check_pid scan h (c_str pidfile) ≡ n
    → n ≢ 0
    → daemonize scan calls h pidfile ≡ ends (pos 1) (running_text n ∷ []) h
unfolding daemonize
daemonize-running scan calls h pidfile n e nz =
    let alive : (n == 0) ≡ false = ground arith in rw (daemonize, e, alive) refl

daemon_stop-running :
    (scan : Bytes → Option ℕ) (h : Host) (pid_file : Bytes) (n : ℕ)
    → check_pid scan h (c_str pid_file) ≡ n
    → n ≢ 0
    → daemon_stop scan h true true pid_file
      ≡ (true, terminates n ∷ stop_success ∷ closes n ∷ unlinks (c_str pid_file) ∷ [])
unfolding daemon_stop
daemon_stop-running scan h pid_file n e nz =
    let alive : (n == 0) ≡ false = ground arith in rw (daemon_stop, e, alive) refl

-- A launch that returns 0, as the process with the pid of the service: while that process can be
-- opened, every later launch by another process reports that pid, returns 1 and changes nothing, and `DaemonStop` in
-- another process, if the system terminates the service for it, terminates just that one, says so,
-- closes its handle, and removes the pid file.
pub daemonize-found :
    (s : Scanf) (calls calls' : Calls) (h : Host) (pidfile : Bytes) (q : ℕ) (opens' : ℕ → Bool)
    → (daemonize s.scan calls h pidfile).outcome ≡ returns (pos 0)
    → h.own ≢ 0
    → h.own < 2 ^ 32
    → h.own ≢ q
    → opens' h.own ≡ true
    → let h' = record (daemonize s.scan calls h pidfile).host { own = q; opens = opens' } in
      (daemonize s.scan calls' h' pidfile ≡ ends (pos 1) (running_text h.own ∷ []) h')
      × (daemon_stop s.scan h' true true pidfile
          ≡ (true, terminates h.own ∷ stop_success ∷ closes h.own ∷ unlinks (c_str pidfile) ∷ []))
daemonize-found s calls calls' h pidfile q opens' ok nz lt other o =
    let h' : Host = record (daemonize s.scan calls h pidfile).host { own = q; opens = opens' } in
    let found =
      check_pid-stored s h' (c_str pidfile) h.own (daemonize-stored s.scan calls h pidfile ok) lt nz
        other o in
    (
      daemonize-running s.scan calls' h' pidfile h.own found nz,
      daemon_stop-running s.scan h' pidfile h.own found nz,
    )
