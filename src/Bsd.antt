-- ===== src/Bsd.antt =====
-- src/daemonize_bsd.inl: the daemon's functions where they are not written yet.
use svnsrv.Base.{Bool, true}
use svnsrv.Base.Int.{ℤ, pos}
use svnsrv.Base.Text.{Bytes}

unfoldable pub daemonize : Bytes → ℤ
daemonize pidfile = pos 0

unfoldable pub daemon_wait : Bool → Bool
daemon_wait crash_restart = true

unfoldable pub daemon_signal_method : ℤ
daemon_signal_method = pos 0

unfoldable pub foreground_signal_method : ℤ
foreground_signal_method = pos 0

unfoldable pub daemon_stop : Bytes → Bool
daemon_stop pid_file = true

unfoldable pub daemon_restart : Bytes → Bool
daemon_restart pid_file = true
