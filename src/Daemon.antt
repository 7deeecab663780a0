-- ===== src/Daemon.antt =====
-- src/daemonize_linux.inl, the daemon on Linux: its pid file, how it starts, the master that starts
-- its worker anew, its signals, and the commands that stop and restart it.
pub mod Pid
pub mod Launch
pub mod Mask
pub mod Single
pub mod Master
pub mod Kept
pub mod Workers
pub mod Restart
pub mod Cmdline
