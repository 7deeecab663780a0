-- ===== src/Windows.antt =====
-- The Windows side of the program: src/daemonize_win.inl, and the Windows parts of src/Runtime.cc,
-- src/TOMLParse.cc and src/klog.cc. A wide text is the list of its 16-bit characters.
pub mod Paths
pub mod Profile
pub mod Query
pub mod Service
pub mod Cmdline
pub mod Restart
pub mod Logger
