-- ===== src/Lib.antt =====
-- svnsrv, a proxy for the Subversion protocol: it greets a client, reads the client's answer, finds
-- from the URL in it the storage machine that holds the repositories of the URL's owner, sends the
-- answer there, and then relays bytes in both directions.
--
-- The parts, and how they interact:
-- - Url: `SubversionUriCanonicalize` of src/SubversionHds.cc takes a URL apart. `scan` is its loop,
--   `segment_byte` the `switch (depth)`, `authority_byte` its `case 2`, `choose_port` the end.
-- - Handshake: `ParseSubversionHds` of src/SubversionHds.cc reads the client's answer. `Scan` holds
--   the locals, `step` is one round of the loop and `run` the loop. A pointer into the buffer is the
--   list of the bytes behind it. `ok` is `return 0`, `err` an early return, `fault` what has no
--   result. `end` is the address of the buffer's end, for the sums of pointers that wrap around.
-- - Toml: what the program calls of cpptoml (src/cpptoml.h, another project's library), as an
--   interface, with the reads that have a default (src/TOMLParse.cc). Router and Profile use it.
-- - Router: src/RouterSeletor.cc. `range_to_index` is `RangeToIndex`, `get_address` is `GetAddress`,
--   `initialize_manager` is `InitializeManager`. The session asks it with the owner of the URL.
-- - Klog: src/klog.cc, the logger. Each call into the C library is an effect. The session logs
--   through `line_of`, the line buffer of `access` and `log`. Klog/Stamp has the texts in front of the
--   lines, and Klog/Store what the effects leave in the files (Files is the map of them). The field
--   `out_closed` of `Klogger` is the state of `stdout`, which the logger may close.
-- - Session: src/SubversionSession.cc. One function for each handler, from the session before to
--   the session after it and the operations that it starts. Session/System makes it a step relation
--   over the completions that Boost.Asio may report: a read with data or an error, a write that is
--   whole or stopped short, in any order of the operations that wait, each at its own time.
--   Session/Opening and Session/Flow are its runs in which all goes well.
-- - Runtime: src/Runtime.cc on Linux, the names of files: `path_remove_file_spec`,
--   `get_process_image_file_folder`, `path_combine_home_exists`. What the system answers is a record.
--   Runtime/Variants has the other Unix systems.
-- - Profile: `ParseServiceProfile` of src/TOMLParse.cc, which finds and reads the settings of the
--   program: `find_profile` is its first half, `read_profile` its second.
-- - Server: src/SubversionServer.cc, the acceptor: `construct`, `start_accept` and `handle_accept`,
--   which starts a session for each client, `serve`, their sequence of completions, and
--   `subversion_server`, the entry point. Server/Pool is the acceptor with all sessions, as one step
--   relation.
--   Server/Entry is the entry point as a whole.
-- - Title: src/ProcessTitle.hpp, the title of the worker. An address is the distance from `argv[0]`
--   in the block that holds the strings of the arguments and of the environment.
-- - Daemon: src/daemonize_linux.inl. Daemon/Pid is the pid file, Daemon/Launch is `Daemonize` by the
--   answers of the system, Daemon/Restart is `DaemonStop` and `DaemonRestart`. Daemon/Master makes
--   `DaemonWait` and the handler of `SIGUSR1` a step relation on the master and its workers: the
--   steps of the loop, with `fork` and `waitpid` apart from the stores to `child_pid`, deaths and
--   signals in any order.
--   Daemon/Mask is the object that keeps the name of the pid file, with its memory.
-- - Windows: src/daemonize_win.inl (Windows/Query, Windows/Service, Windows/Cmdline,
--   Windows/Restart), and what src/Runtime.cc, src/TOMLParse.cc and src/klog.cc do on Windows
--   (Windows/Paths, Windows/Profile, Windows/Logger).
-- - Bsd: src/daemonize_bsd.inl, whose functions are stubs.
-- - Main: src/main.cc on Linux, with `SavedArgv` of src/Argv.hpp. `parse_options` is the loop over the
--   options, and `run_options` to `start_service` are what follows, each with the rest of `main`
--   behind its test. `main` calls Profile, Router and Daemon, and ends in the server.
--   Main/Proxy puts `main` and a session behind one another, and Main/Control several runs of `main`.
-- - Tests: the definitions and the theorems at concrete inputs.
--
-- `Run` is what a call does: `done` with a result, or `crash` where the code would corrupt memory,
-- use a null pointer, use a closed stream or throw past every handler. Machine words keep their wrap-around written out.
-- A loop of the code is recursion on the bytes or the rows that it reads, so nothing runs on fuel
-- but the digits of a number, for which the number itself is enough.
--
-- Code from outside is a parameter: `strtol` is any function, with what the C standard says of
-- decimal numerals in the record `Strtol` where a theorem needs it; cpptoml is the record `Toml`;
-- what Boost.Asio says of the end of an operation is `IsCompletion`; time stamps, the answers of
-- `fopen` and the validity of an address are arguments.
--
-- The calls of the system behind the daemon, the title and `main` are records of their answers
-- (`Host`, `Calls`, `Proc`, `Wmi`, `Memory`, `World`), and `fscanf` on a pid file is any function, with
-- the record `Scanf` where a theorem needs that it reads a number back.
--
-- Not modelled: src/cpptoml.h and src/argv_getopt.inl (copies of libraries, of which `getopt_long` is
-- an argument of `main`), the names of processes set by `prctl`, what
-- src/RouterSeletor.cc, src/TOMLParse.cc and src/Runtime.cc write to the standard error, and the test
-- programs.
pub mod Base
pub mod Url
pub mod Handshake
pub mod Files
pub mod Toml
pub mod Runtime
pub mod Profile
pub mod Router
pub mod Klog
pub mod Session
pub mod Server
pub mod Title
pub mod Daemon
pub mod Windows
pub mod Bsd
pub mod Main
mod Tests
