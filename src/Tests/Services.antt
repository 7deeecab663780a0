-- ===== src/Tests/Services.antt =====
-- Runs of the Windows parts of the program, and of their theorems.
use svnsrv.Base.{
  ℕ, ◌+◌, ◌<◌, true, false, [], ◌∷◌, ◌++◌, Option, none, some, ◌≡◌, refl, length, ltb,
  if◌then◌else◌, arith,
}
use svnsrv.Base.Int.{pos}
use svnsrv.Base.Run.{Run, done, crash}
use svnsrv.Base.Text.{Bytes, codes, c_str}
use svnsrv.Daemon.Launch.{returns, exits}
use svnsrv.Profile.{profile_name}
use svnsrv.Windows.Service.{
  Host, Calls, ends, closes_created, running_text, stop_success, terminates, closes, unlinks,
  creates, check_pid, daemonize, daemon_stop,
}
use svnsrv.Windows.Service.Single.{Scanf, daemonize-found}
use svnsrv.Windows.Cmdline.{path_get_args, build_cmdline}
use svnsrv.Windows.Cmdline.Room.{quoted, build_cmdline-room}
use svnsrv.Windows.Restart.{line_size, daemon_restart}
use svnsrv.Windows.Restart.Arguments.{replaces, daemon_restart-arguments}
use svnsrv.Windows.Paths.{System}
use svnsrv.Windows.Profile.{find_profile}
use svnsrv.Tests.Daemons.{read_number, read_number-digits, pid_name}

abbrev number_reader : Scanf
number_reader = record { scan = read_number; reads_digits = λ n lt. read_number-digits n }

abbrev fresh_host : Host
fresh_host = record { files = λ name. none; writable = λ name. true; opens = λ pid. true; own = 2 }

abbrev good_calls : Calls
good_calls = record {
  hidden = true;
  line = codes "svnsrv -D";
  starts = true;
  null_out = true;
  null_err = true;
  null_in = true;
}

launched : (daemonize number_reader.scan good_calls fresh_host pid_name).outcome ≡ returns (pos 0)
unfolding daemonize c_str
launched = refl

-- A process with a window starts another one with the same command line, and ends.
without_window :
    let l =
      daemonize number_reader.scan (record good_calls { hidden = false }) fresh_host pid_name in
    (l.outcome ≡ exits (pos 0)) × (l.actions ≡ creates (codes "svnsrv -D") ∷ closes_created ∷ [])
unfolding daemonize c_str
without_window = (refl, refl)

daemonize-found_example :
    let h' = record (daemonize number_reader.scan good_calls fresh_host pid_name).host {
      own = 3;
      opens = λ pid. true;
    } in
    (daemonize number_reader.scan good_calls h' pid_name ≡ ends (pos 1) (running_text 2 ∷ []) h')
    × (daemon_stop number_reader.scan h' true true pid_name
        ≡ (true, terminates 2 ∷ stop_success ∷ closes 2 ∷ unlinks (c_str pid_name) ∷ []))
daemonize-found_example =
    daemonize-found number_reader good_calls good_calls fresh_host pid_name 3 (λ pid. true) launched
      (omega arith) (omega arith) (omega arith) refl

abbrev program : Bytes
program = codes "C:\\My Programs\\svnsrv.exe"

build_cmdline-room_example : build_cmdline 64 (some program) (codes "svnsrv -D") ≡ (
    let args = path_get_args false (c_str (codes "svnsrv -D")) in
    if ltb (length (quoted program) + 1 + length args) 64
    then done (some (quoted program ++ b' ' ∷ args))
    else crash)
build_cmdline-room_example = build_cmdline-room 64 program b's' (codes "vnsrv -D") (omega arith)

new_line :
    build_cmdline 64 (some program) (codes "svnsrv -D")
    ≡ done (some (codes "\"C:\\My Programs\\svnsrv.exe\" -D"))
unfolding build_cmdline c_str
new_line = refl

abbrev running_host : Host
running_host = record fresh_host { files = λ name. some (codes "7") }

abbrev read_line : ℕ → Run (Option Bytes)
read_line pid = done (some (codes "svnsrv -D"))

running : check_pid number_reader.scan running_host (c_str pid_name) ≡ 7
unfolding check_pid c_str
running = refl

short_line :
    length program + 3 + length (path_get_args false (c_str (codes "svnsrv -D"))) < line_size
unfolding path_get_args c_str
short_line = omega arith

daemon_restart-arguments_example :
    (line : Bytes) × (daemon_restart number_reader.scan running_host read_line true true true
        (some program)
        pid_name
      ≡ done (false, replaces true true 7 (c_str pid_name) line))
    × (path_get_args false line ≡ path_get_args false (c_str (codes "svnsrv -D")))
daemon_restart-arguments_example =
    daemon_restart-arguments number_reader.scan running_host read_line true true program pid_name 7
      b's' (codes "vnsrv -D") running (omega arith) refl (omega arith) short_line

-- A user without any profile.
abbrev bare_system : System
bare_system = record {
  to_page = λ text. some text;
  from_page = λ text. some text;
  from_utf8 = λ text. some text;
  module_name = some (codes "C:\\x\\svnsrv.exe");
  profile_folder = some (codes "C:\\u");
  without_file = λ name. some (codes "C:\\x");
  has_attributes = λ name. false;
}

-- A profile that is nowhere is taken for the one in the folder of the user.
missing_profile : find_profile bare_system none ≡ done (some (codes "C:\\u\\.svnsrv/svnsrv.toml"))
unfolding find_profile profile_name c_str
missing_profile = refl
