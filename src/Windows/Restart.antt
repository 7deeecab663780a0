-- ===== src/Windows/Restart.antt =====
-- `DaemonRestart` of src/daemonize_win.inl.
pub mod Arguments
use svnsrv.Base.{
  ℕ, Bool, true, false, not, List, [], ◌∷◌, ◌++◌, Option, none, some, ◌==◌, if◌then◌else◌,
}
use svnsrv.Base.Run.{Run, done, crash, ◌>>=◌}
use svnsrv.Base.Text.{Bytes, codes, c_str}
use svnsrv.Windows.Service.{
  Host, Action, terminates, closes, unlinks, creates, closes_created, prints, complains,
  not_running, terminate_failed, check_pid,
}
use svnsrv.Windows.Cmdline.{build_cmdline}

abbrev pub line_size : ℕ
line_size = 32767

-- `if (result)` and what follows it, which is `false` for both.
unfoldable pub reported : Bool → List Action
reported created =
    if created then prints (codes "restart svnsrv success !\n") ∷ closes_created ∷ [] else []

-- What follows the end of the old process, with whether `CreateProcessW` succeeds.
unfoldable pub start_again : Bool → Option Bytes → Bytes → Run (Bool × List Action)
unfolding build_cmdline reported
start_again created name oldcmd = build_cmdline line_size name oldcmd >>= λ built. elim built [
  | none ↦ done (false, [])
  | some line ↦ done (false, creates line ∷ reported created)
]

unfoldable pub unkilled : Bool → List Action
unkilled killed = if killed then [] else terminate_failed ∷ []

-- What follows `check_pid`. `read_line` is `GetProcessCommandline`, and `reopens` whether
-- `OpenProcess` gives a handle after `check_pid`; `killed` and `created` are the answers of
-- `TerminateProcess` and `CreateProcessW`. The result, and what was done.
unfoldable pub restart_process :
    (ℕ → Run (Option Bytes))
    → Bool
    → Bool
    → Bool
    → Option Bytes
    → Bytes
    → ℕ
    → Run (Bool × List Action)
unfolding start_again unkilled
restart_process read_line reopens killed created name pid_file pid =
    if pid == 0
    then done (false, not_running ∷ [])
    else read_line pid >>= λ found. elim found [
      | none ↦ done (false, complains (codes "get svnsrv daemon commandline failed !\n") ∷ [])
      | some oldcmd ↦
          if not reopens
          then done (false, not_running ∷ closes 0 ∷ [])
          else start_again created name oldcmd >>= λ r.
              done
                (r.0, terminates pid ∷ (unkilled killed ++ (closes pid ∷ unlinks pid_file ∷ r.1)))
    ]

unfoldable pub daemon_restart :
    (Bytes → Option ℕ)
    → Host
    → (ℕ → Run (Option Bytes))
    → Bool
    → Bool
    → Bool
    → Option Bytes
    → Bytes
    → Run (Bool × List Action)
unfolding check_pid restart_process
daemon_restart scan h read_line reopens killed created name pid_file =
    restart_process read_line reopens killed created name (c_str pid_file)
      (check_pid scan h (c_str pid_file))
