-- ===== src/Daemon/Cmdline.antt =====
-- The command line of the daemon, as `ParsePathAndArgv` of src/daemonize_linux.inl reads it back.
use svnsrv.Base.{
  take-all, ℕ, ◌≤◌, true, false, not, List, [], ◌∷◌, ◌++◌, Option, some, ◌≡◌, ◌≢◌, refl, ap, ◌∙◌,
  length, All, none, if◌then◌else◌, arith,
}
use svnsrv.Base.Int.{ℤ, pos}
use svnsrv.Base.Text.{Bytes, codes, c_str, c_str-no_zero, c_str-append, laid_out, IsText}
use svnsrv.Daemon.Pid.{Host, is_pid, int_text, check_pid}
use svnsrv.Daemon.Launch.{child, parent}
use svnsrv.Daemon.Restart.{
  terminates, waits_for, Proc, more_args, argv_of, exe_path, parse_path_and_argv, returned,
  executes, Command, prints, verdict, start_again, daemon_restart,
}

-- The arguments without each one that follows an empty one.
abbrev pub survivors : List Bytes → List Bytes
survivors [] = []
survivors ([] ∷ []) = [] ∷ []
survivors ([] ∷ b ∷ as_) = [] ∷ survivors as_
survivors ((c ∷ cs) ∷ as_) = (c ∷ cs) ∷ survivors as_

more_args-step : (c d : ℕ) (ds : Bytes) → c ≢ 0 → more_args (c ∷ d ∷ ds) ≡ more_args (d ∷ ds)
unfolding more_args
more_args-step c d ds h = ground arith

more_args-zero : (d : ℕ) (ds : Bytes) → more_args (0 ∷ d ∷ ds) ≡ c_str (d ∷ ds) ∷ more_args ds
unfolding more_args
more_args-zero d ds = refl

-- From within an argument of which `text` is left.
more_args-survivors :
    (as_ : List Bytes) (text : Bytes)
    → IsText text
    → All IsText as_
    → more_args (text ++ 0 ∷ laid_out as_) ≡ survivors as_
unfolding more_args
more_args-survivors as_ (c ∷ []) t h = ground (arith, more_args-survivors as_ [] tt h)
more_args-survivors as_ (c ∷ d ∷ ds) t h = ground (arith, more_args-survivors as_ (d ∷ ds) t.1 h)
more_args-survivors [] [] t h = refl
more_args-survivors ([] ∷ []) [] t h = cc (c_str-append [] [] tt)
more_args-survivors ([] ∷ b ∷ as_) [] t h =
    cc (c_str-append [] (b ++ 0 ∷ laid_out as_) tt, more_args-survivors as_ b h.1.0 h.1.1)
more_args-survivors ((c ∷ cs) ∷ as_) [] t h =
    cc (c_str-append (c ∷ cs) (laid_out as_) h.0, more_args-survivors as_ cs h.0.1 h.1)

pub argv_of-survivors :
    (a : Bytes) (as_ : List Bytes)
    → IsText a
    → All IsText as_
    → argv_of (some (laid_out (a ∷ as_))) ≡ a ∷ survivors as_
unfolding argv_of
argv_of-survivors a as_ h hs = cc (c_str-append a (laid_out as_) h, more_args-survivors as_ a h hs)

survivors-all : (as_ : List Bytes) → All (λ a. a ≢ []) as_ → survivors as_ ≡ as_
survivors-all [] h = refl
survivors-all ([] ∷ []) h = refl
survivors-all ([] ∷ b ∷ as_) h = absurd (h.0 refl)
survivors-all ((c ∷ cs) ∷ as_) h = ap (◌∷◌ (c ∷ cs)) (survivors-all as_ h.1)

exe_path-link :
    (link : Bytes) → link ≢ [] → IsText link → length link ≤ 4095 → exe_path (some link) ≡ some link
unfolding exe_path
exe_path-link [] ne t h = absurd (ne refl)
exe_path-link (c ∷ cs) ne t h =
    ap some (ap c_str (take-all 4095 (c ∷ cs) h) ∙ c_str-no_zero (c ∷ cs) t)

parse_path_and_argv-laid_out :
    (p : Proc) (link a : Bytes) (as_ : List Bytes)
    → p.exe ≡ some link
    → link ≢ []
    → IsText link
    → length link ≤ 4095
    → p.opens ≡ true
    → p.cmdline ≡ some (laid_out (a ∷ as_))
    → IsText a
    → All IsText as_
    → All (λ x. x ≢ []) as_
    → parse_path_and_argv p ≡ some (link, a ∷ as_)
unfolding parse_path_and_argv
parse_path_and_argv-laid_out p link a as_ e ne t short o c ta tas nes = rw (
  parse_path_and_argv,
  e,
  exe_path-link link ne t short,
  o,
  c,
  argv_of-survivors a as_ ta tas,
  survivors-all as_ nes,
)

-- What is written about the process that runs then.
abbrev pub announced : ℤ → List Command
announced nid =
    if is_pid nid 0
    then []
    else prints (codes "New daemon service runing, pid= " ++ (int_text nid ++ b'\n' ∷ [])) ∷ []

verdict-announced :
    (scan : Bytes → Option ℤ) (h : Host) (pid_file : Bytes)
    → verdict scan h pid_file ≡ (
      returned (not (is_pid (check_pid scan h pid_file) 0)),
      announced (check_pid scan h pid_file),
    )
unfolding verdict
verdict-announced scan h pid_file = ground arith

-- What `DaemonRestart` does where the pid file names a process that runs, /proc shows the program's
-- path, of up to 4095 bytes, and its whole command line, whose arguments but the first are not
-- empty. It sends that process the signal and calls `waitpid` for it. In the child, where `execvp` succeeds,
-- the same program goes on with the same arguments. In the parent the result is whether the pid
-- file then names a process that runs, which is announced if it does.
pub daemon_restart-program :
    (scan : Bytes → Option ℤ) (h later : Host) (p : Proc) (cpid : ℕ) (failure : Option (ℕ × Bytes))
    (pid_file link a : Bytes) (as_ : List Bytes)
    → is_pid (check_pid scan h (c_str pid_file)) 0 ≡ false
    → p.exe ≡ some link
    → link ≢ []
    → IsText link
    → length link ≤ 4095
    → p.opens ≡ true
    → p.cmdline ≡ some (laid_out (a ∷ as_))
    → IsText a
    → All IsText as_
    → All (λ x. x ≢ []) as_
    → let pid = check_pid scan h (c_str pid_file) in
      (daemon_restart scan h later p child none pid_file
        ≡ (executes link (a ∷ as_), terminates pid ∷ waits_for pid ∷ []))
      × (daemon_restart scan h later p (parent cpid) failure pid_file ≡ (
        returned (not (is_pid (check_pid scan later (c_str pid_file)) 0)),
        terminates pid
            ∷ waits_for pid
            ∷ waits_for (pos cpid)
            ∷ announced (check_pid scan later (c_str pid_file)),
      ))
unfolding daemon_restart start_again
daemon_restart-program scan h later p cpid failure pid_file link a as_ run e ne t short o c ta tas
      nes =
    rw
      (
        daemon_restart,
        run,
        parse_path_and_argv-laid_out p link a as_ e ne t short o c ta tas nes,
        verdict-announced scan later (c_str pid_file),
      )
      (refl, refl)
