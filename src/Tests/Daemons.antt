-- ===== src/Tests/Daemons.antt =====
-- Runs of src/daemonize_linux.inl, and of its theorems.
use svnsrv.Base.{
  ℕ, true, false, not, List, [], ◌∷◌, ◌++◌, Option, none, some, ◌≡◌, ◌≢◌, refl, ◌∙◌, ap, is_empty,
  if◌then◌else◌, arith,
}
use svnsrv.Base.Decimal.{digits, decimal-digits, digits-IsDigit, digits-ne-nil}
use svnsrv.Base.Int.{ℤ, pos}
use svnsrv.Base.Text.{Bytes, codes, c_str, decimal, laid_out}
use svnsrv.Daemon.Pid.{Host, Scanf, is_pid, check_pid}
use svnsrv.Daemon.Launch.{Calls, returns, child, parent, ends, running_text, daemonize}
use svnsrv.Daemon.Single.{daemonize-single}
use svnsrv.Daemon.Master.{
  Family, forking, waiting, gone, is_in, entered, fork_worker, store_child, end_wait, count_restart,
  reset_child, end_worker, stop_master, Reach, forks, stores, waited, counts, resets, dies, here,
  later,
}
use svnsrv.Daemon.Workers.{kept_file, Reach-stop}
use svnsrv.Daemon.Restart.{Proc, executes, returned, terminates, waits_for, argv_of, daemon_restart}
use svnsrv.Daemon.Cmdline.{announced, daemon_restart-program}
use svnsrv.Tests.Concrete.{leading_digits, leading_digits-all}

-- A reader of numbers without a sign.
abbrev number_in : Bytes → Option ℕ
number_in text = if is_empty text then none else some (decimal text)

abbrev pub read_number : Bytes → Option ℕ
read_number text = number_in (leading_digits text)

number_in-some : (text : Bytes) → text ≢ [] → number_in text ≡ some (decimal text)
number_in-some [] h = absurd (h refl)
number_in-some (c ∷ cs) h = refl

pub read_number-digits : (n : ℕ) → read_number (digits n) ≡ some n
read_number-digits n =
    ap number_in (leading_digits-all (digits n) (digits-IsDigit n))
    ∙ (number_in-some (digits n) (digits-ne-nil n) ∙ ap some (decimal-digits n))

abbrev positive : Option ℕ → Option ℤ
positive none = none
positive (some n) = some (pos n)

abbrev pub pid_reader : Scanf
pid_reader = record {
  scan = λ text. positive (read_number text);
  reads_digits = λ n lt. ap positive (read_number-digits n);
}

abbrev pub pid_name : Bytes
pid_name = codes "/p"

-- A system without a pid file, where the process 1 starts the daemon as the process 2.
abbrev pub fresh_host : Host
fresh_host = record { files = λ name. none; writable = λ name. true; exists = λ pid. true; own = 1 }

abbrev pub good_calls : Calls
good_calls = record {
  fork = child;
  child_own = 2;
  setsid = true;
  null_fd = some 3;
  dup_in = true;
  dup_out = true;
  close_fd = true;
  malloc = true;
}

launched : (daemonize pid_reader.scan good_calls fresh_host pid_name).outcome ≡ returns (pos 0)
unfolding daemonize c_str
launched = refl

daemonize-single_example :
    let h' = record (daemonize pid_reader.scan good_calls fresh_host pid_name).host {
      own = 3;
      exists = λ pid. true;
    } in
    daemonize pid_reader.scan good_calls h' pid_name ≡ ends (pos 1) (running_text (pos 2) ∷ []) h'
daemonize-single_example =
    daemonize-single pid_reader good_calls good_calls fresh_host pid_name 3 (λ pid. true) launched
      (omega arith) (omega arith) (omega arith) refl

-- The master forks the worker 7, which dies, and waits for it.
abbrev just_forked : Family
just_forked = fork_worker 0 (parent 7) entered

abbrev with_worker : Family
with_worker = store_child 0 7 just_forked

abbrev reaped_worker : Family
reaped_worker = end_wait 0 7 (end_worker 7 with_worker)

abbrev without_worker : Family
without_worker = reset_child 1 (count_restart 0 7 reaped_worker)

with_worker-reached : Reach (some pid_name) with_worker
unfolding fork_worker
with_worker-reached = later (later here (forks 0 6 refl)) (stores 0 7 refl)

reaped_worker-reached : Reach (some pid_name) reaped_worker
unfolding fork_worker store_child
reaped_worker-reached = later (later with_worker-reached (dies 7 refl)) (waited 0 7 refl refl)

without_worker-reached : Reach (some pid_name) without_worker
unfolding end_wait count_restart
without_worker-reached = later (later reaped_worker-reached (counts 0 7 refl)) (resets 1 7 refl)

first_wait : with_worker.master ≡ waiting 0 7
unfolding store_child
first_wait = refl

second_fork : without_worker.master ≡ forking 1
unfolding reset_child
second_fork = refl

-- `SIGUSR1` before the store to `child_pid` leaves the worker with no signal.
left_behind :
    ((stop_master (some pid_name) just_forked).workers ≡ 7 ∷ [])
    × ((stop_master (some pid_name) just_forked).signalled ≡ [])
unfolding fork_worker stop_master
left_behind = (refl, refl)

Reach-stop_example :
    ((stop_master (some pid_name) with_worker).master ≡ gone none)
    × ((stop_master (some pid_name) with_worker).pid_file
        ≡ kept_file (some pid_name) with_worker.pid_file)
    × (is_in 7 (stop_master (some pid_name) with_worker).signalled ≡ true)
    × ((end_worker 7 (stop_master (some pid_name) with_worker)).workers ≡ [])
    × ((stop_master (some pid_name) without_worker).master ≡ gone none)
    × ((stop_master (some pid_name) without_worker).pid_file ≡ without_worker.pid_file)
Reach-stop_example =
    Reach-stop 0 7 1 with_worker-reached first_wait without_worker-reached second_fork

abbrev arguments : List Bytes
arguments = codes "-D" ∷ codes "-c" ∷ []

-- The argument behind an empty one is lost.
lost_argument : argv_of (some (codes "a" ++ 0 ∷ 0 ∷ codes "b" ++ 0 ∷ [])) ≡ codes "a" ∷ [] ∷ []
unfolding argv_of c_str
lost_argument = refl

abbrev running_host : Host
running_host = record fresh_host { files = λ name. some (codes "2") }

abbrev pub shown : Proc
shown = record {
  exe = some (codes "/bin/svnsrv");
  opens = true;
  cmdline = some (laid_out (codes "svnsrv" ∷ arguments));
}

daemon_runs : is_pid (check_pid pid_reader.scan running_host (c_str pid_name)) 0 ≡ false
unfolding check_pid c_str
daemon_runs = refl

daemon_restart-program_example :
    let pid = check_pid pid_reader.scan running_host (c_str pid_name) in
    (daemon_restart pid_reader.scan running_host running_host shown child none pid_name ≡ (
      executes (codes "/bin/svnsrv") (codes "svnsrv" ∷ arguments),
      terminates pid ∷ waits_for pid ∷ [],
    ))
    × (daemon_restart pid_reader.scan running_host running_host shown (parent 9) none pid_name ≡ (
      returned (not (is_pid (check_pid pid_reader.scan running_host (c_str pid_name)) 0)),
      terminates pid
          ∷ waits_for pid
          ∷ waits_for (pos 9)
          ∷ announced (check_pid pid_reader.scan running_host (c_str pid_name)),
    ))
daemon_restart-program_example =
    daemon_restart-program pid_reader.scan running_host running_host shown 9 none pid_name
      (codes "/bin/svnsrv") (codes "svnsrv") arguments daemon_runs refl (λ e. cc) (omega arith)
      (omega arith) refl refl (omega arith) (omega arith) ((λ e. cc), ((λ e. cc), tt))
