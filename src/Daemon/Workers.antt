-- ===== src/Daemon/Workers.antt =====
-- The master of src/daemonize_linux.inl and its workers, over all that may happen to them.
use svnsrv.Base.{
  ℕ, zero, suc, Bool, true, false, List, [], ◌∷◌, ◌++◌, Option, none, some, ◌≡◌, ◌≢◌, inl, inr,
  refl, arith,
}
use svnsrv.Base.Text.{Bytes, codes}
use svnsrv.Base.Int.{pos}
use svnsrv.Daemon.Master.{
  signal_daemon_kill, Master, forking, forked, waiting, reaped, counted, refused, gone, child_pid,
  unstored, is_gone, Family, without, is_in, carry_out, stop_master, end_worker, Step, forks,
  stores, fork_fails, gives_up, waited, counts, resets, dies, stops, delivers, Reach, here, later,
}
use svnsrv.Daemon.Kept.{
  AtMost, Accounted, Inv, fork_worker-Inv, fork_fails-Inv, give_up-Inv, store_child-Inv,
  count_restart-Inv, reset_child-Inv, without_self, end_worker-Inv, end_wait-Inv,
}

abbrev pub master_line : List Bytes
master_line = codes "svnsrv master shutdown" ∷ []

-- Whether the pid file is there after the master's handler.
abbrev pub kept_file : Option Bytes → Bool → Bool
kept_file none there = there
kept_file (some file) there = false

-- The handler where `child_pid` is a child: it has the signal on the way.
stop_master-child :
    (mask : Option Bytes) (f : Family) (p : ℕ)
    → child_pid f.master ≡ pos p
    → p ≢ 0
    → stop_master mask f ≡ record f {
      master = gone (unstored f.master);
      signalled = p ∷ f.signalled;
      pid_file = kept_file mask f.pid_file;
      log = f.log ++ master_line;
    }
unfolding stop_master signal_daemon_kill carry_out
stop_master-child mask f zero e nz = absurd (nz refl)
stop_master-child none f (suc p) e nz = rw e refl
stop_master-child (some file) f (suc p) e nz = rw e refl

-- The handler where `child_pid` is 0: the master takes itself for a worker.
stop_master-childless :
    (mask : Option Bytes) (f : Family)
    → child_pid f.master ≡ pos 0
    → stop_master mask f ≡ record f {
      master = gone (unstored f.master);
      log = f.log ++ codes "svnsrv worker shutdown" ∷ [];
    }
unfolding stop_master signal_daemon_kill carry_out
stop_master-childless mask f e = rw e refl

stop_master-refused :
    (mask : Option Bytes) (f : Family)
    → f.master ≡ refused
    → stop_master mask f
      ≡ record f { master = gone none; log = f.log ++ codes "svnsrv single shutdown" ∷ [] }
unfolding stop_master signal_daemon_kill carry_out
stop_master-refused mask f e = rw e refl

stopped-Accounted :
    (p : ℕ) (workers signalled : List ℕ)
    → AtMost p workers
    → Accounted (gone none) workers (p ∷ signalled)
stopped-Accounted p workers signalled (inl e) = inl e
stopped-Accounted p workers signalled (inr e) = inr (p, e, ground arith)

-- A master that ends has nothing but its workers to account for.
ended-Inv :
    (f : Family) (left : Option ℕ)
    → f.master ≡ gone left
    → Accounted (gone left) f.workers f.signalled
    → Inv f
ended-Inv f left e a = record { accounted = rw e a; has_child = rw e tt; counted_right = rw e tt }

stop_master-Inv :
    (mask : Option Bytes) (f : Family) (m : Master)
    → f.master ≡ m
    → is_gone m ≡ false
    → Inv f
    → Inv (stop_master mask f)
stop_master-Inv mask f (forking n) e live i =
    rw (stop_master-childless mask f (rw e refl))
      (ended-Inv _ none (rw e refl) (inl (rw e at i.accounted)))
stop_master-Inv mask f (forked n p) e live i =
    rw (stop_master-childless mask f (rw e refl))
      (ended-Inv _ (some p) (rw e refl) (rw e at i.accounted))
stop_master-Inv mask f (waiting n p) e live i =
    rw (stop_master-child mask f p (rw e refl) (rw e at i.has_child)) (
      ended-Inv _ none (rw e refl)
        (stopped-Accounted p f.workers f.signalled (rw e at i.accounted)))
stop_master-Inv mask f (reaped n p) e live i =
    rw (stop_master-child mask f p (rw e refl) (rw e at i.has_child))
      (ended-Inv _ none (rw e refl) (inl (rw e at i.accounted)))
stop_master-Inv mask f (counted n p) e live i =
    rw (stop_master-child mask f p (rw e refl) (rw e at i.has_child))
      (ended-Inv _ none (rw e refl) (inl (rw e at i.accounted)))
stop_master-Inv mask f refused e live i =
    rw (stop_master-refused mask f e) (ended-Inv _ none refl (inl (rw e at i.accounted)))
stop_master-Inv mask f (gone left) e live i = cc

Step-Inv : {mask : Option Bytes} {f g : Family} → Step mask f g → Inv f → Inv g
Step-Inv {f = f} (forks n pid e) i = fork_worker-Inv n pid f e i
Step-Inv {f = f} (stores n p e) i = store_child-Inv n p f e i
Step-Inv {f = f} (fork_fails n e) i = fork_fails-Inv n f e i
Step-Inv {f = f} (gives_up e) i = give_up-Inv f e i
Step-Inv {f = f} (waited n p e dead) i = end_wait-Inv n p f e dead i
Step-Inv {f = f} (counts n p e) i = count_restart-Inv n p f e i
Step-Inv {f = f} (resets n p e) i = reset_child-Inv n p f e i
Step-Inv {f = f} (dies p lives) i = end_worker-Inv p f i
Step-Inv {mask} {f} (stops live) i = stop_master-Inv mask f f.master refl live i
Step-Inv {f = f} (delivers p sent lives) i = end_worker-Inv p f i

Reach-Inv : {mask : Option Bytes} {f : Family} → Reach mask f → Inv f
Reach-Inv here = record { accounted = refl; has_child = tt; counted_right = refl }
Reach-Inv (later r st) = Step-Inv st (Reach-Inv r)

without-all : (p : ℕ) (workers : List ℕ) → AtMost p workers → without p workers ≡ []
without-all p workers (inl e) = rw e refl
without-all p workers (inr e) = rw e (without_self p)

-- `SIGUSR1` to a master that waits, after whatever happened before: the pid file goes if its name was
-- cached, the signal is on the way to the child, and once the child's handler has run no process is
-- left. In a master from the reset of `child_pid` to `fork` the same signal leaves the pid file where
-- it is.
pub Reach-stop :
    {mask : Option Bytes} {f : Family} (n p : ℕ) {g : Family} (k : ℕ)
    → Reach mask f
    → f.master ≡ waiting n p
    → Reach mask g
    → g.master ≡ forking k
    → ((stop_master mask f).master ≡ gone none)
      × ((stop_master mask f).pid_file ≡ kept_file mask f.pid_file)
      × (is_in p (stop_master mask f).signalled ≡ true)
      × ((end_worker p (stop_master mask f)).workers ≡ [])
      × ((stop_master mask g).master ≡ gone none)
      × ((stop_master mask g).pid_file ≡ g.pid_file)
Reach-stop {mask} {f} n p {g} k r e r' e' =
    let i = Reach-Inv r in
    rw
      (
        stop_master-child mask f p (rw e refl) (rw e at i.has_child),
        stop_master-childless mask g (rw e' refl),
      )
      (
        rw e refl,
        refl,
        ground arith,
        without-all p f.workers (rw e at i.accounted),
        rw e' refl,
        refl,
      )
