-- ===== src/Daemon/Kept.antt =====
-- The invariant of the master of src/daemonize_linux.inl, over the steps of its loop and the deaths of
-- its workers.
use svnsrv.Base.{
  ℕ, suc, ◌+◌, true, false, List, [], ◌∷◌, none, some, ◌≡◌, ◌≢◌, ◌⊎◌, inl, inr, refl, length,
  length-append, arith,
}
use svnsrv.Daemon.Launch.{failed, parent}
use svnsrv.Daemon.Master.{
  Master, forking, forked, waiting, reaped, counted, refused, gone, Family, without, is_in,
  restart_line, fork_worker, store_child, give_up, end_wait, count_restart, reset_child, end_worker,
}

-- No worker, or just this one.
abbrev pub AtMost : ℕ → List ℕ → Type 0
AtMost p workers = (workers ≡ []) ⊎ (workers ≡ p ∷ [])

-- The workers that live are those that the master answers for: none before it forks, its child at
-- most until `waitpid` returned, and none until the next `fork`. After its end there may be a worker
-- that the signal to stop is on the way to, or the child that it did not store.
abbrev pub Accounted : Master → List ℕ → List ℕ → Type 0
Accounted (forked n p) workers signalled = AtMost p workers
Accounted (waiting n p) workers signalled = AtMost p workers
Accounted (gone none) workers signalled =
    (workers ≡ []) ⊎ ((p : ℕ) × (workers ≡ p ∷ []) × (is_in p signalled ≡ true))
Accounted (gone (some p)) workers signalled = AtMost p workers
Accounted _ workers signalled = workers ≡ []

-- The child that the master knows has a pid of its own.
abbrev pub HasChild : Master → Type 0
HasChild (forked n p) = p ≢ 0
HasChild (waiting n p) = p ≢ 0
HasChild (reaped n p) = p ≢ 0
HasChild (counted n p) = p ≢ 0
HasChild _ = Unit

abbrev pub Restarts : Master → ℕ → Type 0
Restarts (forking n) k = n ≡ k
Restarts (forked n p) k = n ≡ k
Restarts (waiting n p) k = n ≡ k
Restarts (reaped n p) k = n ≡ k
Restarts (counted n p) k = n ≡ k
Restarts _ k = Unit

pub record Inv (f : Family) : Type 0 where
  pub accounted : Accounted f.master f.workers f.signalled
  pub has_child : HasChild f.master
  pub counted_right : Restarts f.master (length f.log)

pub fork_worker-Inv :
    (n pid : ℕ) (f : Family)
    → f.master ≡ forking n
    → Inv f
    → Inv (fork_worker n (parent (suc pid)) f)
unfolding fork_worker
fork_worker-Inv n pid f e i = ground arith

pub fork_fails-Inv :
    (n : ℕ) (f : Family) → f.master ≡ forking n → Inv f → Inv (fork_worker n failed f)
unfolding fork_worker
fork_fails-Inv n f e i = ground arith

pub give_up-Inv : (f : Family) → f.master ≡ refused → Inv f → Inv (give_up f)
unfolding give_up
give_up-Inv f e i = ground arith

pub store_child-Inv :
    (n p : ℕ) (f : Family) → f.master ≡ forked n p → Inv f → Inv (store_child n p f)
unfolding store_child
store_child-Inv n p f e i = record {
  accounted = rw e at i.accounted;
  has_child = rw e at i.has_child;
  counted_right = rw e at i.counted_right;
}

pub count_restart-Inv :
    (n p : ℕ) (f : Family) → f.master ≡ reaped n p → Inv f → Inv (count_restart n p f)
unfolding count_restart
count_restart-Inv n p f e i = ground (arith, length-append f.log (restart_line (n + 1) ∷ []))

pub reset_child-Inv :
    (n p : ℕ) (f : Family) → f.master ≡ counted n p → Inv f → Inv (reset_child n f)
unfolding reset_child
reset_child-Inv n p f e i = ground arith

pub without_self : (p : ℕ) → without p (p ∷ []) ≡ []
without_self p = ground arith

without-one : (p q : ℕ) → (without p (q ∷ []) ≡ []) ⊎ (without p (q ∷ []) ≡ q ∷ [])
without-one p q = ground arith

without-AtMost : (p q : ℕ) (workers : List ℕ) → AtMost q workers → AtMost q (without p workers)
without-AtMost p q workers (inl e) = inl (rw e refl)
without-AtMost p q workers (inr e) = rw e (without-one p q)

end_worker-Accounted :
    (p : ℕ) (m : Master) (workers signalled : List ℕ)
    → Accounted m workers signalled
    → Accounted m (without p workers) signalled
end_worker-Accounted p (forked n q) workers signalled a = without-AtMost p q workers a
end_worker-Accounted p (waiting n q) workers signalled a = without-AtMost p q workers a
end_worker-Accounted p (gone (some q)) workers signalled a = without-AtMost p q workers a
end_worker-Accounted p (gone none) workers signalled (inl e) = inl (rw e refl)
end_worker-Accounted p (gone none) workers signalled (inr (q, e, sent)) = elim (without-one p q) [
  | inl none_left ↦ inl (rw e none_left)
  | inr kept ↦ inr (q, rw e kept, sent)
]
end_worker-Accounted p (forking n) workers signalled a = rw a refl
end_worker-Accounted p (reaped n q) workers signalled a = rw a refl
end_worker-Accounted p (counted n q) workers signalled a = rw a refl
end_worker-Accounted p refused workers signalled a = rw a refl

pub end_worker-Inv : (p : ℕ) (f : Family) → Inv f → Inv (end_worker p f)
end_worker-Inv p f i = record {
  accounted = end_worker-Accounted p f.master f.workers f.signalled i.accounted;
  has_child = i.has_child;
  counted_right = i.counted_right;
}

dead-none : (p : ℕ) (workers : List ℕ) → is_in p workers ≡ false → AtMost p workers → workers ≡ []
dead-none p workers dead (inl e) = e
dead-none p workers dead (inr e) = ground arith

pub end_wait-Inv :
    (n p : ℕ) (f : Family)
    → f.master ≡ waiting n p
    → is_in p f.workers ≡ false
    → Inv f
    → Inv (end_wait n p f)
unfolding end_wait
end_wait-Inv n p f e dead i = record {
  accounted = dead-none p f.workers dead (rw e at i.accounted);
  has_child = rw e at i.has_child;
  counted_right = rw e at i.counted_right;
}
