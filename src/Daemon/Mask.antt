-- ===== src/Daemon/Mask.antt =====
-- `ProcessIdMask` of src/daemonize_linux.inl, with the memory that it allocates.
use svnsrv.Base.{
  ℕ, ◌+◌, Bool, true, false, Option, none, some, ◌≡◌, ◌≢◌, refl, ◌==◌, if◌then◌else◌, arith,
}
use svnsrv.Base.Run.{Run, done, crash, ◌>>=◌}
use svnsrv.Base.Text.{Bytes, c_str}
use svnsrv.Daemon.Launch.{cache}

-- The blocks that were allocated and not freed, by their addresses, and the address of the next one.
pub record Heap : Type 0 where
  pub block : ℕ → Option Bytes
  pub next : ℕ

abbrev without_block : ℕ → Heap → Heap
without_block p h = record h { block = λ q. if q == p then none else h.block q }

-- A second `free` of a block corrupts memory.
unfoldable pub free : ℕ → Heap → Run Heap
free p h = elim (h.block p) [ none ↦ crash | some text ↦ done (without_block p h) ]

-- `ptr`, with the memory, and what the call returns. The old block of `ptr` is not freed.
unfoldable pub cache_file : Bool → Option Bytes → Option ℕ → Heap → Bool × Option ℕ × Heap
cache_file malloc none ptr h = (false, ptr, h)
cache_file malloc (some file) ptr h =
    if malloc
    then (
      true,
      some h.next,
      record {
        block = λ q. if q == h.next then some (c_str file) else h.block q;
        next = h.next + 1;
      },
    )
    else (false, none, h)

-- `Release`, which leaves `ptr` as it is, and the destructor, whose code is the same.
unfoldable pub release : Option ℕ → Heap → Run Heap
unfolding free
release none h = done h
release (some p) h = free p h

-- What `Get` points to.
unfoldable pub get : Option ℕ → Heap → Option Bytes
get none h = none
get (some p) h = h.block p

-- After a call of `Cache` on a new object, `Get` gives the name that `cache` of the launch gives.
cache_file-get :
    (malloc : Bool) (file : Bytes) (h : Heap)
    → let r = cache_file malloc (some file) none h in get r.1 r.2 ≡ cache malloc (some (c_str file))
unfolding cache_file get cache
cache_file-get malloc file h = ground arith

free-held :
    (p : ℕ) (h : Heap) (text : Bytes) → h.block p ≡ some text → free p h ≡ done (without_block p h)
unfolding free
free-held p h text e = rw (free, e) refl

free_twice : (p : ℕ) (h : Heap) → free p (without_block p h) ≡ crash
unfolding free
free_twice p h = let self : (p == p) ≡ true = ground arith in rw (free, self) refl

-- The destructor after `Cache` frees the one block that `Cache` allocated, and no other. After
-- `Release`, which nothing calls, it would free that block a second time.
release-cache_file :
    (file : Bytes) (h : Heap)
    → let r = cache_file true (some file) none h in
      (release r.1 r.2 ≡ done (without_block h.next r.2))
      × ((q : ℕ) → q ≢ h.next → r.2.block q ≡ h.block q)
      × ((release r.1 r.2 >>= λ freed. release r.1 freed) ≡ crash)
unfolding cache_file release
release-cache_file file h =
    let r = cache_file true (some file) none h in
    let self : (h.next == h.next) ≡ true = ground arith in
    let freed : free h.next r.2 ≡ done (without_block h.next r.2) =
      free-held h.next r.2 (c_str file) (rw self refl) in
    (freed, (λ q ne. ground arith), rw freed (free_twice h.next r.2))
