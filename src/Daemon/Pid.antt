-- ===== src/Daemon/Pid.antt =====
-- `check_pid` and `write_pid` of src/daemonize_linux.inl: the pid file.
use svnsrv.Base.{
  ℕ, suc, ◌^◌, ◌<◌, Bool, true, false, not, ◌||◌, List, [], ◌∷◌, ◌++◌, Option, none, some, ◌≡◌,
  ◌==◌, if◌then◌else◌,
}
use svnsrv.Base.Decimal.{digits}
use svnsrv.Base.Int.{ℤ, pos, negsuc}
use svnsrv.Base.Text.{Bytes, codes}
use svnsrv.Files.{update}

-- What a process sees of the system: the files and which of them can be opened for writing, which
-- pids `kill(pid, 0)` does not answer with `ESRCH`, and its own pid.
pub record Host : Type 0 where
  pub files : Bytes → Option Bytes
  pub writable : Bytes → Bool
  pub exists : ℤ → Bool
  pub own : ℕ

-- `%d`
unfoldable pub int_text : ℤ → Bytes
int_text (pos n) = digits n
int_text (negsuc n) = b'-' ∷ digits (suc n)

-- What the program relies on of `fscanf` with `%d`: it reads back the decimal number of a pid. The
-- result is `none` where it does not return 1.
pub record Scanf : Type 0 where
  pub scan : Bytes → Option ℤ
  pub reads_digits : (n : ℕ) → n < 2 ^ 31 → scan (digits n) ≡ some (pos n)

abbrev pub is_pid : ℤ → ℕ → Bool
is_pid (pos n) m = n == m
is_pid (negsuc n) m = false

-- `check_pid` behind `fscanf`: `n != 1` is `none`.
unfoldable pub running_pid : Host → Option ℤ → ℤ
running_pid h none = pos 0
running_pid h (some pid) =
    if is_pid pid 0 || is_pid pid h.own then pos 0 else if not (h.exists pid) then pos 0 else pid

unfoldable pub check_pid : (Bytes → Option ℤ) → Host → Bytes → ℤ
unfolding running_pid
check_pid scan h pidfile = elim (h.files pidfile) [
  | none ↦ pos 0
  | some content ↦ running_pid h (scan content)
]

-- The result, with the system and the lines of the log after it.
unfoldable pub write_pid : Host → Bytes → Bool × Host × List Bytes
unfolding update
write_pid h pidfile =
    if h.writable pidfile
    then (true, record h { files = update h.files pidfile (some (digits h.own)) }, [])
    else (false, h, (codes "cannot open " ++ pidfile) ∷ [])
