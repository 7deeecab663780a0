-- ===== src/Klog.antt =====
-- src/klog.cc and src/klog.h: the logger, on a POSIX system. Calls into the C library are effects in
-- the order of the calls; what `fopen` answers and the texts that `snprintf` makes are arguments.
-- The mutex makes each write one step.
pub mod Rolling
pub mod Store
pub mod Stamp
pub mod Opened
pub mod Lines
use svnsrv.Base.{
  ℕ, ◌+◌, ◌%◌, ◌^◌, Bool, true, false, ◌&&◌, ◌||◌, not, List, [], ◌∷◌, ◌++◌, Option, none, some,
  ◌==◌, ltb, leb, if◌then◌else◌, length, take,
}
use svnsrv.Base.Run.{Run, done, crash, ◌>>=◌}
use svnsrv.Base.Text.{Bytes}

-- A `FILE *`. A file has a stream of its own each time it is opened, which no other holds.
pub data Stream : Type 0 where
  null std_out std_err : Stream
  file : Bytes → Stream

pub data Effect : Type 0 where
  opens : Bytes → Effect
  closes : Stream → Effect
  renames : Bytes → Bytes → Effect
  writes : Stream → Bytes → Effect
  flushes : Stream → Effect

-- The class, with whether `stdout`, which the whole process shares, was closed by it.
pub record Klogger : Type 0 where
  pub info_file : Bytes
  pub error_file : Bytes
  pub log_access : Stream
  pub log_error : Stream
  pub access_counts : ℕ
  pub error_counts : ℕ
  pub out_closed : Bool

-- The members' initialisers.
abbrev pub new_klogger : Klogger
new_klogger = record {
  info_file = [];
  error_file = [];
  log_access = std_out;
  log_error = std_out;
  access_counts = 0;
  error_counts = 0;
  out_closed = false;
}

-- `MAX_LINE_NUMBER`, and the size of the line buffers
abbrev pub max_line_number : ℕ
max_line_number = 50000

-- What the system answers when a log file is rolled: the new name, and whether `fopen` succeeds.
pub record Rolls : Type 0 where
  pub new_name : Bytes
  pub opened : Bool

abbrev pub reopened : Bool → Bytes → Stream
reopened true name = file name
reopened false name = std_out

abbrev pub roll_effects : Stream → Bytes → Bytes → List Effect
roll_effects s name new_name = closes s ∷ renames name new_name ∷ opens name ∷ []

-- A null stream brings the process down, and what the C library does with a stream that was closed is
-- undefined: both end the model's run.
unfoldable pub fclose : Stream → Klogger → Run Klogger
fclose null k = crash
fclose std_out k = if k.out_closed then crash else done (record k { out_closed = true })
fclose other k = done k

unfoldable pub fwrite : Bool → Stream → Bytes → Run (List Effect)
fwrite out_closed null text = crash
fwrite true std_out text = crash
fwrite out_closed s text = done (writes s text ∷ [])

-- With a null stream it flushes all.
unfoldable pub fflush : Bool → Stream → Run (List Effect)
fflush true std_out = crash
fflush out_closed s = done (flushes s ∷ [])

unfoldable pub rolling_file_a : Rolls → Klogger → Run (Klogger × List Effect)
unfolding fclose
rolling_file_a env k = elim k.log_access [
  | null ↦ done (k, [])
  | std_out ↦ done (k, [])
  | other ↦ fclose other k >>= λ k'. done (
    record k' { log_access = reopened env.opened k.info_file },
    roll_effects other k.info_file env.new_name,
  )
]

unfoldable pub rolling_file_e : Rolls → Klogger → Run (Klogger × List Effect)
unfolding fclose
rolling_file_e env k = elim k.log_error [
  | null ↦ done (k, [])
  | std_err ↦ done (k, [])
  | other ↦ fclose other k >>= λ k'. done (
    record k' { log_error = reopened env.opened k.error_file },
    roll_effects other k.error_file env.new_name,
  )
]

unfoldable pub writer_access : Rolls → Bytes → Klogger → Run (Klogger × List Effect)
unfolding rolling_file_a fwrite
writer_access env text k =
    (if leb max_line_number k.access_counts then rolling_file_a env k else done (k, []))
    >>= λ rolled.
        let k' = record rolled.0 { access_counts = (rolled.0.access_counts + 1) % 2 ^ 32 } in
        fwrite k'.out_closed k'.log_access text >>= λ es. done (k', rolled.1 ++ es)

unfoldable pub writer_error : Rolls → Bytes → Klogger → Run (Klogger × List Effect)
unfolding rolling_file_e fwrite
writer_error env text k =
    (if leb max_line_number k.error_counts then rolling_file_e env k else done (k, []))
    >>= λ rolled.
        let k' = record rolled.0 { error_counts = (rolled.0.error_counts + 1) % 2 ^ 32 } in
        fwrite k'.out_closed k'.log_error text >>= λ es. done (k', rolled.1 ++ es)

-- A file to open, with whether `fopen` succeeds; `none` is a null name.
unfoldable pub init_access : Option (Bytes × Bool) → Klogger → Klogger × List Effect
init_access none k = (k, [])
init_access (some (name, opened)) k =
    (if opened then record k { log_access = file name; info_file = name } else k, opens name ∷ [])

unfoldable pub init_error : Option (Bytes × Bool) → Klogger → Klogger × List Effect
init_error none k = (k, [])
init_error (some (name, opened)) k =
    (if opened then record k { log_error = file name; error_file = name } else k, opens name ∷ [])

unfoldable pub init :
    Option (Bytes × Bool) → Option (Bytes × Bool) → Klogger → Klogger × List Effect
unfolding init_access init_error
init info error k = let a = init_access info k in let e = init_error error a.0 in (e.0, a.1 ++ e.1)

unfoldable pub fflush_e : Klogger → Run (List Effect)
unfolding fflush
fflush_e k = fflush k.out_closed k.log_access >>= λ es.
    fflush k.out_closed k.log_error >>= λ fs. done (es ++ fs)

-- `access` and `log` put the prefix and the message into a buffer of 4096 bytes, each cut off by
-- `snprintf` so that 4095 bytes hold both with a zero byte, and store a newline at the sum of the
-- lengths that `snprintf` would have needed. Behind the buffer that store corrupts the stack.
unfoldable pub line_of : Bytes → Bytes → Run Bytes
line_of prefix message =
    let text = prefix ++ message in
    if ltb (length text) 4095
    then done (text ++ b'\n' ∷ [])
    else if length text == 4095
    then done (take 4094 text ++ 0 ∷ b'\n' ∷ [])
    else crash

unfoldable pub access : Rolls → Bytes → Bytes → Klogger → Run (Klogger × List Effect)
unfolding line_of writer_access
access env prefix message k = line_of prefix message >>= λ line. writer_access env line k

unfoldable pub log : Rolls → Bytes → Bytes → Klogger → Run (Klogger × List Effect)
unfolding line_of writer_error
log env prefix message k = line_of prefix message >>= λ line. writer_error env line k

-- The last line of `destroy`; the bytes behind its buffer of 4096 are not the program's.
unfoldable pub last_line : Bytes → Run Bytes
last_line text =
    if ltb (length text) 4096
    then done text
    else if length text == 4096
    then done (take 4095 text ++ 0 ∷ [])
    else crash

unfoldable pub destroy_error : Bytes → Klogger → Run (Klogger × List Effect)
unfolding last_line fwrite fclose
destroy_error text k = elim k.log_error [
  | null ↦ done (k, [])
  | other ↦ last_line text >>= λ line. fwrite k.out_closed other line >>= λ es.
      fclose other k >>= λ k'. done (record k' { log_error = null }, es ++ closes other ∷ [])
]

unfoldable pub destroy_access : Klogger → Run (Klogger × List Effect)
unfolding fclose
destroy_access k = elim k.log_access [
  | null ↦ done (k, [])
  | other ↦ fclose other k >>= λ k'. done (record k' { log_access = null }, closes other ∷ [])
]

unfoldable pub destroy : Bytes → Klogger → Run (Klogger × List Effect)
unfolding destroy_error destroy_access
destroy text k = destroy_error text k >>= λ e. destroy_access e.0 >>= λ a. done (a.0, e.1 ++ a.1)

-- `~Klogger`, which runs at exit.
unfoldable pub finalize_access : Klogger → Run (Klogger × List Effect)
unfolding fclose
finalize_access k = elim k.log_access [
  | null ↦ done (k, [])
  | std_out ↦ done (k, [])
  | other ↦ fclose other k >>= λ k'. done (k', closes other ∷ [])
]

unfoldable pub finalize_error : Klogger → Run (Klogger × List Effect)
unfolding fclose
finalize_error k = elim k.log_error [
  | null ↦ done (k, [])
  | std_err ↦ done (k, [])
  | other ↦ fclose other k >>= λ k'. done (k', closes other ∷ [])
]

unfoldable pub finalize : Klogger → Run (Klogger × List Effect)
unfolding finalize_access finalize_error
finalize k = finalize_access k >>= λ a. finalize_error a.0 >>= λ e. done (e.0, a.1 ++ e.1)
