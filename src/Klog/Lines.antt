-- ===== src/Klog/Lines.antt =====
-- When the logger of src/klog.cc brings the process down.
use svnsrv.Base.{
  ℕ, ◌+◌, ◌≤◌, ◌<◌, Bool, false, List, [], ◌∷◌, ◌++◌, Option, ◌≡◌, true, refl, length-append, ◌==◌,
  ltb, length, All, arith, ◌&&◌, ◌||◌,
}
use svnsrv.Base.Run.{
  Run, done, crash, ◌>>=◌, Ensures, bind-Ensures, bind_crash, bind_crash_after, Ensures-mono,
}
use svnsrv.Base.Text.{Bytes}
use svnsrv.Klog.{
  null, Effect, Klogger, Rolls, init, access, log, destroy, line_of, writer_access, writer_error,
  Stream, std_out, max_line_number,
}
use svnsrv.Klog.Opened.{IsOpen, writer_access-IsOpen, writer_error-IsOpen, writer_error-closed}

-- The calls of the program on its logger while it serves.
pub data Call : Type 0 where
  inits : Option (Bytes × Bool) → Option (Bytes × Bool) → Call
  accesses : Rolls → Bytes → Bytes → Call
  logs : Rolls → Bytes → Bytes → Call

unfoldable pub call : Call → Klogger → Run (Klogger × List Effect)
unfolding init access log
call (inits info error) k = done (init info error k)
call (accesses env prefix message) k = access env prefix message k
call (logs env prefix message) k = log env prefix message k

unfoldable pub calls : List Call → Klogger → Run (Klogger × List Effect)
unfolding call
calls [] k = done (k, [])
calls (c ∷ cs) k = call c k >>= λ r. calls cs r.0 >>= λ s. done (s.0, r.1 ++ s.1)

-- The prefix and the message together leave room for the newline.
abbrev pub FitsLine : Call → Type 0
FitsLine (inits info error) = Unit
FitsLine (accesses env prefix message) = length (prefix ++ message) < 4096
FitsLine (logs env prefix message) = length (prefix ++ message) < 4096

-- The file of the error log can be opened again, should it roll.
abbrev pub Reopens : Call → Type 0
Reopens (logs env prefix message) = env.opened ≡ true
Reopens _ = Unit

abbrev IsLong : Call → Type 0
IsLong (inits info error) = ⊥
IsLong (accesses env prefix message) = 4096 ≤ length (prefix ++ message)
IsLong (logs env prefix message) = 4096 ≤ length (prefix ++ message)

line_of-fits :
    (prefix message : Bytes)
    → length (prefix ++ message) < 4096
    → Ensures (λ line. Unit) (line_of prefix message)
unfolding line_of
line_of-fits prefix message h = ground arith

call-IsOpen :
    (c : Call) (k : Klogger)
    → IsOpen k
    → FitsLine c
    → Reopens c
    → Ensures (λ r. IsOpen r.0) (call c k)
unfolding call
call-IsOpen (inits info error) k h f o = ground arith
call-IsOpen (accesses env prefix message) k h f o =
    bind-Ensures (λ line. Unit) _ (line_of prefix message) _ (line_of-fits prefix message f)
      λ line u. writer_access-IsOpen env line k h
call-IsOpen (logs env prefix message) k h f o =
    bind-Ensures (λ line. Unit) _ (line_of prefix message) _ (line_of-fits prefix message f)
      λ line u. writer_error-IsOpen env line k h o

calls-IsOpen :
    (cs : List Call) (k : Klogger)
    → IsOpen k
    → All FitsLine cs
    → All Reopens cs
    → Ensures (λ r. IsOpen r.0) (calls cs k)
unfolding calls
calls-IsOpen [] k h f o = h
calls-IsOpen (c ∷ cs) k h f o =
    bind-Ensures (λ r. IsOpen r.0) _ (call c k) _ (call-IsOpen c k h f.0 o.0)
      λ r v.
        bind-Ensures (λ s. IsOpen s.0) _ (calls cs r.0) _ (calls-IsOpen cs r.0 v f.1 o.1) λ s p. p

pub ltb-true : (a b : ℕ) → a < b → ltb a b ≡ true
ltb-true a b h = ground arith

-- A line that fits its buffer with a zero byte and the newline.
pub line_of-short :
    (stamp message : Bytes)
    → length stamp + length message < 4095
    → line_of stamp message ≡ done (stamp ++ message ++ b'\n' ∷ [])
unfolding line_of
line_of-short stamp message h =
    let fits : ltb (length (stamp ++ message)) 4095 ≡ true =
      ltb-true (length (stamp ++ message)) 4095 (omega (arith, length-append stamp message)) in
    rw fits refl

not_short : (n : ℕ) → 4096 ≤ n → ltb n 4095 ≡ false
not_short n h = ground arith

not_exact : (n : ℕ) → 4096 ≤ n → (n == 4095) ≡ false
not_exact n h = ground arith

line_of-long :
    (prefix message : Bytes) → 4096 ≤ length (prefix ++ message) → line_of prefix message ≡ crash
unfolding line_of
line_of-long prefix message h = rw (not_short _ h, not_exact _ h)

call-long : (c : Call) (k : Klogger) → IsLong c → call c k ≡ crash
unfolding call
call-long (accesses env prefix message) k h =
    bind_crash (line_of prefix message) _ (line_of-long prefix message h)
call-long (logs env prefix message) k h =
    bind_crash (line_of prefix message) _ (line_of-long prefix message h)
call-long (inits info error) k h = absurd h

calls-append_long :
    (cs : List Call) (long : Call) (rest : List Call) (k : Klogger)
    → IsLong long
    → calls (cs ++ long ∷ rest) k ≡ crash
unfolding calls
calls-append_long [] long rest k h = bind_crash (call long k) _ (call-long long k h)
calls-append_long (c ∷ cs) long rest k h =
    bind_crash_after (call c k) _
      λ r. bind_crash (calls (cs ++ long ∷ rest) r.0) _ (calls-append_long cs long rest r.0 h)

-- A logger whose logs are there, whose error log is not `stdout` and has a file that can be opened
-- again whenever it rolls, stays so, and no call on it fails, as long as every line has less than 4096
-- bytes; the first call with a longer line brings the process down, wherever it stands. Where the
-- error log is `stdout`, has counted 50000 lines and no file can be opened for it, any further line
-- is written to a stream that is closed.
pub calls_limit :
    (cs : List Call) (long : Call) (rest : List Call) (k : Klogger) (env : Rolls)
    (prefix message : Bytes) (out : Klogger)
    → IsOpen k
    → All FitsLine cs
    → All Reopens cs
    → IsLong long
    → out.log_error ≡ std_out
    → max_line_number ≤ out.error_counts
    → env.opened ≡ false
    → Ensures (λ r. IsOpen r.0) (calls cs k)
      × (calls (cs ++ long ∷ rest) k ≡ crash)
      × (log env prefix message out ≡ crash)
unfolding log
calls_limit cs long rest k env prefix message out h f o l e full no_file = (
  calls-IsOpen cs k h f o,
  calls-append_long cs long rest k l,
  bind_crash_after (line_of prefix message) _
      (λ line. writer_error-closed env line out e full no_file),
)

abbrev IsClosed : Klogger → Type 0
IsClosed k = (k.log_access ≡ null) × (k.log_error ≡ null)

abbrev is_out : Stream → Bool
is_out std_out = true
is_out _ = false

-- Whether `destroy` closes `stdout` once more: both logs are `stdout`, or a log is and it was closed.
abbrev pub closes_again : Klogger → Bool
closes_again k =
    (is_out k.log_access && is_out k.log_error)
    || (k.out_closed && (is_out k.log_access || is_out k.log_error))

-- A call that may close `stdout` again, which is undefined.
abbrev pub Closes : Bool → (Klogger × List Effect → Type 0) → Run (Klogger × List Effect) → Type 0
Closes true P r = r ≡ crash
Closes false P r = Ensures P r

destroy-Closes :
    (text : Bytes) (k : Klogger)
    → length text ≤ 4096
    → Closes (closes_again k) (λ r. IsClosed r.0) (destroy text k)
unfolding destroy
destroy-Closes text k h = ground arith

Closes-mono :
    (again : Bool) (P Q : Klogger × List Effect → Type 0) (m : Run (Klogger × List Effect))
    → Closes again P m
    → ((r : Klogger × List Effect) → P r → Q r)
    → Closes again Q m
Closes-mono true P Q m h k = h
Closes-mono false P Q m h k = Ensures-mono P Q m h k

writer_access-null :
    (env : Rolls) (line : Bytes) (k : Klogger) → IsClosed k → writer_access env line k ≡ crash
unfolding writer_access
writer_access-null env line k h = ground arith

writer_error-null :
    (env : Rolls) (line : Bytes) (k : Klogger) → IsClosed k → writer_error env line k ≡ crash
unfolding writer_error
writer_error-null env line k h = ground arith

IsClosed-crash :
    (env : Rolls) (prefix message : Bytes) (k : Klogger)
    → IsClosed k
    → (access env prefix message k ≡ crash) × (log env prefix message k ≡ crash)
unfolding access log
IsClosed-crash env prefix message k h = (
  bind_crash_after (line_of prefix message) _ (λ line. writer_access-null env line k h),
  bind_crash_after (line_of prefix message) _ (λ line. writer_error-null env line k h),
)

-- After `destroy` with a text that fits its buffer, which the signal handlers call before `exit`,
-- any line that another thread still logs brings the process down, on either log. `destroy` itself
-- goes wrong just where it closes `stdout` again, since both logs are `stdout`, or one is and the
-- logger has closed it.
pub destroy_then_write :
    (env : Rolls) (text prefix message : Bytes) (k : Klogger)
    → length text ≤ 4096
    → Closes
        (closes_again k)
        (λ r. (access env prefix message r.0 ≡ crash) × (log env prefix message r.0 ≡ crash))
        (destroy text k)
destroy_then_write env text prefix message k h =
    Closes-mono (closes_again k) (λ r. IsClosed r.0) _ (destroy text k) (destroy-Closes text k h)
      λ r c. IsClosed-crash env prefix message r.0 c
