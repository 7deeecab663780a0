-- ===== src/Klog/Opened.antt =====
-- The streams of the logger of src/klog.cc, over its writes.
use svnsrv.Base.{◌≤◌, false, ◌≡◌, ◌≢◌, true, arith, Bool-cases, inl, inr, leb}
use svnsrv.Base.Run.{crash, Ensures, bind-Ensures}
use svnsrv.Base.Text.{Bytes}
use svnsrv.Klog.{
  null, Klogger, Rolls, writer_access, writer_error, std_out, max_line_number, rolling_file_e,
}

-- Both logs are there, `stdout` is open, and it is not the error log, which would close it when it
-- rolls.
pub record IsOpen (k : Klogger) : Type 0 where
  pub access_there : k.log_access ≢ null
  pub error_there : k.log_error ≢ null
  pub not_out : k.log_error ≢ std_out
  pub out_open : k.out_closed ≡ false

pub writer_access-IsOpen :
    (env : Rolls) (line : Bytes) (k : Klogger)
    → IsOpen k
    → Ensures (λ r. IsOpen r.0) (writer_access env line k)
unfolding writer_access
writer_access-IsOpen env line k h = ground arith

rolling_file_e-IsOpen :
    (env : Rolls) (k : Klogger)
    → IsOpen k
    → env.opened ≡ true
    → Ensures (λ r. IsOpen r.0) (rolling_file_e env k)
unfolding rolling_file_e
rolling_file_e-IsOpen env k h o = ground arith

pub writer_error-IsOpen :
    (env : Rolls) (line : Bytes) (k : Klogger)
    → IsOpen k
    → env.opened ≡ true
    → Ensures (λ r. IsOpen r.0) (writer_error env line k)
unfolding writer_error
writer_error-IsOpen env line k h o = elim (Bool-cases (leb max_line_number k.error_counts)) [
  | inl e ↦ rw e (
      bind-Ensures (λ r. IsOpen r.0) _ (rolling_file_e env k) _ (rolling_file_e-IsOpen env k h o)
        λ r v. ground arith)
  | inr e ↦ rw e (ground arith)
]

-- The error log is still `stdout` and has counted its 50000 lines, and no file can be opened for it:
-- it closes `stdout` and writes to it.
pub writer_error-closed :
    (env : Rolls) (line : Bytes) (k : Klogger)
    → k.log_error ≡ std_out
    → max_line_number ≤ k.error_counts
    → env.opened ≡ false
    → writer_error env line k ≡ crash
unfolding writer_error
writer_error-closed env line k e full no_file = ground arith
