-- ===== src/Tests/Logs.antt =====
-- Runs of src/klog.cc's theorems.
use svnsrv.Base.{ℕ, zero, suc, true, [], ◌∷◌, ◌≡◌, refl, length, arith, false}
use svnsrv.Base.Run.{crash, Ensures}
use svnsrv.Base.Text.{Bytes, codes}
use svnsrv.Klog.{file, Klogger, Rolls, new_klogger, access, log, destroy}
use svnsrv.Klog.Opened.{IsOpen}
use svnsrv.Klog.Lines.{accesses, logs, calls, calls_limit, destroy_then_write}

abbrev opened_klogger : Klogger
opened_klogger = record new_klogger {
  log_access = file (codes "access.log");
  info_file = codes "access.log";
  access_counts = 49999;
}

abbrev pub roll : Rolls
roll = record { new_name = codes "access.log.1"; opened = true }

-- A logger with both files, and one whose error log is `stdout` with its 50000 lines counted.
abbrev pub both_files : Klogger
both_files = record opened_klogger {
  log_error = file (codes "error.log");
  error_file = codes "error.log";
}

both_files-IsOpen : IsOpen both_files
both_files-IsOpen = record {
  access_there = λ e. cc;
  error_there = λ e. cc;
  not_out = λ e. cc;
  out_open = refl;
}

abbrev full_out : Klogger
full_out = record new_klogger { error_counts = 50000 }

abbrev no_roll : Rolls
no_roll = record { new_name = []; opened = false }

abbrev repeated : ℕ → Bytes
repeated zero = []
repeated (suc n) = b'x' ∷ repeated n

length-repeated : (n : ℕ) → length (repeated n) ≡ n
length-repeated zero = refl
length-repeated (suc n) = omega (arith, length-repeated n)

calls_limit_example :
    Ensures
      (λ r. IsOpen r.0)
      (calls
        (accesses roll (codes "t ") (codes "m") ∷ logs roll (codes "t ") (codes "m") ∷ [])
        both_files)
    × (calls
          (accesses roll (codes "t ") (codes "m")
            ∷ logs roll (codes "t ") (codes "m")
            ∷ logs roll [] (repeated 5000)
            ∷ [])
          both_files
        ≡ crash)
    × (log no_roll (codes "t ") (codes "m") full_out ≡ crash)
calls_limit_example =
    calls_limit (accesses roll (codes "t ") (codes "m") ∷ logs roll (codes "t ") (codes "m") ∷ [])
      (logs roll [] (repeated 5000)) [] both_files no_roll (codes "t ") (codes "m") full_out
      both_files-IsOpen (omega arith) (tt, (refl, tt)) (omega (arith, length-repeated 5000)) refl
      (omega arith) refl

-- Neither log was opened: `destroy` closes `stdout` twice.
destroyed_twice : destroy (codes "bye") new_klogger ≡ crash
unfolding destroy
destroyed_twice = refl

destroy_then_write_example :
    Ensures
      (λ r.
        (access roll (codes "t ") (codes "m") r.0 ≡ crash)
        × (log roll (codes "t ") (codes "m") r.0 ≡ crash))
      (destroy (codes "bye") opened_klogger)
destroy_then_write_example =
    destroy_then_write roll (codes "bye") (codes "t ") (codes "m") opened_klogger (omega arith)
