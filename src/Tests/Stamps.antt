-- ===== src/Tests/Stamps.antt =====
-- Runs of the stamps and of the rolled files of src/klog.cc.
use svnsrv.Base.{true, false, [], ◌∷◌, ◌++◌, none, some, ◌≡◌, refl, if◌then◌else◌, arith}
use svnsrv.Base.Decimal.{digits}
use svnsrv.Base.Run.{done, Ensures}
use svnsrv.Base.Text.{Bytes, codes, c_str}
use svnsrv.Url.{equal}
use svnsrv.Klog.{file, Klogger, Rolls, new_klogger, last_line, access, log}
use svnsrv.Klog.Rolling.{write_all}
use svnsrv.Klog.Store.{Files, LastTwo, write_all-LastTwo}
use svnsrv.Klog.Stamp.{Tm, error, access_stamp, log_stamp, destroy_text, rolled_name}
use svnsrv.Tests.Logs.{roll, both_files}
use svnsrv.Klog.Stamp.Room.{IsTm, Writes, log_room}

abbrev sample_time : Tm
sample_time = record {
  year = 116;
  mon = 1;
  mday = 9;
  yday = 39;
  wday = 2;
  hour = 14;
  min = 5;
  sec = 0;
}

sample-IsTm : IsTm sample_time
sample-IsTm = omega arith

sample_stamp : access_stamp sample_time ≡ codes "[2016/02/09 Tue 14:05:00] "
unfolding access_stamp digits
sample_stamp = refl

sample_rolled : rolled_name (codes "a.log") sample_time ≡ codes "a.log.2016-2-39+14.5"
unfolding rolled_name c_str digits
sample_rolled = refl

log_room_example :
    Ensures
      (Writes
        (codes "access.log")
        (codes "error.log")
        (codes "access.log")
        (access_stamp sample_time ++ codes "m" ++ b'\n' ∷ []))
      (access roll (access_stamp sample_time) (codes "m") both_files)
    × Ensures
        (Writes
          (codes "access.log")
          (codes "error.log")
          (codes "error.log")
          (log_stamp error 1 2 sample_time ++ codes "m" ++ b'\n' ∷ []))
        (log roll (log_stamp error 1 2 sample_time) (codes "m") both_files)
    × (last_line (destroy_text 1 2 sample_time (codes "m"))
        ≡ done (destroy_text 1 2 sample_time (codes "m")))
log_room_example =
    log_room roll error 1 2 sample_time (codes "m") (codes "access.log") (codes "error.log")
      both_files sample-IsTm (omega arith) (omega arith) (omega arith)
      (record { access_log = refl; access_name_is = refl; error_log = refl; error_name_is = refl })
      refl

abbrev log_name : Bytes
log_name = codes "a.log"

abbrev old_name : Bytes
old_name = codes "a.log.2016-2-39+14.5"

abbrev full_klogger : Klogger
full_klogger = record new_klogger {
  log_access = file log_name;
  info_file = log_name;
  access_counts = 50000;
}

abbrev same_minute : Rolls
same_minute = record { new_name = old_name; opened = true }

abbrev old_files : Files
old_files name = if equal log_name name then some (codes "50000 lines") else none

log_held : old_files log_name ≡ some (codes "50000 lines")
unfolding equal
log_held = refl

apart :
    (equal log_name old_name ≡ false)
    × (equal log_name (codes "x") ≡ false)
    × (equal old_name (codes "x") ≡ false)
unfolding equal
apart = (refl, refl, refl)

write_all-LastTwo_example :
    Ensures
      (LastTwo log_name old_name
        (codes "x")
        apart.0
        apart.1
        apart.2
        (codes "b")
        (codes "c")
        (old_files (codes "x"))
        old_files)
      (write_all
        ((same_minute, codes "a") ∷ (same_minute, codes "b") ∷ (same_minute, codes "c") ∷ [])
        full_klogger)
write_all-LastTwo_example =
    write_all-LastTwo log_name old_name (codes "x") apart.0 apart.1 apart.2
      ((same_minute, codes "a") ∷ []) same_minute same_minute (codes "b") (codes "c")
      (codes "50000 lines") full_klogger old_files
      ((refl, refl), ((refl, refl), ((refl, refl), tt)))
      (record { stream = refl; info = refl; full = omega arith }) (omega arith) log_held
