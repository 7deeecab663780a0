-- ===== src/Klog/Stamp/Room.antt =====
-- How much room the stamp of src/klog.cc leaves for the message of a line.
use svnsrv.Base.{
  ℕ, zero, suc, ◌+◌, ◌^◌, ◌≤◌, ◌<◌, List, [], ◌∷◌, ◌++◌, ◌≡◌, refl, ltb, Bool-cases, inl, inr,
  length, All, get_or, length-append, arith, true,
}
use svnsrv.Base.Decimal.{digits, length-digits}
use svnsrv.Base.Run.{done, Ensures}
use svnsrv.Base.Text.{Bytes, codes, c_str}
use svnsrv.Klog.{Effect, Klogger, Rolls, last_line, access, log, writer_access, writer_error, file}
use svnsrv.Klog.Lines.{ltb-true, line_of-short}
use svnsrv.Klog.Rolling.{written}
use svnsrv.Klog.Stamp.{
  Tm, Level, debug, info, warn, error, fatal, leve_message, wday_name, two_digits, wday_names, date,
  access_stamp, log_stamp, destroy_text,
}

-- What `localtime` gives, up to the year 9999.
pub record IsTm (tm : Tm) : Type 0 where
  pub year : tm.year < 8100
  pub mon : tm.mon < 12
  pub mday : tm.mday ≤ 31
  pub wday : tm.wday < 7
  pub hour : tm.hour < 24
  pub min : tm.min < 60
  pub sec : tm.sec ≤ 60

length-two_digits : (n : ℕ) → n < 100 → length (two_digits n) ≤ 2
unfolding two_digits
length-two_digits n h = elim (Bool-cases (ltb n 10)) [
  | inl e ↦ let lt : n < 10 = ground arith in rw e (omega (arith, length-digits 0 n lt))
  | inr e ↦ rw e (length-digits 1 n h)
]

length-get_or :
    (m : ℕ) (xs : List Bytes) (n : ℕ) → All (λ x. length x ≤ m) xs → length (get_or xs n []) ≤ m
length-get_or m [] n h = omega arith
length-get_or m (x ∷ xs) zero h = h.0
length-get_or m (x ∷ xs) (suc n) h = length-get_or m xs n h.1

length-wday_name : (n : ℕ) → length (wday_name n) ≤ 3
unfolding wday_name
length-wday_name n = length-get_or 3 wday_names n (omega arith)

length-leve_message : (level : Level) → length (leve_message level) ≤ 5
unfolding leve_message
length-leve_message debug = omega arith
length-leve_message info = omega arith
length-leve_message warn = omega arith
length-leve_message error = omega arith
length-leve_message fatal = omega arith

-- The length of two parts with a character between them.
length-join :
    (a b : Bytes) (c m n : ℕ) → length a ≤ m → length b ≤ n → length (a ++ c ∷ b) ≤ m + suc n
length-join a b c m n h k = omega (arith, length-append a (c ∷ b))

length-both : (a b : Bytes) (m n : ℕ) → length a ≤ m → length b ≤ n → length (a ++ b) ≤ m + n
length-both a b m n h k = omega (arith, length-append a b)

length-date : (tm : Tm) → IsTm tm → length (date tm) ≤ 23
unfolding date
length-date tm h =
    length-join (digits (1900 + tm.year)) _ b'/' 4 18 (length-digits 3 _ (omega arith)) (
      length-join (two_digits (tm.mon + 1)) _ b'/' 2 15 (length-two_digits _ (omega arith)) (
        length-join (two_digits tm.mday) _ b' ' 2 12 (length-two_digits _ (omega arith)) (
          length-join (wday_name tm.wday) _ b' ' 3 8 (length-wday_name tm.wday) (
            length-join (two_digits tm.hour) _ b':' 2 5 (length-two_digits _ (omega arith)) (
              length-join (two_digits tm.min) (two_digits tm.sec) b':' 2 2
                (length-two_digits _ (omega arith)) (length-two_digits _ (omega arith)))))))

length-access_stamp : (tm : Tm) → IsTm tm → length (access_stamp tm) ≤ 26
unfolding access_stamp
length-access_stamp tm h = omega (arith, length-append (date tm) (codes "] "), length-date tm h)

pub length-log_stamp :
    (level : Level) (id tid : ℕ) (tm : Tm)
    → IsTm tm
    → id < 2 ^ 31
    → tid < 2 ^ 64
    → length (log_stamp level id tid tm) ≤ 87
unfolding log_stamp
length-log_stamp level id tid tm h i t = length-join [] _ b'[' 0 86 (omega arith) (
    length-both (leve_message level) _ 5 81 (length-leve_message level) (
      length-both (codes "] Process: ") _ 11 70 (omega arith) (
        length-both (digits id) _ 10 60 (length-digits 9 id (omega arith)) (
          length-both (codes " Thread: ") _ 9 51 (omega arith) (
            length-both (digits tid) _ 20 31 (length-digits 19 tid (omega arith)) (
              length-both (codes " Time: ") _ 7 24 (omega arith)
                (length-both (date tm) (b' ' ∷ []) 23 1 (length-date tm h) (omega arith))))))))

-- Both logs are the files of their names.
pub record OnFiles (access_name error_name : Bytes) (k : Klogger) : Type 0 where
  pub access_log : k.log_access ≡ file access_name
  pub access_name_is : k.info_file ≡ access_name
  pub error_log : k.log_error ≡ file error_name
  pub error_name_is : k.error_file ≡ error_name

-- One line is written, to this file and nowhere else, and both logs stay on their files.
abbrev pub Writes : Bytes → Bytes → Bytes → Bytes → Klogger × List Effect → Type 0
Writes access_name error_name name line r =
    OnFiles access_name error_name r.0 × (written r.1 ≡ (file name, line) ∷ [])

writer_access-Writes :
    (a e : Bytes) (env : Rolls) (line : Bytes) (k : Klogger)
    → OnFiles a e k
    → env.opened ≡ true
    → Ensures (Writes a e a line) (writer_access env line k)
unfolding writer_access
writer_access-Writes a e env line k h o = ground arith

writer_error-Writes :
    (a e : Bytes) (env : Rolls) (line : Bytes) (k : Klogger)
    → OnFiles a e k
    → env.opened ≡ true
    → Ensures (Writes a e e line) (writer_error env line k)
unfolding writer_error
writer_error-Writes a e env line k h o = ground arith

length-c_str : (text : Bytes) → length (c_str text) ≤ length text
unfolding c_str
length-c_str [] = omega arith
length-c_str (c ∷ cs) = ground (arith, length-c_str cs)

last_line-whole : (text : Bytes) → length text < 4096 → last_line text ≡ done text
unfolding last_line
last_line-whole text h = rw (ltb-true (length text) 4096 h) refl

length-destroy_text :
    (id tid : ℕ) (tm : Tm) (msg : Bytes)
    → IsTm tm
    → id < 2 ^ 31
    → tid < 2 ^ 64
    → length (destroy_text id tid tm msg) ≤ 87 + suc (length msg)
unfolding destroy_text
length-destroy_text id tid tm msg h i t =
    length-both (log_stamp info id tid tm) (c_str msg ++ b'\n' ∷ []) 87 (suc (length msg))
      (length-log_stamp info id tid tm h i t)
      (omega (arith, length-append (c_str msg) (b'\n' ∷ []), length-c_str msg))

-- At a time up to the year 9999, with a process id that fits an `int` and a thread id of 64 bits, on
-- a logger whose logs are files that can be opened again: a message of up to 4007 bytes is written
-- whole behind its stamp, by `access` to the file of the access log and by `log` on any level to the
-- file of the error log, each to no other stream. The last line of `destroy` with such a message is
-- whole too.
pub log_room :
    (env : Rolls) (level : Level) (id tid : ℕ) (tm : Tm) (message a e : Bytes) (k : Klogger)
    → IsTm tm
    → id < 2 ^ 31
    → tid < 2 ^ 64
    → length message ≤ 4007
    → OnFiles a e k
    → env.opened ≡ true
    → Ensures
        (Writes a e a (access_stamp tm ++ message ++ b'\n' ∷ []))
        (access env (access_stamp tm) message k)
      × Ensures
          (Writes a e e (log_stamp level id tid tm ++ message ++ b'\n' ∷ []))
          (log env (log_stamp level id tid tm) message k)
      × (last_line (destroy_text id tid tm message) ≡ done (destroy_text id tid tm message))
unfolding access log
log_room env level id tid tm message a e k h i t short o r = (
  rw (line_of-short (access_stamp tm) message (omega (arith, length-access_stamp tm h)))
      (writer_access-Writes a e env (access_stamp tm ++ message ++ b'\n' ∷ []) k o r),
  rw
      (line_of-short (log_stamp level id tid tm) message
        (omega (arith, length-log_stamp level id tid tm h i t)))
      (writer_error-Writes a e env (log_stamp level id tid tm ++ message ++ b'\n' ∷ []) k o r),
  last_line-whole (destroy_text id tid tm message)
      (omega (arith, length-destroy_text id tid tm message h i t)),
)
