-- ===== src/Klog/Stamp.antt =====
-- The texts that src/klog.cc puts in front of its lines, and the names it rolls its files to, from a
-- broken-down time as `localtime` gives it.
pub mod Room
use svnsrv.Base.{ℕ, ◌+◌, List, [], ◌∷◌, ◌++◌, ltb, if◌then◌else◌, get_or, take}
use svnsrv.Base.Decimal.{digits}
use svnsrv.Base.Text.{Bytes, codes, c_str}

-- `struct tm`, of a time from 1900 on; `year` counts from there.
pub record Tm : Type 0 where
  pub year : ℕ
  pub mon : ℕ
  pub mday : ℕ
  pub yday : ℕ
  pub wday : ℕ
  pub hour : ℕ
  pub min : ℕ
  pub sec : ℕ

-- `KloggerLevel`
pub data Level : Type 0 where
  debug info warn error fatal : Level

unfoldable pub leve_message : Level → Bytes
leve_message debug = codes "Debug"
leve_message info = codes "Info"
leve_message warn = codes "Warn"
leve_message error = codes "Error"
leve_message fatal = codes "Fatal"

-- The array `wday`
abbrev pub wday_names : List Bytes
wday_names =
    codes "Sun"
    ∷ codes "Mon"
    ∷ codes "Tue"
    ∷ codes "Wed"
    ∷ codes "Thu"
    ∷ codes "Fri"
    ∷ codes "Sat"
    ∷ []

-- `wday[n]` within the array.
unfoldable pub wday_name : ℕ → Bytes
wday_name n = get_or wday_names n []

-- `%02d`
unfoldable pub two_digits : ℕ → Bytes
two_digits n = if ltb n 10 then b'0' ∷ digits n else digits n

-- `%d/%02d/%02d %s %02d:%02d:%02d`
unfoldable pub date : Tm → Bytes
unfolding two_digits wday_name
date tm =
    digits (1900 + tm.year)
    ++ (b'/'
        ∷ (two_digits (tm.mon + 1)
            ++ (b'/'
                ∷ (two_digits tm.mday
                    ++ (b' '
                        ∷ (wday_name tm.wday
                            ++ (b' '
                                ∷ (two_digits tm.hour
                                    ++ (b':'
                                        ∷ (two_digits tm.min ++ (b':' ∷ two_digits tm.sec)))))))))))

-- In front of the lines of `access`.
unfoldable pub access_stamp : Tm → Bytes
unfolding date
access_stamp tm = b'[' ∷ (date tm ++ codes "] ")

-- In front of the lines of `log`, with the process and the thread.
unfoldable pub log_stamp : Level → ℕ → ℕ → Tm → Bytes
unfolding leve_message date
log_stamp level id tid tm =
    b'['
    ∷ (leve_message level
        ++ (codes "] Process: "
            ++ (digits id
                ++ (codes " Thread: "
                    ++ (digits tid ++ (codes " Time: " ++ (date tm ++ b' ' ∷ [])))))))

-- The last line, by `destroy`.
unfoldable pub destroy_text : ℕ → ℕ → Tm → Bytes → Bytes
unfolding log_stamp
destroy_text id tid tm msg = log_stamp info id tid tm ++ (c_str msg ++ b'\n' ∷ [])

-- `newname` of `RollingFileA` and `RollingFileE`: it has the day of the year, and no seconds.
unfoldable pub rolled_name : Bytes → Tm → Bytes
rolled_name name tm = take 4095 (
    c_str name
    ++ (b'.'
        ∷ (digits (tm.year + 1900)
            ++ (b'-'
                ∷ (digits (tm.mon + 1)
                    ++ (b'-'
                        ∷ (digits tm.yday
                            ++ (b'+' ∷ (digits tm.hour ++ (b'.' ∷ digits tm.min))))))))))
