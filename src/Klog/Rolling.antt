-- ===== src/Klog/Rolling.antt =====
-- How often the logger of src/klog.cc rolls its access log.
use svnsrv.Base.{ℕ, suc, ◌+◌, ◌-◌, List, [], ◌∷◌, ◌++◌, ◌≡◌, leb, length, if◌then◌else◌}
use svnsrv.Base.Run.{Run, done, ◌>>=◌}
use svnsrv.Base.Text.{Bytes}
use svnsrv.Klog.{
  Stream, file, Effect, renames, writes, Klogger, Rolls, writer_access, max_line_number,
}

-- How many of the effects rename a file.
abbrev pub count_renames : List Effect → ℕ
count_renames [] = 0
count_renames (renames a b ∷ es) = suc (count_renames es)
count_renames (_ ∷ es) = count_renames es

-- A run of writes to the access log, each with the system's answers should it roll.
unfoldable pub write_all : List (Rolls × Bytes) → Klogger → Run (Klogger × List Effect)
unfolding writer_access
write_all [] k = done (k, [])
write_all ((env, text) ∷ ws) k =
    writer_access env text k >>= λ r. write_all ws r.0 >>= λ s. done (s.0, r.1 ++ s.1)

-- The texts that were written, in order, each with its stream.
abbrev pub written : List Effect → List (Stream × Bytes)
written [] = []
written (writes s text ∷ es) = (s, text) ∷ written es
written (_ ∷ es) = written es

-- The texts of the calls, each for the stream of this file.
abbrev pub texts_to : Bytes → List (Rolls × Bytes) → List (Stream × Bytes)
texts_to name [] = []
texts_to name ((env, text) ∷ ws) = (file name, text) ∷ texts_to name ws

-- One write: a text that reaches the file of the log, and a renaming from the limit on.
record Wrote (name : Bytes) (k : Klogger) (text : Bytes) (r : Klogger × List Effect) : Type 0 where
  to_file : r.0.log_access ≡ file name
  same_name : r.0.info_file ≡ name
  counted : r.0.access_counts ≡ k.access_counts + 1
  texts_are : written r.1 ≡ (file name, text) ∷ []
  renamed : count_renames r.1 ≡ (if leb max_line_number k.access_counts then 1 else 0)

abbrev Report : Bytes → List (Rolls × Bytes) → Klogger → Klogger × List Effect → Type 0
Report name ws k r =
    (count_renames r.1 ≡ length ws - (max_line_number - k.access_counts))
    × (written r.1 ≡ texts_to name ws)
