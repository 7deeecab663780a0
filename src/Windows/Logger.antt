-- ===== src/Windows/Logger.antt =====
-- `writerAccess` and `writerError` of src/klog.cc on Windows, which flush each line.
use svnsrv.Base.{[], ◌∷◌, ◌++◌, List}
use svnsrv.Base.Run.{Run, done, ◌>>=◌}
use svnsrv.Base.Text.{Bytes}
use svnsrv.Klog.{Klogger, Effect, flushes, Rolls, writer_access, writer_error}

unfoldable pub flushed_access : Rolls → Bytes → Klogger → Run (Klogger × List Effect)
unfolding writer_access
flushed_access env text k =
    writer_access env text k >>= λ r. done (r.0, r.1 ++ flushes r.0.log_access ∷ [])

unfoldable pub flushed_error : Rolls → Bytes → Klogger → Run (Klogger × List Effect)
unfolding writer_error
flushed_error env text k =
    writer_error env text k >>= λ r. done (r.0, r.1 ++ flushes r.0.log_error ∷ [])
