-- ===== src/Windows/Query.antt =====
-- The two versions of `GetProcessCommandline` of src/daemonize_win.inl. The answers of the system
-- are parameters.
use svnsrv.Base.{ℕ, ◌/◌, Bool, List, [], ◌∷◌, Option, none, some, ◌==◌, if◌then◌else◌, take}
use svnsrv.Base.Run.{Run, done, crash}
use svnsrv.Base.Text.{Bytes}

-- A row of the query: its `ProcessId`, and its `CommandLine`, or `none` for a null string.
pub record Row : Type 0 where
  pub process_id : ℕ
  pub command_line : Option Bytes

-- Whether the calls up to the query succeed, whether it gives an enumerator, and its rows.
pub record Wmi : Type 0 where
  pub creates : Bool
  pub connects : Bool
  pub queries : Bool
  pub enumerates : Bool
  pub rows : List Row

-- The loop over the rows. A null pointer put into the string is undefined.
unfoldable pub find_row : List Row → ℕ → Run (Option Bytes)
find_row [] pid = done none
find_row (r ∷ rs) pid =
    let rest = find_row rs pid in
    if r.process_id == pid
    then elim r.command_line [ none ↦ crash | some line ↦ done (some line) ]
    else rest

unfoldable pub command_line_wmi : Wmi → ℕ → Run (Option Bytes)
unfolding find_row
command_line_wmi w pid =
    if w.creates
    then if w.connects
      then if w.queries then if w.enumerates then find_row w.rows pid else done none else done none
      else done none
    else done none

-- The other version, by the memory of the process: what `CommandLine` holds is a number of bytes and
-- the characters that are read from there, or `none` where the read fails.
pub record Memory : Type 0 where
  pub has_function : Bool
  pub opens : Bool
  pub informs : Bool
  pub reads_peb : Bool
  pub reads_parameters : Bool
  pub bytes : ℕ
  pub buffer : Option Bytes

unfoldable pub command_line_memory : Memory → Option Bytes
command_line_memory m =
    if m.has_function
    then if m.opens
      then if m.informs
        then if m.reads_peb
          then if m.reads_parameters
            then elim m.buffer [ none ↦ none | some text ↦ some (take (m.bytes / 2) text) ]
            else none
          else none
        else none
      else none
    else none
