-- ===== src/Session/System.antt =====
-- A session of src/SubversionSession.cc among its asynchronous operations: Boost completes any of
-- those that wait, in any order, with data or with an error, and runs its handler.
use svnsrv.Base.{
  ℕ, ◌≤◌, ◌<◌, Bool, true, false, ◌||◌, List, [], ◌∷◌, ◌++◌, ◌≡◌, ◌⊎◌, ltb, length, take, drop,
}
use svnsrv.Base.Run.{done}
use svnsrv.Base.Text.{Bytes}
use svnsrv.Session.{
  Env, Session, Op, writes_greeting, reads_answer, connects, reads_greeting, writes_answer,
  reads_upstream, reads_downstream, writes_downstream, writes_upstream, sends_error, Action, starts,
  Handler, buffer_size, greeting, echo_downstream_handshake, read_downstream_handshake,
  async_connect_upstream, read_upstream_handshake, echo_upstream_handshake, upstream_read,
  downstream_write, downstream_read, upstream_write, error_sent,
}

-- How an operation ends: the error flag, the bytes that a read stored, and `bytes_transferred`.
pub record Completion : Type 0 where
  pub error : Bool
  pub bytes : Bytes
  pub count : ℕ

abbrev Reads : Completion → Type 0
Reads d =
    ((d.error ≡ false) × (d.count ≡ length d.bytes) × (0 < d.count) × (d.count ≤ buffer_size))
    ⊎ ((d.error ≡ true) × (d.count ≡ 0) × (d.bytes ≡ []))

-- `async_write_some` may stop short; `async_write` succeeds with all bytes only.
abbrev WritesSome : Bytes → Completion → Type 0
WritesSome text d = d.count ≤ length text

abbrev WritesAll : Bytes → Completion → Type 0
WritesAll text d =
    ((d.error ≡ false) × (d.count ≡ length text)) ⊎ ((d.error ≡ true) × (d.count ≤ length text))

-- What the documentation of Boost.Asio says of the end of each operation.
abbrev pub IsCompletion : Op → Completion → Type 0
IsCompletion (writes_greeting text) d = WritesSome text d
IsCompletion reads_answer d = Reads d
IsCompletion (connects address port) d = Unit
IsCompletion reads_greeting d = Reads d
IsCompletion (writes_answer text) d = WritesSome text d
IsCompletion reads_upstream d = Reads d
IsCompletion reads_downstream d = Reads d
IsCompletion (writes_downstream text) d = WritesAll text d
IsCompletion (writes_upstream text) d = WritesAll text d
IsCompletion (sends_error text) d = WritesSome text d

abbrev pub overwrite : Bytes → Bytes → Bytes
overwrite bytes buffer = bytes ++ drop (length bytes) buffer

-- A read stores its bytes at the start of its buffer.
unfoldable pub deliver : Op → Bytes → Session → Session
deliver reads_answer bytes s = record s { clt_buffer = overwrite bytes s.clt_buffer }
deliver reads_downstream bytes s = record s { clt_buffer = overwrite bytes s.clt_buffer }
deliver reads_greeting bytes s = record s { buffer = overwrite bytes s.buffer }
deliver reads_upstream bytes s = record s { buffer = overwrite bytes s.buffer }
deliver _ bytes s = s

-- The handler that an operation was started with.
unfoldable pub complete : Env → Op → Completion → Session → Handler
unfolding echo_downstream_handshake read_downstream_handshake async_connect_upstream
    read_upstream_handshake echo_upstream_handshake upstream_read downstream_write downstream_read
    upstream_write error_sent
complete env (writes_greeting text) d s = echo_downstream_handshake d.error s
complete env reads_answer d s = read_downstream_handshake env d.error d.count s
complete env (connects address port) d s = async_connect_upstream env d.error s
complete env reads_greeting d s = read_upstream_handshake env d.error s
complete env (writes_answer text) d s = echo_upstream_handshake env d.error s
complete env reads_upstream d s = upstream_read d.error d.count s
complete env (writes_downstream text) d s = downstream_write d.error s
complete env reads_downstream d s = downstream_read d.error d.count s
complete env (writes_upstream text) d s = upstream_write d.error s
complete env (sends_error text) d s = error_sent d.error s

abbrev pub started : List Action → List Op
started [] = []
started (starts op ∷ rest) = op ∷ started rest
started (_ ∷ rest) = started rest

-- A session with what waits, and a record of the bytes that went over its two connections. Of the
-- storage machine's bytes it has those behind its greeting, which the session reads and drops.
pub record Config : Type 0 where
  pub session : Session
  pub pending : List Op
  pub from_client : Bytes
  pub to_backend : Bytes
  pub from_backend : Bytes
  pub to_client : Bytes
  -- whether the client's answer went to the storage machine in part only
  pub short : Bool

abbrev pub record_op : Op → Completion → Config → Config
record_op reads_answer d c = record c { from_client = c.from_client ++ d.bytes }
record_op reads_downstream d c = record c { from_client = c.from_client ++ d.bytes }
record_op reads_upstream d c = record c { from_backend = c.from_backend ++ d.bytes }
record_op (writes_answer text) d c = record c {
  to_backend = c.to_backend ++ take d.count text;
  short = c.short || ltb d.count (length text);
}
record_op (writes_upstream text) d c = record c { to_backend = c.to_backend ++ take d.count text }
record_op (writes_downstream text) d c = record c { to_client = c.to_client ++ take d.count text }
record_op _ d c = c

-- The configuration after the handler of `op`, which stood between `xs` and `ys`.
abbrev pub advance : Config → List Op → List Op → Op → Completion → Session × List Action → Config
advance c xs ys op d r = record (record_op op d c) {
  session = r.0;
  pending = started r.1 ++ (xs ++ ys);
}

-- What changes from one completion to the next: the time, and the memory of an unset port.
pub record Moment : Type 0 where
  pub stamp : Bytes
  pub garbage : ℕ

abbrev pub env_at : Env → Moment → Env
env_at env m = record env { stamp = m.stamp; garbage = m.garbage }

pub data Step (env : Env) (c : Config) : Config → Type 0 where
  completes :
      (m : Moment) (xs ys : List Op) (op : Op) (d : Completion) (r : Session × List Action)
      → c.pending ≡ xs ++ op ∷ ys
      → IsCompletion op d
      → complete (env_at env m) op d (deliver op d.bytes c.session) ≡ done r
      → Step env c (advance c xs ys op d r)

-- A session that was accepted and started.
abbrev pub accepted : Session → Config
accepted s = record {
  session = s;
  pending = writes_greeting greeting ∷ [];
  from_client = [];
  to_backend = [];
  from_backend = [];
  to_client = [];
  short = false;
}

pub data Reach (env : Env) (c : Config) : Config → Type 0 where
  here : Reach env c c
  next : {c' c'' : Config} → Reach env c c' → Step env c' c'' → Reach env c c''
