-- ===== src/Session.antt =====
-- src/SubversionSession.cc and src/SubversionSession.hpp: one client's session, as the handlers of
-- its asynchronous operations. A handler gets the error flag and the number of bytes transferred,
-- and returns the session after it with what it started, cancelled, shut down or logged, in order.
pub mod System
pub mod Handlers
pub mod Exclusive
pub mod Streams
pub mod Passing
pub mod Relay
pub mod Frame
pub mod Answered
pub mod Overlong
pub mod Routing
pub mod Ending
pub mod Flow
pub mod Opening
use svnsrv.Base.{
  ℕ, ◌+◌, ◌-◌, ◌%◌, ◌^◌, Bool, true, false, not, ◌&&◌, ◌||◌, List, [], ◌∷◌, ◌++◌, Option, none,
  some, ◌==◌, ltb, if◌then◌else◌, is_empty, length, take, drop,
}
use svnsrv.Base.Decimal.{digits}
use svnsrv.Base.Int.{ℤ}
use svnsrv.Base.Run.{Run, done, crash, ◌>>=◌}
use svnsrv.Base.Text.{Bytes, codes, c_str}
use svnsrv.Handshake.{SubversionHds, Result, ok, err, fault, parse}
use svnsrv.Klog.{line_of}
use svnsrv.Router.{StorageElement, RouterSeletor, get_storage_element}
use svnsrv.Url.{fresh_url, canonicalize}

-- What the session takes from outside: the C library, the routing table, the address that
-- `clt_buffer_` stands at, Boost's reading of an address, the time stamp in front of a log line, what `%S` makes of bytes that are no wide text, and
-- the memory of an unset port.
pub record Env : Type 0 where
  pub strtol : Bytes → ℤ
  pub clt_address : ℕ
  pub router : RouterSeletor
  pub valid_address : Bytes → Bool
  pub stamp : Bytes
  pub wide : Bytes → Bytes
  pub garbage : ℕ

pub record Session : Type 0 where
  pub socket_open : Bool
  pub backend_open : Bool
  pub node : StorageElement
  pub hds : SubversionHds
  pub handshake_size : ℕ
  pub buffer : Bytes
  pub clt_buffer : Bytes

-- What the constructor leaves as the memory has it.
pub record Unset : Type 0 where
  pub port : ℕ
  pub protocol : ℕ
  pub handshake_size : ℕ
  pub buffer : Bytes
  pub clt_buffer : Bytes

-- The constructor. The socket is open once the acceptor has a client for it.
unfoldable pub fresh_session : Unset → Session
fresh_session u = record {
  socket_open = false;
  backend_open = false;
  node = record { address = []; port = u.port };
  hds = record {
    protocol = u.protocol;
    capabilities = [];
    subversion_url = [];
    user_agent = [];
    last_error = [];
  };
  handshake_size = u.handshake_size;
  buffer = u.buffer;
  clt_buffer = u.clt_buffer;
}

-- An asynchronous operation that waits for its completion. A write carries the bytes that the
-- buffer holds when it starts.
pub data Op : Type 0 where
  writes_greeting : Bytes → Op
  reads_answer : Op
  connects : Bytes → ℕ → Op
  reads_greeting : Op
  writes_answer : Bytes → Op
  reads_upstream reads_downstream : Op
  writes_downstream writes_upstream : Bytes → Op
  sends_error : Bytes → Op

pub data Action : Type 0 where
  starts : Op → Action
  cancels_socket cancels_backend shuts_socket closes_socket shuts_backend closes_backend : Action
  accesses logs : Bytes → Action

abbrev pub Handler : Type 0
Handler = Run (Session × List Action)

-- `kDefaultBufferSize`
abbrev pub buffer_size : ℕ
buffer_size = 32768

unfoldable pub greeting : Bytes
greeting =
    codes
      "( success ( 2 2 ( ) ( edit-pipeline svndiff1 absent-entries depth inherited-props log-revprops ) ) ) "

abbrev pub bad_address : Bytes
bad_address = codes "Error upstream Address !"

abbrev pub no_storage : Bytes
no_storage = codes "Cannot found Storage machine address "

abbrev pub not_available : Bytes
not_available = codes "Storage server is not available"

abbrev pub echo_failed : Bytes
echo_failed = codes "Echo handshake to storage failure"

unfoldable pub stop : Session → Session × List Action
stop s =
    let socket = if s.socket_open then shuts_socket ∷ closes_socket ∷ [] else [] in
    let backend = if s.backend_open then shuts_backend ∷ closes_backend ∷ [] else [] in
    (record s { socket_open = false; backend_open = false }, socket ++ backend)

-- `set_option` throws where the system refuses the option, and nothing catches it.
unfoldable pub start : Bool → Session → Handler
start option_set s = if option_set then done (s, starts (writes_greeting greeting) ∷ []) else crash

-- `"( failure ( ( %d %u:%s 0: 0 ) ) ) "`
unfoldable pub failure_text : ℕ → ℕ → Bytes → Bytes
failure_text eid size msg =
    codes "( failure ( ( "
    ++ (digits eid ++ (b' ' ∷ (digits size ++ (b':' ∷ (c_str msg ++ codes " 0: 0 ) ) ) ")))))

-- What `snprintf` with room for `n` bytes stores.
unfoldable pub printed : ℕ → Bytes → Bytes
printed n text =
    if ltb (length text) n
    then text ++ 0 ∷ []
    else if n == 0
    then []
    else take (n - 1) text ++ 0 ∷ []

-- The text in `buffer_`, where storing behind its end would corrupt memory, and its write.
unfoldable pub write_error : Bytes → Bytes → Session → Handler
write_error text stored s =
    let buffer = stored ++ drop (length stored) s.buffer in
    if ltb buffer_size (length stored)
    then crash
    else done (record s { buffer = buffer }, starts (sends_error (take (length text) buffer)) ∷ [])

unfoldable pub send_error : ℕ → Bytes → ℕ → Session → Handler
unfolding failure_text printed write_error
send_error eid msg size s =
    let text = failure_text eid size msg in write_error text (printed ((size + 64) % 2 ^ 32) text) s

-- `sendError(eid, msg, size)` with the size of the message, as all its callers have it.
unfoldable pub send_text : ℕ → Bytes → Session → Handler
unfolding send_error
send_text eid msg s = send_error eid msg (length msg) s

-- A handler behind a line of the log.
unfoldable pub after_log : (Bytes → Action) → Env → Bytes → Handler → Handler
unfolding line_of
after_log kind env message next =
    line_of env.stamp message >>= λ line. next >>= λ r. done (r.0, kind line ∷ r.1)

unfoldable pub echo_downstream_handshake : Bool → Session → Handler
echo_downstream_handshake error s =
    done (s, if not error then starts reads_answer ∷ [] else cancels_socket ∷ [])

-- The end of `read_downstream_handshake`, with the storage machine in `node`.
unfoldable pub connect_storage : Env → Session → Handler
unfolding after_log send_text
connect_storage env s =
    after_log accesses env
      (codes "Storage: "
        ++ (c_str s.node.address
            ++ (codes " | URL: " ++ (c_str s.hds.subversion_url ++ codes " "))))
      (if env.valid_address s.node.address
        then done (s, starts (connects s.node.address s.node.port) ∷ [])
        else send_text 200042 bad_address s)

-- The same from the routing on, for the owner's URL.
unfoldable pub route_storage : Env → Bool → Session → Handler
unfolding connect_storage
route_storage env found s =
    if not found || is_empty s.node.address
    then after_log logs env
        (codes "Cannot found Storage machine address, URL:" ++ c_str s.hds.subversion_url)
        (send_text 200042 no_storage s)
    else connect_storage env s

-- The same from the parsed handshake on.
unfoldable pub resolve_url : Env → Session → Handler
unfolding route_storage
resolve_url env s =
    let url = canonicalize env.strtol s.hds.subversion_url (fresh_url env.garbage) in
    let found = get_storage_element env.router url.1 s.node in
    if not (url.0 == 0)
    then send_text 210004 s.hds.last_error s
    else route_storage env found.0 (record s { node = found.1 })

unfoldable pub read_downstream_handshake : Env → Bool → ℕ → Session → Handler
unfolding resolve_url
read_downstream_handshake env true n s =
    after_log logs env (codes "Read downstrean handshake message failure !")
      (done (s, cancels_socket ∷ []))
read_downstream_handshake env false n s =
    elim (parse env.strtol (env.clt_address + n) (some (take n s.clt_buffer)) s.hds) [
      | ok hds ↦ resolve_url env (record s { handshake_size = n; hds = hds })
      | err code hds ↦ send_text 210004 hds.last_error (record s { handshake_size = n; hds = hds })
      | fault f ↦ crash
    ]

unfoldable pub async_connect_upstream : Env → Bool → Session → Handler
unfolding after_log send_text
async_connect_upstream env error s =
    if not error
    then done (s, starts reads_greeting ∷ [])
    else after_log logs env
        (codes "Storage server is not available ,Address: " ++ c_str s.node.address)
        (send_text 200042 not_available s)

unfoldable pub read_upstream_handshake : Env → Bool → Session → Handler
unfolding after_log send_text
read_upstream_handshake env error s =
    if not error
    then done (s, starts (writes_answer (take s.handshake_size s.clt_buffer)) ∷ [])
    else after_log logs env
        (codes "Cannot read storage ,URL: "
          ++ (env.wide s.hds.subversion_url ++ (codes " ,Address: " ++ c_str s.node.address)))
        (send_text 200042 not_available s)

unfoldable pub echo_upstream_handshake : Env → Bool → Session → Handler
unfolding after_log send_text
echo_upstream_handshake env error s =
    if not error
    then done (s, starts reads_upstream ∷ starts reads_downstream ∷ [])
    else after_log logs env
        (codes "Echo handshake to storage failure ,URL: "
          ++ (c_str s.hds.subversion_url ++ (codes ", Storage: " ++ c_str s.node.address)))
        (send_text 200042 echo_failed s >>= λ r. done (r.0, cancels_backend ∷ r.1))

unfoldable pub upstream_read : Bool → ℕ → Session → Handler
upstream_read error n s = done (
  s,
  if not error then starts (writes_downstream (take n s.buffer)) ∷ [] else cancels_socket ∷ [],
)

unfoldable pub downstream_write : Bool → Session → Handler
downstream_write error s = done (s, if not error then starts reads_upstream ∷ [] else [])

unfoldable pub downstream_read : Bool → ℕ → Session → Handler
downstream_read error n s = done (
  s,
  if not error then starts (writes_upstream (take n s.clt_buffer)) ∷ [] else cancels_backend ∷ [],
)

unfoldable pub upstream_write : Bool → Session → Handler
upstream_write error s = done (s, if not error then starts reads_downstream ∷ [] else [])

-- The lambda of `sendError`.
unfoldable pub error_sent : Bool → Session → Handler
error_sent error s = done (s, if not error then shuts_socket ∷ [] else [])
