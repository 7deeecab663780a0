-- ===== src/Session/Handlers.antt =====
-- The handlers of the handshake in src/SubversionSession.cc, one by one: what they may start.
use svnsrv.Base.{
  ℕ, ◌≤◌, Bool, true, false, List, [], ◌∷◌, ◌≡◌, refl, arith, Bool-cases, inl, inr, not, ◌||◌, ◌==◌,
  is_empty, ltb, if◌then◌else◌, take, some, length, All, ◌+◌,
}
use svnsrv.Base.Run.{Run, done, crash, ◌>>=◌}
use svnsrv.Base.Text.{Bytes}
use svnsrv.Router.{get_storage_element}
use svnsrv.Url.{fresh_url, canonicalize}
use svnsrv.Handshake.{SubversionHds, Result, ok, err, fault, parse}
use svnsrv.Session.{
  Env, Session, Op, connects, reads_greeting, writes_answer, sends_error, Action, Handler,
  bad_address, no_storage, not_available, echo_failed, cancels_backend, cancels_socket, accesses,
  logs, buffer_size, failure_text, write_error, send_text, after_log, connect_storage,
  route_storage, resolve_url, read_downstream_handshake, async_connect_upstream,
  read_upstream_handshake, echo_upstream_handshake,
}
use svnsrv.Session.System.{started}

-- What the handlers of the handshake start while the first `n` bytes of `clt_buffer_` hold the
-- client's answer: a step of the handshake, or the report of a failure.
abbrev pub Allowed : ℕ → Bytes → Op → Type 0
Allowed n clt (connects address port) = Unit
Allowed n clt reads_greeting = Unit
Allowed n clt (writes_answer text) = text ≡ take n clt
Allowed n clt (sends_error text) = Unit
Allowed n clt _ = ⊥

abbrev pub IsReport : Op → Type 0
IsReport (sends_error text) = Unit
IsReport _ = ⊥

-- The handler starts at most one operation, of the kind `P`, and leaves the answer where it is.
abbrev pub Hands : (Op → Type 0) → ℕ → Bytes → Handler → Type 0
Hands P n clt (done r) =
    (r.0.handshake_size ≡ n)
    × (r.0.clt_buffer ≡ clt)
    × (length (started r.1) ≤ 1)
    × All P (started r.1)
Hands P n clt crash = Unit

write_error-Hands :
    (P : Op → Type 0) (text stored : Bytes) (s : Session)
    → ((t : Bytes) → P (sends_error t))
    → Hands P s.handshake_size s.clt_buffer (write_error text stored s)
unfolding write_error
write_error-Hands P text stored s h = elim (Bool-cases (ltb buffer_size (length stored))) [
  | inl e ↦ rw (e, write_error) tt
  | inr e ↦ rw (e, write_error) (refl, refl, omega arith, (h _, tt))
]

send_text-Hands :
    (P : Op → Type 0) (eid : ℕ) (msg : Bytes) (s : Session)
    → ((t : Bytes) → P (sends_error t))
    → Hands P s.handshake_size s.clt_buffer (send_text eid msg s)
unfolding send_text
send_text-Hands P eid msg s h = write_error-Hands P (failure_text eid (length msg) msg) _ s h

-- An action that starts nothing.
abbrev IsQuiet : (Bytes → Action) → Type 0
IsQuiet kind = (line : Bytes) (rest : List Action) → started (kind line ∷ rest) ≡ started rest

module _ (P : Op → Type 0) (n : ℕ) (clt : Bytes) where
  then_log-Hands :
      (kind : Bytes → Action) (m : Run Bytes) (handler : Handler)
      → IsQuiet kind
      → Hands P n clt handler
      → Hands P n clt (m >>= λ line. handler >>= λ r. done (r.0, kind line ∷ r.1))
  then_log-Hands kind crash handler q k = tt
  then_log-Hands kind (done line) crash q k = tt
  then_log-Hands kind (done line) (done r) q k = rw (q line r.1) k

  logs-Hands :
      (env : Env) (message : Bytes) (handler : Handler)
      → Hands P n clt handler
      → Hands P n clt (after_log logs env message handler)
  unfolding after_log
  logs-Hands env message handler = then_log-Hands logs _ handler (λ line rest. refl)

  accesses-Hands :
      (env : Env) (message : Bytes) (handler : Handler)
      → Hands P n clt handler
      → Hands P n clt (after_log accesses env message handler)
  unfolding after_log
  accesses-Hands env message handler = then_log-Hands accesses _ handler (λ line rest. refl)

  if-Hands :
      (b : Bool) (m m' : Handler)
      → Hands P n clt m
      → Hands P n clt m'
      → Hands P n clt (if b then m else m')
  if-Hands true m m' h h' = h
  if-Hands false m m' h h' = h'

  cancel-Hands :
      (m : Handler) → Hands P n clt m → Hands P n clt (m >>= λ r. done (r.0, cancels_backend ∷ r.1))
  cancel-Hands (done r) h = h
  cancel-Hands crash h = tt

abbrev HandsOf : Session → Handler → Type 0
HandsOf s = Hands (Allowed s.handshake_size s.clt_buffer) s.handshake_size s.clt_buffer

-- The failure that a handler reports after a line of the log.
failed-Hands :
    (env : Env) (message text : Bytes) (s : Session)
    → HandsOf s (after_log logs env message (send_text 200042 text s))
failed-Hands env message text s =
    logs-Hands _ _ _ env message _ (send_text-Hands _ 200042 text s λ t. tt)

connect_storage-Hands : (env : Env) (s : Session) → HandsOf s (connect_storage env s)
unfolding connect_storage
connect_storage-Hands env s = accesses-Hands _ _ _ env _ _ (
    if-Hands _ _ _ (env.valid_address s.node.address) _ _ (refl, refl, omega arith, (tt, tt))
      (send_text-Hands _ 200042 bad_address s λ text. tt))

route_storage-Hands :
    (env : Env) (found : Bool) (s : Session) → HandsOf s (route_storage env found s)
unfolding route_storage
route_storage-Hands env found s =
    if-Hands _ _ _ (not found || is_empty s.node.address) _ _ (failed-Hands env _ no_storage s)
      (connect_storage-Hands env s)

resolve_url-Hands : (env : Env) (s : Session) → HandsOf s (resolve_url env s)
unfolding resolve_url
resolve_url-Hands env s =
    let url = canonicalize env.strtol s.hds.subversion_url (fresh_url env.garbage) in
    let found = get_storage_element env.router url.1 s.node in
    if-Hands _ _ _ (not (url.0 == 0)) _ _ (send_text-Hands _ 210004 s.hds.last_error s λ text. tt)
      (route_storage-Hands env found.0 (record s { node = found.1 }))

parsed-Hands :
    (env : Env) (n : ℕ) (s : Session) (m : Result SubversionHds)
    → parse env.strtol (env.clt_address + n) (some (take n s.clt_buffer)) s.hds ≡ m
    → Hands (Allowed n s.clt_buffer) n s.clt_buffer (read_downstream_handshake env false n s)
unfolding read_downstream_handshake
parsed-Hands env n s (ok hds) e =
    rw (e, read_downstream_handshake)
      (resolve_url-Hands env (record s { handshake_size = n; hds = hds }))
parsed-Hands env n s (err code hds) e =
    rw (e, read_downstream_handshake)
      (send_text-Hands _ 210004 hds.last_error (record s { handshake_size = n; hds = hds })
        λ text. tt)
parsed-Hands env n s (fault f) e = rw (e, read_downstream_handshake) tt

pub read_downstream_handshake-Hands :
    (env : Env) (n : ℕ) (s : Session)
    → Hands (Allowed n s.clt_buffer) n s.clt_buffer (read_downstream_handshake env false n s)
read_downstream_handshake-Hands env n s = parsed-Hands env n s _ refl

-- An error starts nothing.
pub read_failed-Hands :
    (env : Env) (n : ℕ) (s : Session)
    → Hands (λ op. ⊥) s.handshake_size s.clt_buffer (read_downstream_handshake env true n s)
unfolding read_downstream_handshake
read_failed-Hands env n s =
    logs-Hands _ _ _ env _ (done (s, cancels_socket ∷ [])) (refl, refl, omega arith, tt)

pub async_connect_upstream-Hands :
    (env : Env) (error : Bool) (s : Session) → HandsOf s (async_connect_upstream env error s)
unfolding async_connect_upstream
async_connect_upstream-Hands env error s =
    if-Hands _ _ _ (not error) _ _ (refl, refl, omega arith, (tt, tt))
      (failed-Hands env _ not_available s)

pub read_upstream_handshake-Hands :
    (env : Env) (error : Bool) (s : Session) → HandsOf s (read_upstream_handshake env error s)
unfolding read_upstream_handshake
read_upstream_handshake-Hands env error s =
    if-Hands _ _ _ (not error) _ _ (refl, refl, omega arith, (refl, tt))
      (failed-Hands env _ not_available s)

-- With an error they only report the failure.
reports-Hands :
    (env : Env) (message text : Bytes) (s : Session)
    → Hands IsReport s.handshake_size s.clt_buffer
        (after_log logs env message (send_text 200042 text s))
reports-Hands env message text s =
    logs-Hands _ _ _ env message _ (send_text-Hands _ 200042 text s λ t. tt)

pub connect_failed-Hands :
    (env : Env) (s : Session)
    → Hands IsReport s.handshake_size s.clt_buffer (async_connect_upstream env true s)
unfolding async_connect_upstream
connect_failed-Hands env s = reports-Hands env _ not_available s

pub greeting_failed-Hands :
    (env : Env) (s : Session)
    → Hands IsReport s.handshake_size s.clt_buffer (read_upstream_handshake env true s)
unfolding read_upstream_handshake
greeting_failed-Hands env s = reports-Hands env _ not_available s

pub echo_failed-Hands :
    (env : Env) (s : Session)
    → Hands IsReport s.handshake_size s.clt_buffer (echo_upstream_handshake env true s)
unfolding echo_upstream_handshake
echo_failed-Hands env s =
    logs-Hands _ _ _ env _ _
      (cancel-Hands _ _ _ _ (send_text-Hands _ 200042 echo_failed s λ text. tt))
