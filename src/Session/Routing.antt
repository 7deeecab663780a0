-- ===== src/Session/Routing.antt =====
-- From the client's answer to the storage machine: src/SubversionSession.cc with
-- src/SubversionHds.cc, src/RouterSeletor.cc and the line buffer of src/klog.cc.
use svnsrv.Base.{
  ℕ, ◌+◌, ◌<◌, List, true, false, [], ◌∷◌, ◌++◌, ◌≡◌, ◌≢◌, refl, ◌∙◌, ap, is_empty, length, All,
  length-append, arith,
}
use svnsrv.Base.Run.{done}
use svnsrv.Base.Text.{Bytes, codes, c_str, Strtol}
use svnsrv.Handshake.Run.{IsPlain, IsWord}
use svnsrv.Handshake.RoundTrip.{opening, counted, Marks}
use svnsrv.Klog.Lines.{line_of-short}
use svnsrv.Router.{StorageElement, RouterSeletor, get_address, get_storage_element}
use svnsrv.Router.Lookup.{Host, route, storage_of}
use svnsrv.Session.{
  Env, Session, Action, after_log, connect_storage, route_storage, resolve_url,
  read_downstream_handshake, accesses, starts, connects,
}
use svnsrv.Session.Answered.{answered, read_downstream_handshake-answer}
use svnsrv.Url.{SubversionUrl, fresh_url, canonicalize}
use svnsrv.Url.Correct.{render}
use svnsrv.Url.Forms.{IsParts, canonicalize-render}

after_log-short :
    (kind : Bytes → Action) (env : Env) (message : Bytes) (s : Session) (acts : List Action)
    → length env.stamp + length message < 4095
    → after_log kind env message (done (s, acts))
      ≡ done (s, kind (env.stamp ++ message ++ b'\n' ∷ []) ∷ acts)
unfolding after_log
after_log-short kind env message s acts h = rw (line_of-short env.stamp message h) refl

-- The message of the access log.
abbrev pub storage_message : Bytes → Bytes → Bytes
storage_message address url =
    codes "Storage: " ++ (address ++ (codes " | URL: " ++ (url ++ codes " ")))

length-storage_message :
    (address url : Bytes) → length (storage_message address url) ≡ length address + length url + 18
length-storage_message address url = omega (
  arith,
  length-append address (codes " | URL: " ++ (url ++ codes " ")),
  length-append url (codes " "),
)

connect_storage-connects :
    (env : Env) (s : Session)
    → env.valid_address s.node.address ≡ true
    → length env.stamp + (length (c_str s.node.address) + length (c_str s.hds.subversion_url) + 18)
      < 4095
    → connect_storage env s
      ≡ done (
        s,
        accesses (
              env.stamp
              ++ storage_message (c_str s.node.address) (c_str s.hds.subversion_url)
              ++ b'\n' ∷ [])
            ∷ starts (connects s.node.address s.node.port)
            ∷ [],
      )
unfolding connect_storage
connect_storage-connects env s v h = rw v (
    after_log-short accesses env
      (storage_message (c_str s.node.address) (c_str s.hds.subversion_url)) s
      (starts (connects s.node.address s.node.port) ∷ [])
      (omega (arith, length-storage_message (c_str s.node.address) (c_str s.hds.subversion_url))))

-- What a session does for a client whose machine is found.
abbrev pub connecting : Env → Session → Bytes → StorageElement → Session × List Action
connecting env s url found = (
  record s { node = found },
  accesses (env.stamp ++ storage_message (c_str found.address) (c_str url) ++ b'\n' ∷ [])
      ∷ starts (connects found.address found.port)
      ∷ [],
)

-- The machine has an address that Boost reads, and the line of the access log fits.
abbrev pub IsUsable : Env → Bytes → StorageElement → Type 0
IsUsable env url found =
    (is_empty found.address ≡ false)
    × (env.valid_address found.address ≡ true)
    × (length env.stamp + (length (c_str found.address) + length (c_str url) + 18) < 4095)

resolve_url-connects :
    (env : Env) (s : Session) (u : SubversionUrl) (found : StorageElement)
    → canonicalize env.strtol s.hds.subversion_url (fresh_url env.garbage) ≡ (0, u)
    → get_storage_element env.router u s.node ≡ (true, found)
    → IsUsable env s.hds.subversion_url found
    → resolve_url env s ≡ done (connecting env s s.hds.subversion_url found)
unfolding resolve_url route_storage
resolve_url-connects env s u found e f h =
    rw (e, f, h.0) (connect_storage-connects env (record s { node = found }) h.1 h.2)

-- What a client sends: the parts of its answer, with those of its URL.
pub record Client : Type 0 where
  pub version : ℕ
  pub capabilities : List Bytes
  pub mark : Bytes
  pub agent_mark : Bytes
  pub agent : Bytes
  pub junk : Bytes
  pub scheme : Bytes
  pub host : Bytes
  pub first : ℕ
  pub second : ℕ
  pub more : Bytes
  pub repository : Bytes
  pub path : Bytes

abbrev pub owner_of : Client → Bytes
owner_of cl = cl.first ∷ cl.second ∷ cl.more

abbrev pub url_of : Client → Bytes
url_of cl = render cl.scheme cl.host (owner_of cl) cl.repository cl.path

abbrev pub answer_of : Client → Bytes
answer_of cl =
    opening cl.version cl.capabilities
      (counted cl.mark (url_of cl) (counted cl.agent_mark cl.agent cl.junk))

-- The answer is as the protocol has it, and the URL `scheme://host/owner/repository/path`.
pub record IsClient (cl : Client) : Type 0 where
  pub version : IsPlain cl.version
  pub capabilities : All IsWord cl.capabilities
  pub mark : Marks cl.mark (url_of cl)
  pub agent_mark : Marks cl.agent_mark cl.agent
  pub junk : All (λ x. x ≢ 0) cl.junk
  pub parts : IsParts cl.scheme cl.host (owner_of cl) cl.repository

length-url_of : (cl : Client) → 0 < length (url_of cl)
length-url_of cl = omega (
  arith,
  length-append cl.scheme (
      b':'
      ∷ b'/'
      ∷ b'/'
      ∷ (cl.host ++ (b'/' ∷ (owner_of cl ++ (b'/' ∷ (cl.repository ++ (b'/' ∷ cl.path))))))),
)

-- The session that holds the parts of the answer.
abbrev pub told : Session → Client → Session
told s cl = answered s cl.version cl.capabilities cl.mark (url_of cl) cl.agent_mark cl.agent cl.junk

-- The machine of an owner whose name begins with these two bytes.
abbrev pub machine : List Host → Bytes → ℕ → ℕ → ℕ → StorageElement
machine hs address port a b = storage_of address port (route hs (a, b))

routed_owner :
    (r : RouterSeletor) (u : SubversionUrl) (node : StorageElement)
    → get_storage_element r u node ≡ get_address r u.owner node
unfolding get_storage_element
routed_owner r u node = refl

-- A client's answer as the protocol has it, whose owner the router knows: the session holds the parts
-- of the answer, writes the machine and the URL to the access log, and connects to the machine, if
-- that has an address that Boost reads and the line fits the logger's buffer.
pub read_downstream_handshake-connects :
    (c : Strtol) (env : Env) (s : Session) (cl : Client) (rest : Bytes) (found : StorageElement)
    → env.strtol ≡ c.strtol
    → get_address env.router (owner_of cl) s.node ≡ (true, found)
    → IsClient cl
    → IsUsable env (url_of cl) found
    → s.clt_buffer ≡ answer_of cl ++ rest
    → read_downstream_handshake env false (length (answer_of cl)) s
      ≡ done (connecting env (told s cl) (url_of cl) found)
read_downstream_handshake-connects c env s cl rest found e r h usable held =
    let ne : url_of cl ≢ [] = λ nil. omega (arith, ap length nil, length-url_of cl) in
    read_downstream_handshake-answer c env s cl.version cl.capabilities cl.mark (url_of cl)
      cl.agent_mark cl.agent cl.junk rest e h.version h.capabilities ne h.mark h.agent_mark h.junk
      held
    ∙ resolve_url-connects env (told s cl) _ found
        (canonicalize-render env.strtol env.garbage cl.scheme cl.host (owner_of cl) cl.repository
          cl.path h.parts)
        (routed_owner env.router _ s.node ∙ r) usable
