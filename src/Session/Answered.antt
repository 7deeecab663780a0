-- ===== src/Session/Answered.antt =====
-- The client's answer in src/SubversionSession.cc, as src/SubversionHds.cc parses it.
use svnsrv.Base.{
  false, List, [], ◌++◌, some, ◌≡◌, ◌≢◌, ◌∙◌, ap, ℕ, length, take, All, take-append_self, ◌+◌,
}
use svnsrv.Base.Text.{Bytes, Strtol}
use svnsrv.Handshake.{SubversionHds, ok, parse, protocol_of}
use svnsrv.Handshake.Run.{IsPlain, IsWord}
use svnsrv.Handshake.RoundTrip.{opening, counted, Marks, parse-parts}
use svnsrv.Session.{Env, Session, resolve_url, read_downstream_handshake}

parsed_handshake :
    (env : Env) (n : ℕ) (s : Session) (hds : SubversionHds)
    → parse env.strtol (env.clt_address + n) (some (take n s.clt_buffer)) s.hds ≡ ok hds
    → read_downstream_handshake env false n s
      ≡ resolve_url env (record s { handshake_size = n; hds = hds })
unfolding read_downstream_handshake
parsed_handshake env n s hds e = rw (read_downstream_handshake, e)

-- The session that holds the parts of an answer.
abbrev pub answered : Session → ℕ → List Bytes → Bytes → Bytes → Bytes → Bytes → Bytes → Session
answered s v caps mark url mark' client junk = record s {
  handshake_size = length (opening v caps (counted mark url (counted mark' client junk)));
  hds = record {
    protocol = protocol_of v;
    capabilities = s.hds.capabilities ++ caps;
    subversion_url = url;
    user_agent = client;
    last_error = s.hds.last_error;
  };
}

-- An answer as the protocol has it leaves its parts to the rest of the handler.
pub read_downstream_handshake-answer :
    (c : Strtol) (env : Env) (s : Session) (v : ℕ) (caps : List Bytes)
    (mark url mark' client junk rest : Bytes)
    → env.strtol ≡ c.strtol
    → IsPlain v
    → All IsWord caps
    → url ≢ []
    → Marks mark url
    → Marks mark' client
    → All (λ b. b ≢ 0) junk
    → s.clt_buffer ≡ opening v caps (counted mark url (counted mark' client junk)) ++ rest
    → read_downstream_handshake env false
        (length (opening v caps (counted mark url (counted mark' client junk))))
        s
      ≡ resolve_url env (answered s v caps mark url mark' client junk)
read_downstream_handshake-answer c env s v caps mark url mark' client junk rest e hv hc ne m m' hj
      held =
    let answer = opening v caps (counted mark url (counted mark' client junk)) in
    parsed_handshake env (length answer) s (answered s v caps mark url mark' client junk).hds (
      ap (λ b. parse env.strtol (env.clt_address + length answer) (some b) s.hds)
        (ap (take (length answer)) held ∙ take-append_self answer rest)
      ∙ (ap (λ f. parse f (env.clt_address + length answer) (some answer) s.hds) e
          ∙ parse-parts c (env.clt_address + length answer) v caps mark url mark' client junk s.hds
              hv hc ne m m' hj))
