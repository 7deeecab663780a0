-- ===== src/Session/Opening.antt =====
-- A session of src/SubversionSession.cc from the connection of its client to the relay, in which all
-- goes well.
use svnsrv.Base.{
  true, false, [], ◌∷◌, ◌++◌, ◌≡◌, inl, refl, ap, length, drop, take, All, ltb, List, ◌∙◌,
  take-append_self, arith,
}
use svnsrv.Base.Text.{Bytes, Strtol}
use svnsrv.Router.{StorageElement, get_address}
use svnsrv.Session.{
  Env, Session, writes_greeting, reads_answer, connects, reads_greeting, writes_answer,
  reads_upstream, reads_downstream, starts, greeting,
}
use svnsrv.Session.Flow.{
  Chunk, bytes_of, Fits, storage_bytes, client_bytes, IsRelaying, Reach-trans, received, sent,
  all_chunks,
}
use svnsrv.Session.Routing.{
  Client, IsClient, owner_of, url_of, answer_of, told, connecting, IsUsable,
  read_downstream_handshake-connects,
}
use svnsrv.Session.Streams.{take-length}
use svnsrv.Session.System.{
  Config, Moment, env_at, complete, deliver, overwrite, completes, accepted, Reach, here, next,
}

module _ (env : Env) (m : Moment) (s : Session) (cl : Client) (found : StorageElement) where
  -- The session with the client's answer in its buffer.
  abbrev held : Session
  held = record s { clt_buffer = overwrite (answer_of cl) s.clt_buffer }

  abbrev pub connecting_to : Config
  connecting_to = record {
    session = (connecting (env_at env m) (told held cl) (url_of cl) found).0;
    pending = connects found.address found.port ∷ [];
    from_client = answer_of cl;
    to_backend = [];
    from_backend = [];
    to_client = [];
    short = false;
  }

  abbrev greeted : Bytes → Config
  greeted g = record connecting_to {
    session = record connecting_to.session { buffer = overwrite g s.buffer };
    pending = writes_answer (answer_of cl) ∷ [];
  }

  abbrev joined : Bytes → Config
  joined g = record (greeted g) {
    pending = reads_upstream ∷ reads_downstream ∷ [];
    to_backend = take (length (answer_of cl)) (answer_of cl);
    short = ltb (length (answer_of cl)) (length (answer_of cl));
  }

module _ (c : Strtol) (env : Env) (m : Moment) (s : Session) (cl : Client) (found : StorageElement)
    (number : env.strtol ≡ c.strtol)
    (known : get_address env.router (owner_of cl) s.node ≡ (true, found)) (sane : IsClient cl)
    (usable : IsUsable (env_at env m) (url_of cl) found) (short : Fits (answer_of cl)) where
  accepted-connecting_to : Reach env (accepted s) (connecting_to env m s cl found)
  unfolding complete deliver
  accepted-connecting_to =
      next
        (next here (
          completes m [] [] (writes_greeting greeting) (sent greeting) (s, starts reads_answer ∷ [])
            refl (omega arith) refl))
        (completes m [] [] reads_answer (received (answer_of cl))
          (connecting (env_at env m) (told (held env m s cl found) cl) (url_of cl) found) refl
          (inl (refl, refl, short.0, short.1))
          (read_downstream_handshake-connects c (env_at env m) (held env m s cl found) cl
            (drop (length (answer_of cl)) s.clt_buffer) found number known sane usable refl))

  connecting_to-greeted :
      (g : Bytes) → Fits g → Reach env (connecting_to env m s cl found) (greeted env m s cl found g)
  unfolding complete deliver
  connecting_to-greeted g f =
      let kept = take-append_self (answer_of cl) (drop (length (answer_of cl)) s.clt_buffer) in
      let t = (connecting_to env m s cl found).session in
      let t' = (greeted env m s cl found g).session in
      next
        (next here (
          completes m [] [] (connects found.address found.port) (sent [])
            (t, starts reads_greeting ∷ []) refl tt refl))
        (completes m [] [] reads_greeting (received g)
          (t', starts (writes_answer (answer_of cl)) ∷ []) refl (inl (refl, refl, f.0, f.1))
          (rw kept refl))

  greeted-joined : (g : Bytes) → Reach env (greeted env m s cl found g) (joined env m s cl found g)
  unfolding complete deliver
  greeted-joined g = next here (
      completes m [] [] (writes_answer (answer_of cl)) (sent (answer_of cl))
        ((greeted env m s cl found g).session, starts reads_upstream ∷ starts reads_downstream ∷ [])
        refl (omega arith) refl)

  -- For a client whose answer is as the protocol has it, whose owner the router knows, and whose
  -- machine has an address that Boost reads, with a line for the access log that fits, there is a run
  -- of the session that connects to just this machine and then passes everything on: its answer and
  -- what it sends, and, behind the greeting, what the machine sends, whatever the chunks of up to
  -- 32768 bytes and their order. The session then waits for both sides.
  pub Reach-proxies :
      (g : Bytes) (chunks : List Chunk)
      → Fits g
      → All (λ chunk. Fits (bytes_of chunk)) chunks
      → (c' : Config) × Reach env (accepted s) (connecting_to env m s cl found)
        × Reach env (connecting_to env m s cl found) c'
        × IsRelaying c'
        × (c'.to_backend ≡ answer_of cl ++ client_bytes chunks)
        × (c'.to_client ≡ storage_bytes chunks)
  Reach-proxies g chunks f fs =
      let r = all_chunks env m chunks (joined env m s cl found g) (inl refl) fs in
      (
        r.0,
        accepted-connecting_to,
        Reach-trans (Reach-trans (connecting_to-greeted g f) (greeted-joined g)) r.1.reached,
        r.1.relaying,
        r.1.to_backend ∙ ap (λ t. t ++ client_bytes chunks) (take-length (answer_of cl)),
        r.1.to_client,
      )
