-- ===== src/Session/Passing.antt =====
-- How each handler of src/SubversionSession.cc passes on the bytes of a session.
use svnsrv.Base.{
  ℕ, Bool, true, false, ◌||◌, List, ◌++◌, ◌≡◌, ltb, length, take, drop, All, append-nil,
  take-append_self, arith,
}
use svnsrv.Base.Run.{done}
use svnsrv.Base.Text.{Bytes}
use svnsrv.Session.{
  Env, Session, writes_greeting, reads_answer, connects, reads_greeting, writes_answer,
  reads_upstream, reads_downstream, writes_downstream, writes_upstream, sends_error, Action,
  echo_upstream_handshake,
}
use svnsrv.Session.Handlers.{
  Allowed, Hands, read_downstream_handshake-Hands, read_failed-Hands, async_connect_upstream-Hands,
  read_upstream_handshake-Hands, echo_failed-Hands,
}
use svnsrv.Session.System.{Completion, IsCompletion, deliver, complete, started, Config, overwrite}
use svnsrv.Session.Streams.{
  IsPrefix, UpOk, DownOk, OpOk, IsPrefix-take, IsPrefix-append, IsPrefix-refl, take-length,
  Allowed-ok, IsReport-ok, None-ok,
}

module _ (env : Env) (c : Config) (d : Completion) (r : Session × List Action) where
  pub writes_greeting-OpOk :
      (text : Bytes)
      → complete env (writes_greeting text) d (deliver (writes_greeting text) d.bytes c.session)
        ≡ done r
      → c.to_client ≡ c.from_backend
      → c.to_backend ≡ c.from_client
      → OpOk c (writes_greeting text) d r
  unfolding complete deliver
  writes_greeting-OpOk text h u w = record {
    up_prefix = IsPrefix-refl _ _ u;
    down_prefix = IsPrefix-refl _ _ w;
    up_started = ground arith;
    down_started = ground arith;
  }

  pub reads_upstream-OpOk :
      complete env reads_upstream d (deliver reads_upstream d.bytes c.session) ≡ done r
      → IsCompletion reads_upstream d
      → c.to_client ≡ c.from_backend
      → IsPrefix c.to_backend c.from_client
      → OpOk c reads_upstream d r
  unfolding complete deliver
  reads_upstream-OpOk h v u w = record {
    up_prefix = IsPrefix-append c.to_client c.from_backend d.bytes (IsPrefix-refl _ _ u);
    down_prefix = w;
    up_started = ground (
      arith,
      take-append_self d.bytes (drop (length d.bytes) c.session.buffer),
      append-nil c.from_backend,
    );
    down_started = ground arith;
  }

  pub writes_downstream-OpOk :
      (text : Bytes)
      → complete env (writes_downstream text) d (deliver (writes_downstream text) d.bytes c.session)
        ≡ done r
      → IsCompletion (writes_downstream text) d
      → c.to_client ++ text ≡ c.from_backend
      → IsPrefix c.to_backend c.from_client
      → OpOk c (writes_downstream text) d r
  unfolding complete deliver
  writes_downstream-OpOk text h v u w = record {
    up_prefix = IsPrefix-take d.count c.to_client text c.from_backend u;
    down_prefix = w;
    up_started = ground (arith, take-length text);
    down_started = ground arith;
  }

  pub reads_downstream-OpOk :
      complete env reads_downstream d (deliver reads_downstream d.bytes c.session) ≡ done r
      → IsCompletion reads_downstream d
      → IsPrefix c.to_client c.from_backend
      → c.to_backend ≡ c.from_client
      → OpOk c reads_downstream d r
  unfolding complete deliver
  reads_downstream-OpOk h v u w = record {
    up_prefix = u;
    down_prefix = IsPrefix-append c.to_backend c.from_client d.bytes (IsPrefix-refl _ _ w);
    up_started = ground arith;
    down_started = ground (
      arith,
      take-append_self d.bytes (drop (length d.bytes) c.session.clt_buffer),
      append-nil c.from_client,
    );
  }

  pub writes_upstream-OpOk :
      (text : Bytes)
      → complete env (writes_upstream text) d (deliver (writes_upstream text) d.bytes c.session)
        ≡ done r
      → IsCompletion (writes_upstream text) d
      → IsPrefix c.to_client c.from_backend
      → c.to_backend ++ text ≡ c.from_client
      → OpOk c (writes_upstream text) d r
  unfolding complete deliver
  writes_upstream-OpOk text h v u w = record {
    up_prefix = u;
    down_prefix = IsPrefix-take d.count c.to_backend text c.from_client w;
    up_started = ground arith;
    down_started = ground (arith, take-length text);
  }

  pub sends_error-OpOk :
      (text : Bytes)
      → complete env (sends_error text) d (deliver (sends_error text) d.bytes c.session) ≡ done r
      → IsPrefix c.to_client c.from_backend
      → IsPrefix c.to_backend c.from_client
      → OpOk c (sends_error text) d r
  unfolding complete deliver
  sends_error-OpOk text h u w = record {
    up_prefix = u;
    down_prefix = w;
    up_started = ground arith;
    down_started = ground arith;
  }

  -- A handler of the handshake that leaves the answer where it is.
  Hands-ok :
      (tc fb tb fc : Bytes) (n : ℕ) (clt : Bytes)
      → Hands (Allowed n clt) n clt (done r)
      → tc ≡ fb
      → tb ++ take n clt ≡ fc
      → All (UpOk tc fb) (started r.1)
        × All (DownOk tb fc r.0.handshake_size r.0.clt_buffer) (started r.1)
  Hands-ok tc fb tb fc n clt h u w =
      rw (h.0, h.1) (Allowed-ok (started r.1) tc fb tb fc n clt u w h.3)

  pub connects-OpOk :
      (address : Bytes) (port : ℕ)
      → complete env (connects address port) d (deliver (connects address port) d.bytes c.session)
        ≡ done r
      → c.to_client ≡ c.from_backend
      → c.to_backend ++ take c.session.handshake_size c.session.clt_buffer ≡ c.from_client
      → OpOk c (connects address port) d r
  unfolding complete deliver
  connects-OpOk address port h u w =
      let k =
        Hands-ok c.to_client c.from_backend c.to_backend c.from_client _ _
          (rw h at (async_connect_upstream-Hands env d.error c.session)) u w in
      record {
        up_prefix = IsPrefix-refl _ _ u;
        down_prefix = (take c.session.handshake_size c.session.clt_buffer, w);
        up_started = k.0;
        down_started = k.1;
      }

  pub reads_greeting-OpOk :
      complete env reads_greeting d (deliver reads_greeting d.bytes c.session) ≡ done r
      → c.to_client ≡ c.from_backend
      → c.to_backend ++ take c.session.handshake_size c.session.clt_buffer ≡ c.from_client
      → OpOk c reads_greeting d r
  unfolding complete deliver
  reads_greeting-OpOk h u w =
      let s = record c.session { buffer = overwrite d.bytes c.session.buffer } in
      let k =
        Hands-ok c.to_client c.from_backend c.to_backend c.from_client _ _
          (rw h at (read_upstream_handshake-Hands env d.error s)) u w in
      record {
        up_prefix = IsPrefix-refl _ _ u;
        down_prefix = (take c.session.handshake_size c.session.clt_buffer, w);
        up_started = k.0;
        down_started = k.1;
      }

  pub reads_answer-OpOk :
      (b : Bool)
      → d.error ≡ b
      → complete env reads_answer d (deliver reads_answer d.bytes c.session) ≡ done r
      → IsCompletion reads_answer d
      → c.to_client ≡ c.from_backend
      → c.to_backend ≡ c.from_client
      → OpOk c reads_answer d r
  unfolding complete deliver
  reads_answer-OpOk true e h v u w =
      let s = record c.session { clt_buffer = overwrite d.bytes c.session.clt_buffer } in
      let hands = rw (rw e at h) at (read_failed-Hands env d.count s) in
      let k =
        None-ok (started r.1) c.to_client c.from_backend c.to_backend (c.from_client ++ d.bytes)
          r.0.handshake_size r.0.clt_buffer hands.3 in
      record {
        up_prefix = IsPrefix-refl _ _ u;
        down_prefix = IsPrefix-append c.to_backend c.from_client d.bytes (IsPrefix-refl _ _ w);
        up_started = k.0;
        down_started = k.1;
      }
  reads_answer-OpOk false e h v u w =
      let s = record c.session { clt_buffer = overwrite d.bytes c.session.clt_buffer } in
      let stored : take d.count s.clt_buffer ≡ d.bytes =
        ground (arith, take-append_self d.bytes (drop (length d.bytes) c.session.clt_buffer)) in
      let k =
        Hands-ok c.to_client c.from_backend c.to_backend (c.from_client ++ d.bytes) d.count
          s.clt_buffer (rw (rw e at h) at (read_downstream_handshake-Hands env d.count s)) u
          (rw (stored, w)) in
      record {
        up_prefix = IsPrefix-refl _ _ u;
        down_prefix = IsPrefix-append c.to_backend c.from_client d.bytes (IsPrefix-refl _ _ w);
        up_started = k.0;
        down_started = k.1;
      }

  pub writes_answer-OpOk :
      (text : Bytes) (b : Bool)
      → d.error ≡ b
      → complete env (writes_answer text) d (deliver (writes_answer text) d.bytes c.session)
        ≡ done r
      → IsCompletion (writes_answer text) d
      → (c.short || ltb d.count (length text)) ≡ false
      → c.to_client ≡ c.from_backend
      → c.to_backend ++ text ≡ c.from_client
      → OpOk c (writes_answer text) d r
  unfolding complete deliver echo_upstream_handshake
  writes_answer-OpOk text true e h v whole u w =
      let hands = rw (rw e at h) at (echo_failed-Hands env c.session) in
      let k =
        IsReport-ok (started r.1) c.to_client c.from_backend (c.to_backend ++ take d.count text)
          c.from_client r.0.handshake_size r.0.clt_buffer u hands.3 in
      record {
        up_prefix = IsPrefix-refl _ _ u;
        down_prefix = IsPrefix-take d.count c.to_backend text c.from_client w;
        up_started = k.0;
        down_started = k.1;
      }
  writes_answer-OpOk text false e h v whole u w =
      let all_of : d.count ≡ length text = ground arith in
      let sent : c.to_backend ++ take d.count text ≡ c.from_client =
        rw (all_of, take-length text) w in
      record {
        up_prefix = IsPrefix-refl _ _ u;
        down_prefix = IsPrefix-take d.count c.to_backend text c.from_client w;
        up_started = ground arith;
        down_started = ground arith;
      }
