-- ===== src/Session/Relay.antt =====
-- The relay of src/SubversionSession.cc: what one side receives of what the other side sends.
use svnsrv.Base.{ℕ, ◌+◌, ◌≤◌, false, List, [], ◌∷◌, ◌++◌, ◌≡◌, refl, All, All-append, arith}
use svnsrv.Base.Run.{done}
use svnsrv.Base.Text.{Bytes}
use svnsrv.Session.{
  Env, Session, Op, writes_greeting, reads_answer, connects, reads_greeting, writes_answer,
  reads_upstream, reads_downstream, writes_downstream, writes_upstream, sends_error, Action,
}
use svnsrv.Session.Exclusive.{total, claims_buffer, claims_clt_buffer, total-append, Inv, Reach-Inv}
use svnsrv.Session.Streams.{IsPrefix, UpOk, DownOk, OpOk, Streams}
use svnsrv.Session.Passing.{
  writes_greeting-OpOk, reads_upstream-OpOk, writes_downstream-OpOk, reads_downstream-OpOk,
  writes_upstream-OpOk, sends_error-OpOk, connects-OpOk, reads_greeting-OpOk, reads_answer-OpOk,
  writes_answer-OpOk,
}
use svnsrv.Session.System.{
  Completion, IsCompletion, deliver, complete, started, Config, record_op, Step, env_at, completes,
  accepted, Reach, here, next,
}

All-remove {ℓ κ} :
    {A : Type ℓ} (P : A → Type κ) (xs : List A) (x : A) (ys : List A)
    → All P (xs ++ x ∷ ys)
    → P x × All P (xs ++ ys)
All-remove P [] x ys h = h
All-remove P (y ∷ xs) x ys h = let k = All-remove P xs x ys h.1 in (k.0, (h.0, k.1))

-- Operations with no claim on `buffer_` know nothing of the client's bytes.
unclaimed-UpOk :
    (ops : List Op) (tc fb : Bytes) → total claims_buffer ops ≤ 0 → All (UpOk tc fb) ops
unclaimed-UpOk [] tc fb h = tt
unclaimed-UpOk (reads_downstream ∷ ops) tc fb h = (tt, unclaimed-UpOk ops tc fb (omega arith))
unclaimed-UpOk (writes_upstream text ∷ ops) tc fb h = (tt, unclaimed-UpOk ops tc fb (omega arith))
unclaimed-UpOk (op ∷ ops) tc fb h = absurd (omega arith)

unclaimed-DownOk :
    (ops : List Op) (tb fc : Bytes) (n : ℕ) (clt : Bytes)
    → total claims_clt_buffer ops ≤ 0
    → All (DownOk tb fc n clt) ops
unclaimed-DownOk [] tb fc n clt h = tt
unclaimed-DownOk (reads_upstream ∷ ops) tb fc n clt h =
    (tt, unclaimed-DownOk ops tb fc n clt (omega arith))
unclaimed-DownOk (writes_downstream text ∷ ops) tb fc n clt h =
    (tt, unclaimed-DownOk ops tb fc n clt (omega arith))
unclaimed-DownOk (op ∷ ops) tb fc n clt h = absurd (omega arith)

module _ (c : Config) (d : Completion) (ops : List Op) where
  rest-UpOk :
      (op : Op)
      → claims_buffer op + total claims_buffer ops ≤ 1
      → All (UpOk c.to_client c.from_backend) ops
      → All (UpOk (record_op op d c).to_client (record_op op d c).from_backend) ops
  rest-UpOk reads_downstream h k = k
  rest-UpOk (writes_upstream text) h k = k
  rest-UpOk op h k = unclaimed-UpOk ops _ _ (omega arith)

  rest-DownOk :
      (env : Env) (op : Op) (r : Session × List Action)
      → complete env op d (deliver op d.bytes c.session) ≡ done r
      → claims_clt_buffer op + total claims_clt_buffer ops ≤ 1
      → All (DownOk c.to_backend c.from_client c.session.handshake_size c.session.clt_buffer) ops
      → All
          (DownOk
            (record_op op d c).to_backend
            (record_op op d c).from_client
            r.0.handshake_size
            r.0.clt_buffer)
          ops
  unfolding complete deliver
  rest-DownOk env reads_upstream r e h k =
      let same : (r.0.handshake_size ≡ c.session.handshake_size)
          × (r.0.clt_buffer ≡ c.session.clt_buffer) =
        (ground arith, ground arith) in
      rw (same.0, same.1) k
  rest-DownOk env (writes_downstream text) r e h k =
      let same : (r.0.handshake_size ≡ c.session.handshake_size)
          × (r.0.clt_buffer ≡ c.session.clt_buffer) =
        (ground arith, ground arith) in
      rw (same.0, same.1) k
  rest-DownOk env op r e h k = unclaimed-DownOk ops _ _ _ _ (omega arith)

op-OpOk :
    (env : Env) (c : Config) (op : Op) (d : Completion) (r : Session × List Action)
    → complete env op d (deliver op d.bytes c.session) ≡ done r
    → IsCompletion op d
    → (record_op op d c).short ≡ false
    → IsPrefix c.to_client c.from_backend
    → IsPrefix c.to_backend c.from_client
    → UpOk c.to_client c.from_backend op
    → DownOk c.to_backend c.from_client c.session.handshake_size c.session.clt_buffer op
    → OpOk c op d r
op-OpOk env c (writes_greeting text) d r h v n p q u w = writes_greeting-OpOk env c d r text h u w
op-OpOk env c reads_answer d r h v n p q u w = reads_answer-OpOk env c d r d.error refl h v u w
op-OpOk env c (connects address port) d r h v n p q u w = connects-OpOk env c d r address port h u w
op-OpOk env c reads_greeting d r h v n p q u w = reads_greeting-OpOk env c d r h u w
op-OpOk env c (writes_answer text) d r h v n p q u w =
    writes_answer-OpOk env c d r text d.error refl h v n u w
op-OpOk env c reads_upstream d r h v n p q u w = reads_upstream-OpOk env c d r h v u q
op-OpOk env c reads_downstream d r h v n p q u w = reads_downstream-OpOk env c d r h v p w
op-OpOk env c (writes_downstream text) d r h v n p q u w =
    writes_downstream-OpOk env c d r text h v u q
op-OpOk env c (writes_upstream text) d r h v n p q u w = writes_upstream-OpOk env c d r text h v p w
op-OpOk env c (sends_error text) d r h v n p q u w = sends_error-OpOk env c d r text h p q

Step-Streams :
    {env : Env} {c c' : Config} → Step env c c' → c'.short ≡ false → Inv c → Streams c → Streams c'
Step-Streams {env} {c} (completes m xs ys op d r e v h) n i s =
    let up = All-remove (UpOk c.to_client c.from_backend) xs op ys (rw e at s.up_ok) in
    let down =
      All-remove (DownOk c.to_backend c.from_client c.session.handshake_size c.session.clt_buffer)
        xs op ys (rw e at s.down_ok) in
    let ok = op-OpOk (env_at env m) c op d r h v n s.up_prefix s.down_prefix up.0 down.0 in
    record {
      up_prefix = ok.up_prefix;
      down_prefix = ok.down_prefix;
      up_ok = All-append _ (started r.1) (xs ++ ys) ok.up_started (
          rest-UpOk c d (xs ++ ys) op
            (omega (
              arith,
              rw e at i.buffer_claims,
              total-append claims_buffer xs ys,
              total-append claims_buffer xs (op ∷ ys),
            ))
            up.1);
      down_ok = All-append _ (started r.1) (xs ++ ys) ok.down_started (
          rest-DownOk c d (xs ++ ys) (env_at env m) op r h
            (omega (
              arith,
              rw e at i.clt_claims,
              total-append claims_clt_buffer xs ys,
              total-append claims_clt_buffer xs (op ∷ ys),
            ))
            down.1);
    }

-- A short write of the answer is not forgotten.
Step-short : {env : Env} {c c' : Config} → Step env c c' → c'.short ≡ false → c.short ≡ false
Step-short {env} {c} (completes m xs ys (writes_answer text) d r e v h) n = ground arith
Step-short (completes m xs ys op d r e v h) n = n

Reach-Streams :
    {env : Env} {s : Session} {c : Config} → Reach env (accepted s) c → c.short ≡ false → Streams c
Reach-Streams here n = record {
  up_prefix = ([], refl);
  down_prefix = ([], refl);
  up_ok = (refl, tt);
  down_ok = (refl, tt);
}
Reach-Streams (next r st) n = Step-Streams st n (Reach-Inv r) (Reach-Streams r (Step-short st n))

-- Unless a part only of the client's answer went to the storage machine: whatever completes in
-- whatever order, with data or with errors, the bytes that reached the storage machine begin what
-- the client sent, and the bytes that reached the client behind the greeting and the reports of
-- failures begin what the storage machine sent behind its greeting. None is lost in between, none
-- doubled, none out of order. While the session waits for bytes of one side, all that this side has
-- sent has reached the other; while it writes, all but the text that it writes.
pub Reach-relay :
    {env : Env} {s : Session} {c : Config}
    → Reach env (accepted s) c
    → c.short ≡ false
    → IsPrefix c.to_client c.from_backend
      × IsPrefix c.to_backend c.from_client
      × All (UpOk c.to_client c.from_backend) c.pending
      × All
          (DownOk c.to_backend c.from_client c.session.handshake_size c.session.clt_buffer)
          c.pending
Reach-relay r n = let s = Reach-Streams r n in (s.up_prefix, s.down_prefix, s.up_ok, s.down_ok)
