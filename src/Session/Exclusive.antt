-- ===== src/Session/Exclusive.antt =====
-- The use of the two buffers of a session of src/SubversionSession.cc by the operations that wait.
use svnsrv.Base.{ℕ, ◌+◌, ◌≤◌, Bool, true, false, List, [], ◌∷◌, ◌++◌, ◌≡◌, arith, length}
use svnsrv.Base.Run.{done, crash}
use svnsrv.Base.Text.{Bytes}
use svnsrv.Session.{
  Env, Session, Op, writes_greeting, reads_answer, connects, reads_greeting, writes_answer,
  reads_upstream, reads_downstream, writes_downstream, writes_upstream, sends_error, Handler,
  read_downstream_handshake, echo_upstream_handshake,
}
use svnsrv.Session.Handlers.{
  Hands, read_downstream_handshake-Hands, read_failed-Hands, async_connect_upstream-Hands,
  read_upstream_handshake-Hands, echo_failed-Hands,
}
use svnsrv.Session.System.{
  Completion, deliver, complete, started, Config, Step, env_at, completes, accepted, Reach, here,
  next,
}

-- 1 for the operations that read or write `buffer_`, and `clt_buffer_`.
abbrev pub uses_buffer : Op → ℕ
uses_buffer reads_greeting = 1
uses_buffer reads_upstream = 1
uses_buffer (writes_downstream text) = 1
uses_buffer (sends_error text) = 1
uses_buffer _ = 0

abbrev pub uses_clt_buffer : Op → ℕ
uses_clt_buffer reads_answer = 1
uses_clt_buffer (writes_answer text) = 1
uses_clt_buffer reads_downstream = 1
uses_clt_buffer (writes_upstream text) = 1
uses_clt_buffer _ = 0

abbrev pub total : (Op → ℕ) → List Op → ℕ
total f [] = 0
total f (op ∷ ops) = f op + total f ops

-- The claim of an operation on the buffers: all but those of the relay claim both.
abbrev pub claims_buffer : Op → ℕ
claims_buffer reads_downstream = 0
claims_buffer (writes_upstream text) = 0
claims_buffer _ = 1

abbrev pub claims_clt_buffer : Op → ℕ
claims_clt_buffer reads_upstream = 0
claims_clt_buffer (writes_downstream text) = 0
claims_clt_buffer _ = 1

-- What a handler starts claims no more than the operation that it completes.
abbrev Keeps : ℕ → ℕ → Handler → Type 0
Keeps b l (done r) =
    (total claims_buffer (started r.1) ≤ b) × (total claims_clt_buffer (started r.1) ≤ l)
Keeps b l crash = Unit

claim_le-one : (op : Op) → (claims_buffer op ≤ 1) × (claims_clt_buffer op ≤ 1)
claim_le-one reads_upstream = omega arith
claim_le-one reads_downstream = omega arith
claim_le-one (writes_upstream text) = omega arith
claim_le-one (writes_downstream text) = omega arith
claim_le-one _ = omega arith

claims_le-length :
    (ops : List Op)
    → (total claims_buffer ops ≤ length ops) × (total claims_clt_buffer ops ≤ length ops)
claims_le-length [] = omega arith
claims_le-length (op ∷ ops) = omega (arith, claim_le-one op, claims_le-length ops)

Hands-Keeps : (P : Op → Type 0) (n : ℕ) (clt : Bytes) (m : Handler) → Hands P n clt m → Keeps 1 1 m
Hands-Keeps P n clt (done r) h = omega (arith, claims_le-length (started r.1), h.2)
Hands-Keeps P n clt crash h = tt

reads_answer-Keeps :
    (env : Env) (error : Bool) (n : ℕ) (s : Session)
    → Keeps 1 1 (read_downstream_handshake env error n s)
reads_answer-Keeps env true n s = Hands-Keeps _ _ _ _ (read_failed-Hands env n s)
reads_answer-Keeps env false n s = Hands-Keeps _ _ _ _ (read_downstream_handshake-Hands env n s)

writes_answer-Keeps :
    (env : Env) (error : Bool) (s : Session) → Keeps 1 1 (echo_upstream_handshake env error s)
writes_answer-Keeps env true s = Hands-Keeps _ _ _ _ (echo_failed-Hands env s)
writes_answer-Keeps env false s = unfold echo_upstream_handshake in omega arith

complete-Keeps :
    (env : Env) (op : Op) (d : Completion) (s : Session)
    → Keeps (claims_buffer op) (claims_clt_buffer op) (complete env op d s)
unfolding complete
complete-Keeps env (writes_greeting text) d s = ground arith
complete-Keeps env reads_answer d s = reads_answer-Keeps env d.error d.count s
complete-Keeps env (connects address port) d s =
    Hands-Keeps _ _ _ _ (async_connect_upstream-Hands env d.error s)
complete-Keeps env reads_greeting d s =
    Hands-Keeps _ _ _ _ (read_upstream_handshake-Hands env d.error s)
complete-Keeps env (writes_answer text) d s = writes_answer-Keeps env d.error s
complete-Keeps env reads_upstream d s = ground arith
complete-Keeps env reads_downstream d s = ground arith
complete-Keeps env (writes_downstream text) d s = ground arith
complete-Keeps env (writes_upstream text) d s = ground arith
complete-Keeps env (sends_error text) d s = ground arith

pub total-append : (f : Op → ℕ) (xs ys : List Op) → total f (xs ++ ys) ≡ total f xs + total f ys
total-append f [] ys = omega arith
total-append f (x ∷ xs) ys = omega (arith, total-append f xs ys)

pub record Inv (c : Config) : Type 0 where
  pub buffer_claims : total claims_buffer c.pending ≤ 1
  pub clt_claims : total claims_clt_buffer c.pending ≤ 1

Step-Inv : {env : Env} {c c' : Config} → Step env c c' → Inv c → Inv c'
Step-Inv {env} {c} (completes m xs ys op d r e v h) i =
    let k : Keeps (claims_buffer op) (claims_clt_buffer op) (done r) =
      rw h at (complete-Keeps (env_at env m) op d (deliver op d.bytes c.session)) in
    record {
      buffer_claims = omega (
        arith,
        k.0,
        rw e at i.buffer_claims,
        total-append claims_buffer (started r.1) (xs ++ ys),
        total-append claims_buffer xs ys,
        total-append claims_buffer xs (op ∷ ys),
      );
      clt_claims = omega (
        arith,
        k.1,
        rw e at i.clt_claims,
        total-append claims_clt_buffer (started r.1) (xs ++ ys),
        total-append claims_clt_buffer xs ys,
        total-append claims_clt_buffer xs (op ∷ ys),
      );
    }

pub Reach-Inv : {env : Env} {s : Session} {c : Config} → Reach env (accepted s) c → Inv c
Reach-Inv here = omega arith
Reach-Inv (next r st) = Step-Inv st (Reach-Inv r)

uses_le-claims :
    (op : Op) → (uses_buffer op ≤ claims_buffer op) × (uses_clt_buffer op ≤ claims_clt_buffer op)
uses_le-claims reads_upstream = omega arith
uses_le-claims reads_downstream = omega arith
uses_le-claims (writes_upstream text) = omega arith
uses_le-claims (writes_downstream text) = omega arith
uses_le-claims _ = omega arith

uses-claims :
    (ops : List Op)
    → (total uses_buffer ops ≤ total claims_buffer ops)
      × (total uses_clt_buffer ops ≤ total claims_clt_buffer ops)
uses-claims [] = omega arith
uses-claims (op ∷ ops) = omega (arith, uses_le-claims op, uses-claims ops)

-- Whatever completes in whatever order, with data or with errors: of the operations that wait at
-- most one reads or writes `buffer_`, and at most one `clt_buffer_`.
pub Reach-exclusive :
    {env : Env} {s : Session} {c : Config}
    → Reach env (accepted s) c
    → (total uses_buffer c.pending ≤ 1) × (total uses_clt_buffer c.pending ≤ 1)
Reach-exclusive {c = c} r = omega (arith, uses-claims c.pending, Reach-Inv r)
