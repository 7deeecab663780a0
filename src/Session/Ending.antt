-- ===== src/Session/Ending.antt =====
-- A session of src/SubversionSession.cc from the point where its connections fail.
use svnsrv.Base.{ℕ, suc, ◌+◌, ◌≤◌, ◌<◌, true, List, [], ◌∷◌, ◌++◌, ◌≡◌, arith, length, All}
use svnsrv.Base.Run.{done, crash}
use svnsrv.Base.Text.{Bytes}
use svnsrv.Session.{
  Env, Session, Op, writes_greeting, reads_answer, connects, reads_greeting, writes_answer,
  reads_upstream, reads_downstream, writes_downstream, writes_upstream, sends_error, Action,
  Handler,
}
use svnsrv.Session.Exclusive.{total, total-append, claims_buffer, claims_clt_buffer, Reach-Inv}
use svnsrv.Session.Handlers.{
  Hands, IsReport, read_failed-Hands, connect_failed-Hands, greeting_failed-Hands,
  echo_failed-Hands,
}
use svnsrv.Session.System.{
  Moment, env_at, Completion, deliver, complete, started, Config, advance, accepted, Reach,
}

-- Completions with an error, one after the other, from `c` on.
pub data Fails (env : Env) (c : Config) : ℕ → Config → Type 0 where
  none_yet : Fails env c 0 c
  fails :
      {n : ℕ} {c' : Config}
      → Fails env c n c'
      → (m : Moment) (xs ys : List Op) (op : Op) (d : Completion) (r : Session × List Action)
      → c'.pending ≡ xs ++ op ∷ ys
      → d.error ≡ true
      → complete (env_at env m) op d (deliver op d.bytes c'.session) ≡ done r
      → Fails env c (suc n) (advance c' xs ys op d r)

-- How many completions an operation is worth, if all fail: after some of them the client is told.
abbrev weight : Op → ℕ
weight (connects address port) = 2
weight reads_greeting = 2
weight (writes_answer text) = 2
weight _ = 1

abbrev Drops : ℕ → Handler → Type 0
Drops w (done r) = total weight (started r.1) < w
Drops w crash = Unit

reports_le-length : (ops : List Op) → All IsReport ops → total weight ops ≤ length ops
reports_le-length [] h = omega arith
reports_le-length (sends_error text ∷ ops) h = omega (arith, reports_le-length ops h.1)
reports_le-length (op ∷ ops) h = absurd h.0

Hands-Drops : (n : ℕ) (clt : Bytes) (m : Handler) → Hands IsReport n clt m → Drops 2 m
Hands-Drops n clt (done r) h = omega (arith, reports_le-length (started r.1) h.3, h.2)
Hands-Drops n clt crash h = tt

none_weigh : (ops : List Op) → All (λ op. ⊥) ops → total weight ops < 1
none_weigh [] h = omega arith
none_weigh (op ∷ ops) h = absurd h.0

nothing-Drops : (n : ℕ) (clt : Bytes) (m : Handler) → Hands (λ op. ⊥) n clt m → Drops 1 m
nothing-Drops n clt (done r) h = none_weigh (started r.1) h.3
nothing-Drops n clt crash h = tt

complete-Drops :
    (env : Env) (op : Op) (d : Completion) (s : Session)
    → d.error ≡ true
    → Drops (weight op) (complete env op d s)
unfolding complete
complete-Drops env (writes_greeting text) d s e = ground arith
complete-Drops env reads_answer d s e = rw e (nothing-Drops _ _ _ (read_failed-Hands env d.count s))
complete-Drops env (connects address port) d s e =
    rw e (Hands-Drops _ _ _ (connect_failed-Hands env s))
complete-Drops env reads_greeting d s e = rw e (Hands-Drops _ _ _ (greeting_failed-Hands env s))
complete-Drops env (writes_answer text) d s e = rw e (Hands-Drops _ _ _ (echo_failed-Hands env s))
complete-Drops env reads_upstream d s e = ground arith
complete-Drops env reads_downstream d s e = ground arith
complete-Drops env (writes_downstream text) d s e = ground arith
complete-Drops env (writes_upstream text) d s e = ground arith
complete-Drops env (sends_error text) d s e = ground arith

Fails-weight :
    {env : Env} {c c' : Config} {n : ℕ}
    → Fails env c n c'
    → n + total weight c'.pending ≤ total weight c.pending
Fails-weight none_yet = omega arith
Fails-weight {env} (fails {n} {c'} f m xs ys op d r p e h) =
    let k : Drops (weight op) (done r) =
      rw h at (complete-Drops (env_at env m) op d (deliver op d.bytes c'.session) e) in
    omega (
      arith,
      k,
      rw p at (Fails-weight f),
      total-append weight (started r.1) (xs ++ ys),
      total-append weight xs ys,
      total-append weight xs (op ∷ ys),
    )

weight-bounds :
    (ops : List Op)
    → (total weight ops ≤ total claims_buffer ops + total claims_clt_buffer ops)
      × (length ops ≤ total weight ops)
weight-bounds [] = omega arith
weight-bounds (writes_greeting text ∷ ops) = omega (arith, weight-bounds ops)
weight-bounds (reads_answer ∷ ops) = omega (arith, weight-bounds ops)
weight-bounds (connects address port ∷ ops) = omega (arith, weight-bounds ops)
weight-bounds (reads_greeting ∷ ops) = omega (arith, weight-bounds ops)
weight-bounds (writes_answer text ∷ ops) = omega (arith, weight-bounds ops)
weight-bounds (reads_upstream ∷ ops) = omega (arith, weight-bounds ops)
weight-bounds (reads_downstream ∷ ops) = omega (arith, weight-bounds ops)
weight-bounds (writes_downstream text ∷ ops) = omega (arith, weight-bounds ops)
weight-bounds (writes_upstream text ∷ ops) = omega (arith, weight-bounds ops)
weight-bounds (sends_error text ∷ ops) = omega (arith, weight-bounds ops)

-- From whatever state a session has reached, once all that completes completes with an error: the
-- completions that there were and the operations that still wait are two together at most. So after
-- at most two failures nothing waits, and nothing is started any more.
pub Reach-ends :
    {env : Env} {s : Session} {c c' : Config} {n : ℕ}
    → Reach env (accepted s) c
    → Fails env c n c'
    → n + length c'.pending ≤ 2
Reach-ends {c = c} {c'} r f =
    omega (arith, Reach-Inv r, weight-bounds c.pending, weight-bounds c'.pending, Fails-weight f)
