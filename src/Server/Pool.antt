-- ===== src/Server/Pool.antt =====
-- The acceptor of src/SubversionServer.cc with the sessions that it started. The handlers of one
-- session run one at a time, since each starts the next, or a strand holds them apart; the sessions
-- share the routing table, which is only read, and the logger, which locks.
use svnsrv.Base.{
  ℕ, suc, ◌≤◌, ◌<◌, Bool, true, false, List, [], ◌∷◌, ◌++◌, ◌≡◌, refl, length, length-append, All,
  All-append, arith,
}
use svnsrv.Base.Run.{done, Ensures}
use svnsrv.Session.{Env, Session}
use svnsrv.Session.System.{Config, started, accepted, next, here}
use svnsrv.Session.System
use svnsrv.Session.Exclusive.{total, uses_buffer, uses_clt_buffer, Reach-exclusive}
use svnsrv.Session.Relay.{Reach-relay}
use svnsrv.Session.Streams.{IsPrefix}
use svnsrv.Server.{ServerAction, accepts, runs, handle_accept}

-- The sessions that the acceptor runs, with what they start.
abbrev pub opened : Session → List ServerAction → List Config
opened s [] = []
opened s (accepts k ∷ acts) = opened s acts
opened s (runs k started_by ∷ acts) =
    record (accepted s) { pending = started started_by } ∷ opened s acts

-- The connection that waits for a client, and the sessions.
pub record Service : Type 0 where
  pub connection : ℕ
  pub sessions : List Config

-- A connection arrives or fails, or an operation of a session completes.
pub data Step (env : Env) (sv : Service) : Service → Type 0 where
  arrives :
      (s : Session) (error : Bool) (r : ℕ × List ServerAction)
      → handle_accept s error true sv.connection ≡ done r
      → Step env sv (record { connection = r.0; sessions = sv.sessions ++ opened s r.1 })
  proceeds :
      (xs ys : List Config) (c c' : Config)
      → sv.sessions ≡ xs ++ c ∷ ys
      → System.Step env c c'
      → Step env sv (record sv { sessions = xs ++ c' ∷ ys })

-- The acceptor as the constructor leaves it.
abbrev pub constructed : Service
constructed = record { connection = 1; sessions = [] }

pub data Reach (env : Env) : Service → Type 0 where
  begins : Reach env constructed
  later : {sv sv' : Service} → Reach env sv → Step env sv sv' → Reach env sv'

-- A session on its own has come this far.
abbrev Alone : Env → Config → Type 0
Alone env c = (s : Session) × System.Reach env (accepted s) c

record Inv (env : Env) (sv : Service) : Type 0 where
  alone : All (Alone env) sv.sessions
  fewer : length sv.sessions < sv.connection

-- What a completion of the acceptor adds to the service.
abbrev Adds : Env → Session → ℕ → ℕ × List ServerAction → Type 0
Adds env s k r = All (Alone env) (opened s r.1) × (length (opened s r.1) ≤ 1) × (r.0 ≡ suc k)

handle_accept-Adds :
    (env : Env) (s : Session) (error : Bool) (k : ℕ)
    → Ensures (Adds env s k) (handle_accept s error true k)
unfolding handle_accept
handle_accept-Adds env s true k = (tt, omega arith, refl)
handle_accept-Adds env s false k = (((s, System.here), tt), omega arith, refl)

All-replace {ℓ κ} :
    {A : Type ℓ} (P : A → Type κ) (xs : List A) (x y : A) (ys : List A)
    → All P (xs ++ x ∷ ys)
    → (P x → P y)
    → All P (xs ++ y ∷ ys)
All-replace P [] x y ys h f = (f h.0, h.1)
All-replace P (z ∷ xs) x y ys h f = (h.0, All-replace P xs x y ys h.1 f)

All-middle {ℓ κ} :
    {A : Type ℓ} (P : A → Type κ) (xs : List A) (x : A) (ys : List A) → All P (xs ++ x ∷ ys) → P x
All-middle P [] x ys h = h.0
All-middle P (z ∷ xs) x ys h = All-middle P xs x ys h.1

Step-Inv : {env : Env} {sv sv' : Service} → Step env sv sv' → Inv env sv → Inv env sv'
Step-Inv {env} {sv} (arrives s error r e) i =
    let a : Adds env s sv.connection r = rw e at (handle_accept-Adds env s error sv.connection) in
    record {
      alone = All-append (Alone env) sv.sessions (opened s r.1) i.alone a.0;
      fewer = omega (arith, i.fewer, a.1, a.2, length-append sv.sessions (opened s r.1));
    }
Step-Inv {env} {sv} (proceeds xs ys c c' e st) i = record {
  alone = All-replace (Alone env) xs c c' ys (rw e at i.alone) λ a. (a.0, System.next a.1 st);
  fewer = omega (arith, rw e at i.fewer, length-append xs (c ∷ ys), length-append xs (c' ∷ ys));
}

Reach-Inv : {env : Env} {sv : Service} → Reach env sv → Inv env sv
Reach-Inv begins = record { alone = tt; fewer = omega arith }
Reach-Inv (later r st) = Step-Inv st (Reach-Inv r)

-- While every accepted socket takes the option that its session sets: however connections arrive and
-- fail, and in whatever order the operations of all sessions complete on the threads of the pool,
-- there are fewer sessions than the connections that were waited for; and each session whose
-- answer was not written short relays the bytes of its own two connections, in order and without
-- a loss or another's bytes in between, with at most one operation at a time on each buffer.
pub Reach-each_session :
    {env : Env} {sv : Service} (xs ys : List Config) (c : Config)
    → Reach env sv
    → sv.sessions ≡ xs ++ c ∷ ys
    → c.short ≡ false
    → (length sv.sessions < sv.connection)
      × IsPrefix c.to_client c.from_backend
      × IsPrefix c.to_backend c.from_client
      × (total uses_buffer c.pending ≤ 1)
      × (total uses_clt_buffer c.pending ≤ 1)
Reach-each_session {env} xs ys c r e n =
    let i = Reach-Inv r in
    let a : Alone env c = All-middle (Alone env) xs c ys (rw e at i.alone) in
    let p = Reach-relay a.1 n in let q = Reach-exclusive a.1 in (i.fewer, p.0, p.1, q.0, q.1)
