-- ===== src/Server/Entry.antt =====
-- `SubversionServerInitialize` of src/SubversionServer.cc as a whole.
use svnsrv.Base.{
  ℕ, zero, suc, ◌+◌, ◌<◌, Bool, true, false, List, [], ◌∷◌, ◌++◌, ◌≡◌, ◌≢◌, refl, ap, ◌∙◌, ◌==◌,
  length, All, append-nil, arith,
}
use svnsrv.Base.Run.{Run, done, crash, ◌>>=◌, Ensures, bind-Ensures, bind_crash}
use svnsrv.Base.Text.{Bytes, codes}
use svnsrv.Klog.Lines.{line_of-short}
use svnsrv.Profile.{NetworkServerArgs}
use svnsrv.Session.{Session}
use svnsrv.Server.{
  Listener, ServerAction, start_accept, construct, serve, Life, logs, handles, spawns,
  listener_line, repeated, run, subversion_server,
}
use svnsrv.Server.Accepts.{
  accepted_by, run_by, from_to, connected, Survives, Kills, Served, serve-accepts,
}

-- What the life of a server shows: the connections that wait for a client, those whose session was
-- started, and the number of threads.
abbrev pub waited_for : List Life → List ℕ
waited_for [] = []
waited_for (handles acts ∷ ls) = accepted_by acts ++ waited_for ls
waited_for (_ ∷ ls) = waited_for ls

abbrev pub begun : List Life → List ℕ
begun [] = []
begun (handles acts ∷ ls) = run_by acts ++ begun ls
begun (_ ∷ ls) = begun ls

abbrev pub threads : List Life → ℕ
threads [] = 0
threads (spawns ∷ ls) = suc (threads ls)
threads (_ ∷ ls) = threads ls

-- Every call of the acceptor's succeeds.
abbrev pub Listens : Listener → NetworkServerArgs → Type 0
Listens os args =
    (os.valid_address args.address ≡ true)
    × (os.opens ≡ true)
    × (os.reuses_address ≡ true)
    × (os.binds args.address args.port ≡ true)
    × (os.listens ≡ true)

repeated-spawns :
    (n : ℕ) (ls : List Life)
    → (waited_for (repeated n spawns ++ ls) ≡ waited_for ls)
      × (begun (repeated n spawns ++ ls) ≡ begun ls)
      × (threads (repeated n spawns ++ ls) ≡ n + threads ls)
repeated-spawns zero ls = (refl, refl, omega arith)
repeated-spawns (suc n) ls = let h = repeated-spawns n ls in (h.0, h.1, omega (arith, h.2))

construct-Listens :
    (os : Listener) (args : NetworkServerArgs)
    → args.pool_size ≢ 0
    → Listens os args
    → construct os args ≡ done (start_accept 0)
unfolding construct
construct-Listens os args nz l =
    let some_threads : (args.pool_size == 0) ≡ false = ground arith in
    rw (some_threads, l.0, l.1, l.2, l.3, l.4) refl

construct-empty :
    (os : Listener) (args : NetworkServerArgs) → args.pool_size ≡ 0 → construct os args ≡ crash
unfolding construct
construct-empty os args e = rw e refl

-- What a server has done after the completions `es`.
pub record Serves (args : NetworkServerArgs) (es : List (Bool × Bool)) (q : ℕ × List Life)
    : Type 0 where
  pub connection : q.0 ≡ 1 + length es
  pub waited : waited_for q.1 ≡ 1 ∷ from_to 1 es
  pub sessions : begun q.1 ≡ connected 1 es
  pub spawned : threads q.1 ≡ args.pool_size

Serves-run :
    (args : NetworkServerArgs) (es : List (Bool × Bool)) (first second : Bytes)
    (q : ℕ × List ServerAction)
    → Served 1 es q
    → Serves args es (q.0, logs first ∷ handles (start_accept 0).1 ∷ logs second ∷ run args q.1)
unfolding run start_accept
Serves-run args es first second q v =
    let h = repeated-spawns args.pool_size (handles q.1 ∷ []) in
    record {
      connection = v.0;
      waited = ap (◌∷◌ 1) (h.0 ∙ (append-nil (accepted_by q.1) ∙ v.1));
      sessions = h.1 ∙ (append-nil (run_by q.1) ∙ v.2);
      spawned = omega (arith, h.2);
    }

module _ (os : Listener) (args : NetworkServerArgs) (stamp : Bytes) (s : Session) where
  -- The two lines of the log fit the logger's buffer.
  abbrev pub Logs : Type 0
  Logs =
      (length stamp + length (codes "svnsrv running") < 4095)
      × (length stamp + length (listener_line args) < 4095)

  abbrev done_by : ℕ × List ServerAction → Run (ℕ × List Life)
  done_by q = done (
    q.0,
    logs (stamp ++ codes "svnsrv running" ++ b'\n' ∷ [])
        ∷ handles (start_accept 0).1
        ∷ logs (stamp ++ listener_line args ++ b'\n' ∷ [])
        ∷ run args q.1,
  )

  subversion_server-ready :
      (es : List (Bool × Bool))
      → args.pool_size ≢ 0
      → Listens os args
      → Logs
      → subversion_server os args stamp s es ≡ (serve s es 1 >>= done_by)
  unfolding subversion_server start_accept
  subversion_server-ready es nz l fit =
      rw
        (
          line_of-short stamp (codes "svnsrv running") fit.0,
          construct-Listens os args nz l,
          line_of-short stamp (listener_line args) fit.1,
        )
        refl

  -- The entry point, where the acceptor's calls succeed, there is a thread, and the lines of the log
  -- fit. While every accepted socket takes its option: after n completions, with errors or without,
  -- the server waits with the connection n + 1, having waited with each before it, the sessions of
  -- just the connections that came without an error were started, in their order, and as many threads
  -- run as the settings say. The first accepted socket that refuses its option ends the server,
  -- whatever follows; and without any thread in the settings it ends before it accepts.
  pub subversion_server-Serves :
      (es : List (Bool × Bool)) (e : Bool × Bool) (rest : List (Bool × Bool))
      (args' : NetworkServerArgs)
      → args.pool_size ≢ 0
      → Listens os args
      → Logs
      → All Survives es
      → Kills e
      → args'.pool_size ≡ 0
      → Ensures (Serves args es) (subversion_server os args stamp s es)
        × (subversion_server os args stamp s (es ++ e ∷ rest) ≡ crash)
        × (subversion_server os args' stamp s es ≡ crash)
  unfolding subversion_server
  subversion_server-Serves es e rest args' nz l fit h kill none_left =
      let r = serve-accepts s es e rest 1 h kill in
      (
        rw (subversion_server-ready es nz l fit) (
            bind-Ensures (Served 1 es) (Serves args es) (serve s es 1) done_by r.0 (
              Serves-run args es (stamp ++ codes "svnsrv running" ++ b'\n' ∷ [])
                (stamp ++ listener_line args ++ b'\n' ∷ []))),
        rw (subversion_server-ready (es ++ e ∷ rest) nz l fit)
            (bind_crash (serve s (es ++ e ∷ rest) 1) done_by r.1),
        rw (line_of-short stamp (codes "svnsrv running") fit.0, construct-empty os args' none_left)
            refl,
      )
