-- ===== src/Main/Start.antt =====
-- src/main.cc: what has come before the server runs.
use svnsrv.Base.{
  ℕ, zero, suc, Bool, true, false, not, List, [], ◌∷◌, ◌++◌, Option, none, some, ◌≡◌, sym, ap, ◌∙◌,
  ◌⊎◌, inl, inr, refl, if◌then◌else◌, arith,
}
use svnsrv.Base.Int.{pos, negsuc}
use svnsrv.Base.Run.{done, ◌>>=◌, Whenever, bind-Whenever, Whenever-if}
use svnsrv.Base.Text.{Bytes, codes}
use svnsrv.Url.{equal}
use svnsrv.Toml.{Toml}
use svnsrv.Profile.{NetworkServerArgs, LauncherArgs, parse_service_profile}
use svnsrv.Router.{RouterSeletor, initialize_router_seletor}
use svnsrv.Daemon.Launch.{Launch, Outcome, returns, exits, daemonize}
use svnsrv.Daemon.Restart.{Restarted, returned, executes, exited, daemon_stop, daemon_restart}
use svnsrv.Main.{
  Options, no_options, parse_options, saved_argv, World, End, exits_with, becomes, serves, Action,
  print_version, commands, prints, logs, handles_usr1, handles_int, require_exit,
  kill_process_failed, argument_error, after_restart, process_signal_args, wait_returns, says,
  logged, complained, unrouted, after_daemonize, start_service, serve_or_signal, with_router,
  new_selector, load_router, run_options, main,
}

-- The process may serve: in the foreground, or as what `Daemonize` has made of it, unless it is a
-- master.
abbrev pub MayServe : World → Options → LauncherArgs → Type 0
MayServe w o la =
    (o.daemon ≡ false)
    ⊎ ((o.daemon ≡ true)
        × ((daemonize w.scan w.calls w.host la.pid_file).outcome ≡ returns (pos 0))
        × (wait_returns la.crash_restart w.is_worker ≡ true))

-- What holds of the settings and the router of a process that serves.
abbrev pub WhenServes : (NetworkServerArgs → RouterSeletor → Type 0) → End × List Action → Type 0
WhenServes P (exits_with code, acts) = Unit
WhenServes P (becomes path argv, acts) = Unit
WhenServes P (serves na router h, acts) = P na router

WhenServes-actions :
    (P : NetworkServerArgs → RouterSeletor → Type 0) (e : End) (acts acts' : List Action)
    → WhenServes P (e, acts)
    → WhenServes P (e, acts')
WhenServes-actions P (exits_with code) acts acts' h = h
WhenServes-actions P (becomes path argv) acts acts' h = h
WhenServes-actions P (serves na router h') acts acts' h = h

WhenServes-if :
    (P : NetworkServerArgs → RouterSeletor → Type 0) (b : Bool) (x y : End × List Action)
    → (b ≡ true → WhenServes P x)
    → (b ≡ false → WhenServes P y)
    → WhenServes P (if b then x else y)
WhenServes-if P true x y p q = p refl
WhenServes-if P false x y p q = q refl

WhenServes-mono :
    (P Q : NetworkServerArgs → RouterSeletor → Type 0) (e : End × List Action)
    → WhenServes P e
    → ((na : NetworkServerArgs) (router : RouterSeletor) → P na router → Q na router)
    → WhenServes Q e
WhenServes-mono P Q (exits_with code, acts) h k = tt
WhenServes-mono P Q (becomes path argv, acts) h k = tt
WhenServes-mono P Q (serves na router h', acts) h k = k na router h

after_restart-WhenServes :
    (P : NetworkServerArgs → RouterSeletor → Type 0) (r : Restarted) (acts : List Action)
    → WhenServes P (after_restart r, acts)
unfolding after_restart
after_restart-WhenServes P (returned ok) acts = tt
after_restart-WhenServes P (executes path argv) acts = tt
after_restart-WhenServes P (exited code) acts = tt

process_signal_args-WhenServes :
    (P : NetworkServerArgs → RouterSeletor → Type 0) (w : World) (signame : Bytes)
    (la : LauncherArgs)
    → WhenServes P (process_signal_args w signame la)
unfolding process_signal_args
process_signal_args-WhenServes P w signame la =
    let st = daemon_stop w.scan w.host w.killed la.pid_file in
    let stopped : End × List Action =
      (exits_with (if st.0 then require_exit else kill_process_failed), commands st.1 ∷ []) in
    let r = daemon_restart w.scan w.host w.later w.proc w.restart_fork w.exec_error la.pid_file in
    let again : End × List Action = (after_restart r.0, commands r.1 ∷ []) in
    let refused : End × List Action = (
      exits_with argument_error,
      prints (codes "Unsupported signal: " ++ (signame ++ b'\n' ∷ [])) ∷ [],
    ) in
    WhenServes-if P (equal signame (codes "stop")) stopped
      (if equal signame (codes "restart") then again else refused) (λ e. tt)
      λ e.
        WhenServes-if P (equal signame (codes "restart")) again refused
          (λ e'. after_restart-WhenServes P r.0 (commands r.1 ∷ [])) (λ e'. tt)

after_daemonize-WhenServes :
    (w : World) (o : Options) (na : NetworkServerArgs) (la : LauncherArgs) (router : RouterSeletor)
    (l : Launch) (out : Outcome)
    → (out ≡ returns (pos 0) → wait_returns la.crash_restart w.is_worker ≡ true → MayServe w o la)
    → WhenServes
        (λ na' router'. (na' ≡ na) × (router' ≡ router) × MayServe w o la)
        (after_daemonize w na la router l out)
unfolding after_daemonize
after_daemonize-WhenServes w o na la router l (exits code) k = tt
after_daemonize-WhenServes w o na la router l (returns (pos zero)) k =
    let said = says (codes "svnsrv run as daemon success,pid: ") l.host in
    WhenServes-if (λ na' router'. (na' ≡ na) × (router' ≡ router) × MayServe w o la)
      (not (wait_returns la.crash_restart w.is_worker))
      (exits_with (negsuc 0), said ++ logs (codes "cannot create watcher process !") ∷ [])
      (serves na router l.host, said) (λ e. tt) λ e. (refl, refl, k refl (ground arith))
after_daemonize-WhenServes w o na la router l (returns (pos (suc n))) k = tt
after_daemonize-WhenServes w o na la router l (returns (negsuc n)) k = tt

start_service-WhenServes :
    (w : World) (o : Options) (na : NetworkServerArgs) (la : LauncherArgs) (router : RouterSeletor)
    → WhenServes
        (λ na' router'. (na' ≡ na) × (router' ≡ router) × MayServe w o la)
        (start_service w o na la router)
unfolding start_service
start_service-WhenServes w o na la router =
    let l = daemonize w.scan w.calls w.host la.pid_file in
    let r = after_daemonize w na la router l l.outcome in
    let P : NetworkServerArgs → RouterSeletor → Type 0 =
      λ na' router'. (na' ≡ na) × (router' ≡ router) × MayServe w o la in
    let acts = handles_usr1 ∷ (complained l.errors ++ (logged l.log ++ r.1)) in
    WhenServes-if P o.daemon (r.0, acts) (serves na router w.host, handles_int ∷ [])
      (λ e.
        WhenServes-actions P r.0 r.1 acts (
          after_daemonize-WhenServes w o na la router l l.outcome (λ ok waits. inr (e, ok, waits))))
      (λ e. (refl, refl, inl e))

with_router-WhenServes :
    (w : World) (o : Options) (na : NetworkServerArgs) (la : LauncherArgs) (router : RouterSeletor)
    (asked : Option Bytes)
    → WhenServes
        (λ na' router'. (na' ≡ na) × (router' ≡ router) × (asked ≡ none) × MayServe w o la)
        (serve_or_signal w o na la router asked)
unfolding serve_or_signal
with_router-WhenServes w o na la router none =
    WhenServes-mono _ _ (start_service w o na la router) (start_service-WhenServes w o na la router)
      (λ na' router' h. (h.0, h.1, refl, h.2))
with_router-WhenServes w o na la router (some signame) =
    process_signal_args-WhenServes _ w signame la

-- What has come before a process serves with these settings and this router.
pub record Justified (toml : Toml) (w : World) (na : NetworkServerArgs) (la : LauncherArgs)
    (asked : Option Options) (na' : NetworkServerArgs) (router : RouterSeletor) : Type 0 where
  pub options : Options
  pub settings : LauncherArgs
  pub parsed : asked ≡ some options
  pub no_version : options.version ≡ false
  pub profile :
      parse_service_profile toml w.system options.config na la ≡ done (true, na', settings)
  pub routed :
      initialize_router_seletor toml settings.router_file new_selector ≡ done (true, router)
  pub no_signal : options.signame ≡ none
  pub may_serve : MayServe w options settings

module _ (toml : Toml) (w : World) (na : NetworkServerArgs) (la : LauncherArgs) where
  abbrev Ready : Option Options → End × List Action → Type 0
  Ready asked = WhenServes (Justified toml w na la asked)

  routed-Ready :
      (o : Options) (na' : NetworkServerArgs) (la' : LauncherArgs) (r : Bool × RouterSeletor)
      → o.version ≡ false
      → parse_service_profile toml w.system o.config na la ≡ done (true, na', la')
      → initialize_router_seletor toml la'.router_file new_selector ≡ done r
      → Ready
          (some o)
          (if not r.0 then (exits_with (negsuc 1), unrouted ∷ []) else with_router w o na' la' r.1)
  unfolding with_router
  routed-Ready o na' la' (false, router) nv p q = tt
  routed-Ready o na' la' (true, router) nv p q =
      let s = serve_or_signal w o na' la' router o.signame in
      WhenServes-actions (Justified toml w na la (some o)) s.0 s.1 _ (
        WhenServes-mono _ (Justified toml w na la (some o)) s
          (with_router-WhenServes w o na' la' router o.signame)
          λ na'' router' h. record {
            options = o;
            settings = la';
            parsed = refl;
            no_version = nv;
            profile = p ∙ ap (λ x. done (true, x, la')) (sym h.0);
            routed = q ∙ ap (λ x. done (true, x)) (sym h.1);
            no_signal = h.2;
            may_serve = h.3;
          })

  load_router-Ready :
      (o : Options) (r : Bool × NetworkServerArgs × LauncherArgs)
      → o.version ≡ false
      → parse_service_profile toml w.system o.config na la ≡ done r
      → Whenever (Ready (some o)) (load_router toml w o r)
  unfolding load_router
  load_router-Ready o (false, na', la') nv p = tt
  load_router-Ready o (true, na', la') nv p =
      bind-Whenever (Ready (some o)) (initialize_router_seletor toml la'.router_file new_selector) _
        λ r q. routed-Ready o na' la' r nv p q

  run_options-Ready :
      (asked : Option Options) → Whenever (Ready asked) (run_options toml w na la asked)
  unfolding run_options
  run_options-Ready none = tt
  run_options-Ready (some o) =
      let shown = prints (print_version o.quiet) ∷ [] in
      let profile = parse_service_profile toml w.system o.config na la in
      Whenever-if (Ready (some o)) o.version (done (exits_with (pos 0), shown))
        (profile >>= λ p. load_router toml w o p) (λ e. tt)
        λ e.
          bind-Whenever (Ready (some o)) profile (λ p. load_router toml w o p)
            λ r p. load_router-Ready o r e p

  -- Whatever the command line, the files and the system: if a process gets to serve, then neither
  -- the usage nor the version was asked for, the profile was read, and it serves with the settings
  -- in it, the routing file that the profile names was loaded, no signal was asked for, and the
  -- process is in the foreground, or `Daemonize` returned 0 in it and it is no master.
  pub main-serves :
      (argc : ℕ) (argv : List Bytes)
      → Whenever
          (WhenServes
            (Justified toml w na la (parse_options (w.getopt (saved_argv argc argv)) no_options)))
          (main toml w na la argc argv)
  unfolding main
  main-serves argc argv =
      run_options-Ready (parse_options (w.getopt (saved_argv argc argv)) no_options)
