-- ===== src/Main/Configured.antt =====
-- The start of src/main.cc up to the logs, with a profile and a routing file as they are meant to be.
use svnsrv.Base.{ℕ, ◌<◌, false, true, List, [], ◌∷◌, some, ◌≡◌, ◌≢◌, refl, ◌∙◌, ap}
use svnsrv.Base.Run.{done, Ensures-result}
use svnsrv.Base.Text.{Bytes}
use svnsrv.Toml.{Toml}
use svnsrv.Profile.{NetworkServerArgs, LauncherArgs, find_profile, parse_service_profile}
use svnsrv.Profile.Settings.{IsNetwork, IsLauncher, parse_service_profile-settings}
use svnsrv.Router.{StorageElement, RouterSeletor, get_address, initialize_router_seletor}
use svnsrv.Router.Load.{IsRouting, load_route}
use svnsrv.Router.Lookup.{Host, route, storage_of}
use svnsrv.Main.{
  Options, no_options, parse_options, saved_argv, World, with_router, new_selector, load_router,
  run_options, main,
}

module _ (toml : Toml) (w : World) where
  open toml use {Table, parse_file}

  -- The program's two files, as it finds and reads them.
  pub record IsConfigured (o : Options) (na : NetworkServerArgs) (la : LauncherArgs)
      (ts : List Table) (hs : List Host) (address : Bytes) (port : ℕ) (file : Bytes) (g rg : Table)
      : Type 0 where
    pub found : find_profile w.system o.config ≡ done (some file)
    pub profile : parse_file file ≡ some g
    pub network : IsNetwork toml g na
    pub launcher : IsLauncher toml g la
    pub named : la.router_file ≢ []
    pub table : parse_file la.router_file ≡ some rg
    pub routing : IsRouting toml rg ts hs address port

  run_options-routed :
      (o : Options) (na na' : NetworkServerArgs) (la la' : LauncherArgs) (router : RouterSeletor)
      → o.version ≡ false
      → parse_service_profile toml w.system o.config na la ≡ done (true, na', la')
      → initialize_router_seletor toml la'.router_file new_selector ≡ done (true, router)
      → run_options toml w na la (some o) ≡ done (with_router w o na' la' router)
  unfolding run_options load_router
  run_options-routed o na na' la la' router v p r = simp (v, p, r)

  -- With no option for the version the start gets to the logs, with the settings of the profile and
  -- with a router that sends an owner whose first two bytes are ASCII to the first enabled row of
  -- the routing file whose range holds them, or to the file's default machine.
  pub main-configured :
      (na na' : NetworkServerArgs) (la la' : LauncherArgs) (argc : ℕ) (argv : List Bytes)
      (o : Options) (file : Bytes) {g rg : Table} {ts : List Table} {hs : List Host}
      {address : Bytes} {port : ℕ} (a b : ℕ) (rest : Bytes) (elem : StorageElement)
      → parse_options (w.getopt (saved_argv argc argv)) no_options ≡ some o
      → o.version ≡ false
      → IsConfigured o na' la' ts hs address port file g rg
      → a < 128
      → b < 128
      → (router : RouterSeletor) × (main toml w na la argc argv
          ≡ done (with_router w o na' la' router))
        × (get_address router (a ∷ b ∷ rest) elem
            ≡ (true, storage_of address port (route hs (a, b))))
  unfolding main
  main-configured na na' la la' argc argv o file a b rest elem po v i ha hb =
      let loaded = Ensures-result _ (initialize_router_seletor toml la'.router_file new_selector) (
        load_route toml la'.router_file new_selector a b rest elem i.named i.table i.routing refl ha
          hb) in
      let read =
        parse_service_profile-settings toml w.system o.config file na na' la la' i.found i.profile
          i.network i.launcher in
      (
        loaded.0.1,
        ap (run_options toml w na la) po
            ∙ run_options-routed o na na' la la' loaded.0.1 v read
                (loaded.1 ∙ ap (λ x. done (x, loaded.0.1)) loaded.2.0),
        loaded.2.1,
      )
