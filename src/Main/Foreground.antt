-- ===== src/Main/Foreground.antt =====
-- A start of src/main.cc in the foreground, from the two files to the answer of the router.
use svnsrv.Base.{ℕ, ◌<◌, true, false, List, [], ◌∷◌, none, some, ◌≡◌, ◌∙◌, ap, arith}
use svnsrv.Base.Run.{done}
use svnsrv.Base.Text.{Bytes, c_str}
use svnsrv.Toml.{Toml}
use svnsrv.Profile.{NetworkServerArgs, LauncherArgs}
use svnsrv.Router.{StorageElement, RouterSeletor, get_address}
use svnsrv.Router.Lookup.{Host, route, storage_of}
use svnsrv.Main.{
  Options, no_options, parse_options, saved_argv, World, serves, opens_logs, handles_int,
  start_service, serve_or_signal, with_router, main,
}
use svnsrv.Main.Configured.{IsConfigured, main-configured}

-- The options of a start in the foreground.
abbrev pub IsForeground : Options → Type 0
IsForeground o = (o.version ≡ false) × (o.signame ≡ none) × (o.daemon ≡ false)

module _ (toml : Toml) (w : World) where
  open toml use {Table}

  with_router-foreground :
      (o : Options) (na : NetworkServerArgs) (la : LauncherArgs) (router : RouterSeletor)
      → IsForeground o
      → with_router w o na la router ≡ (
        serves na router w.host,
        opens_logs (c_str la.log_access) (c_str la.log_error) ∷ handles_int ∷ [],
      )
  unfolding with_router serve_or_signal start_service
  with_router-foreground o na la router f = ground (arith, f)

  -- A start in the foreground, with no option for the version, a signal or the daemon, whose profile
  -- is found and read, and whose routing file, named in the profile, is read as rows with well-formed
  -- ranges: the process gets to serve, with the settings of the profile, after it opened the logs and
  -- set its handler for `SIGINT`. An owner whose first two bytes are ASCII is sent to the first
  -- enabled row whose range holds them, or to the default machine of the file.
  pub main-foreground :
      (na na' : NetworkServerArgs) (la la' : LauncherArgs) (argc : ℕ) (argv : List Bytes)
      (o : Options) (file : Bytes) {g rg : Table} {ts : List Table} {hs : List Host}
      {address : Bytes} {port : ℕ} (a b : ℕ) (rest : Bytes) (elem : StorageElement)
      → parse_options (w.getopt (saved_argv argc argv)) no_options ≡ some o
      → IsForeground o
      → IsConfigured toml w o na' la' ts hs address port file g rg
      → a < 128
      → b < 128
      → (router : RouterSeletor) × (main toml w na la argc argv
          ≡ done (
            serves na' router w.host,
            opens_logs (c_str la'.log_access) (c_str la'.log_error) ∷ handles_int ∷ [],
          ))
        × (get_address router (a ∷ b ∷ rest) elem
            ≡ (true, storage_of address port (route hs (a, b))))
  main-foreground na na' la la' argc argv o file a b rest elem po f i ha hb =
      let start =
        main-configured toml w na na' la la' argc argv o file a b rest elem po f.0 i ha hb in
      (start.0, start.1 ∙ ap done (with_router-foreground o na' la' start.0 f), start.2)
