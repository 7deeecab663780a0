-- ===== src/Main/Proxy.antt =====
-- The whole way through the program: from the command line of src/main.cc and the two files that it
-- reads to the storage machine that src/SubversionSession.cc connects a client to.
use svnsrv.Base.{ℕ, ◌<◌, List, [], ◌∷◌, ◌++◌, some, ◌≡◌, All}
use svnsrv.Base.Run.{done}
use svnsrv.Base.Text.{Bytes, c_str, Strtol}
use svnsrv.Toml.{Toml}
use svnsrv.Profile.{NetworkServerArgs, LauncherArgs}
use svnsrv.Router.{RouterSeletor}
use svnsrv.Router.Lookup.{Host}
use svnsrv.Session.{Env, Session}
use svnsrv.Session.System.{Config, Moment, env_at, accepted, Reach}
use svnsrv.Session.Flow.{Chunk, bytes_of, Fits, storage_bytes, client_bytes, IsRelaying}
use svnsrv.Session.Opening.{connecting_to, Reach-proxies}
use svnsrv.Session.Routing.{Client, IsClient, url_of, answer_of, machine, IsUsable}
use svnsrv.Main.{
  Options, no_options, parse_options, saved_argv, World, serves, opens_logs, handles_int, main,
}
use svnsrv.Main.Configured.{IsConfigured}
use svnsrv.Main.Foreground.{IsForeground, main-foreground}

module _ (toml : Toml) (w : World) (c : Strtol) (env : Env) (m : Moment) where
  open toml use {Table}

  -- A start in the foreground, with a profile and a routing file as they are meant to be: the process
  -- serves, with a router to which this applies. Let a client send an answer as the protocol has it,
  -- with a URL `scheme://host/owner/repository/path` whose owner begins with two ASCII bytes, and let
  -- its machine be the first enabled one of the routing file whose range holds the owner, or the
  -- file's default machine. If that has an address that Boost reads and the line for the access log
  -- fits, then a session has a run that connects to just this machine and passes on to it the answer
  -- and what else the client sends, and to the client what the machine sends behind its greeting.
  pub main-proxy :
      (na na' : NetworkServerArgs) (la la' : LauncherArgs) (argc : ℕ) (argv : List Bytes)
      (o : Options) (file : Bytes) {g rg : Table} {ts : List Table} {hs : List Host}
      {address : Bytes} {port : ℕ} (s : Session) (cl : Client) (hello : Bytes) (chunks : List Chunk)
      → parse_options (w.getopt (saved_argv argc argv)) no_options ≡ some o
      → IsForeground o
      → IsConfigured toml w o na' la' ts hs address port file g rg
      → env.strtol ≡ c.strtol
      → IsClient cl
      → cl.first < 128
      → cl.second < 128
      → IsUsable (env_at env m) (url_of cl) (machine hs address port cl.first cl.second)
      → Fits (answer_of cl)
      → Fits hello
      → All (λ chunk. Fits (bytes_of chunk)) chunks
      → (router : RouterSeletor) × (c' : Config) × (main toml w na la argc argv
          ≡ done (
            serves na' router w.host,
            opens_logs (c_str la'.log_access) (c_str la'.log_error) ∷ handles_int ∷ [],
          ))
        × Reach
            (record env { router = router })
            (accepted s)
            (connecting_to
              (record env { router = router })
              m
              s
              cl
              (machine hs address port cl.first cl.second))
        × Reach
            (record env { router = router })
            (connecting_to
              (record env { router = router })
              m
              s
              cl
              (machine hs address port cl.first cl.second))
            c'
        × IsRelaying c'
        × (c'.to_backend ≡ answer_of cl ++ client_bytes chunks)
        × (c'.to_client ≡ storage_bytes chunks)
  main-proxy na na' la la' argc argv o file {hs = hs} {address} {port} s cl hello chunks po f i e h
        a b usable short fits all_fit =
      let start =
        main-foreground toml w na na' la la' argc argv o file cl.first cl.second cl.more s.node po f
          i a b in
      let run =
        Reach-proxies c (record env { router = start.0 }) m s cl
          (machine hs address port cl.first cl.second) e start.2 h usable short hello chunks fits
          all_fit in
      (start.0, run.0, start.1, run.1, run.2, run.3, run.4, run.5)
