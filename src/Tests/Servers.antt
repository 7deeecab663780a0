-- ===== src/Tests/Servers.antt =====
-- Runs of src/SubversionServer.cc, and of its theorem.
use svnsrv.Base.{arith, true, false, [], ◌∷◌, ◌++◌, ◌≡◌, inl, inr, refl}
use svnsrv.Base.Run.{crash, Ensures}
use svnsrv.Base.Decimal.{digits}
use svnsrv.Base.Text.{codes, c_str}
use svnsrv.Server.{Listener, listener_line, subversion_server}
use svnsrv.Server.Entry.{Serves, Logs, subversion_server-Serves}
use svnsrv.Tests.Sessions.{new_session}
use svnsrv.Tests.Profiles.{profile_network}

abbrev working_listener : Listener
working_listener = record {
  valid_address = λ address. true;
  opens = true;
  reuses_address = true;
  binds = λ address port. true;
  listens = true;
}

-- A pool of no threads makes the constructor throw.
no_threads :
    subversion_server working_listener (record profile_network { pool_size = 0 }) [] new_session []
    ≡ crash
unfolding subversion_server
no_threads = refl

sample-Logs : Logs working_listener profile_network (codes "[t] ") new_session
unfolding listener_line c_str digits
sample-Logs = (omega arith, omega arith)

subversion_server-Serves_example :
    Ensures (Serves profile_network ((false, true) ∷ (true, false) ∷ [])) (
      subversion_server working_listener profile_network
        (codes "[t] ")
        new_session
        ((false, true) ∷ (true, false) ∷ []))
    × (subversion_server working_listener profile_network
          (codes "[t] ")
          new_session
          (((false, true) ∷ (true, false) ∷ []) ++ (false, false) ∷ (false, true) ∷ [])
        ≡ crash)
    × (subversion_server working_listener
          (record profile_network { pool_size = 0 })
          (codes "[t] ")
          new_session
          ((false, true) ∷ (true, false) ∷ [])
        ≡ crash)
subversion_server-Serves_example =
    subversion_server-Serves working_listener profile_network (codes "[t] ") new_session
      ((false, true) ∷ (true, false) ∷ []) (false, false) ((false, true) ∷ [])
      (record profile_network { pool_size = 0 }) (omega arith) (refl, refl, refl, refl, refl)
      sample-Logs (inr refl, (inl refl, tt)) (refl, refl) refl
