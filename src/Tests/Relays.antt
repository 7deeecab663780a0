-- ===== src/Tests/Relays.antt =====
-- Runs of a session from the client's answer on and to its end, alone and in the server.
use svnsrv.Base.{List, ◌≡◌, ◌+◌, ◌≤◌, ◌<◌, true, false, [], ◌∷◌, ◌++◌, refl, length, arith}
use svnsrv.Base.Decimal.{digits}
use svnsrv.Base.Text.{codes, c_str}
use svnsrv.Router.{StorageElement, get_address}
use svnsrv.Tests.Concrete.{long_reader}
use svnsrv.Session.{Session, reads_upstream, reads_downstream, greeting}
use svnsrv.Session.System.{Completion, Config, env_at, accepted, complete, deliver, here, next}
use svnsrv.Session.System
use svnsrv.Session.Exclusive.{total, uses_buffer, uses_clt_buffer}
use svnsrv.Session.Streams.{IsPrefix}
use svnsrv.Session.Flow.{from_storage, from_client, Chunk, storage_bytes, client_bytes, IsRelaying}
use svnsrv.Session.Opening.{connecting_to, Reach-proxies}
use svnsrv.Session.Ending.{Fails, none_yet, fails, Reach-ends}
use svnsrv.Session.Routing.{Client, IsClient, owner_of, url_of, answer_of, IsUsable}
use svnsrv.Server.{handle_accept}
use svnsrv.Server.Pool.{Service, arrives, proceeds, Reach, begins, later, Reach-each_session}
use svnsrv.Tests.Answers.{words_sent, agent_sent, agent_marked, url_marked}
use svnsrv.Tests.Sessions.{sample_env, new_session, moment, relayed, Reach-relayed}

-- The answer of the URL `svn://h/ow/re/p`.
abbrev pub sample_client : Client
sample_client = record {
  version = b'2';
  capabilities = words_sent;
  mark = codes "15";
  agent_mark = codes "7";
  agent = agent_sent;
  junk = codes "( ) ) ";
  scheme = codes "svn";
  host = codes "h";
  first = b'o';
  second = b'w';
  more = [];
  repository = codes "re";
  path = codes "p";
}

pub sample-IsClient : IsClient sample_client
sample-IsClient = record {
  version = omega arith;
  capabilities = (((λ e. cc), omega arith), (((λ e. cc), omega arith), tt));
  mark = url_marked;
  agent_mark = agent_marked;
  junk = omega arith;
  parts = record {
    scheme_bytes = omega arith;
    host_bytes = omega arith;
    owner_bytes = omega arith;
    repository_bytes = omega arith;
  };
}

abbrev pub waiting_session : Session
waiting_session = record new_session { clt_buffer = answer_of sample_client ++ [] }

-- Both connections of a relay fail.
abbrev failure : Completion
failure = record { error = true; bytes = []; count = 0 }

abbrev torn : Config
torn = record relayed { pending = [] }

relayed-torn : Fails sample_env relayed 2 torn
unfolding complete deliver
relayed-torn =
    fails
      (fails none_yet (moment 8) [] (reads_downstream ∷ []) reads_upstream failure _ refl refl refl)
      (moment 9) [] [] reads_downstream failure _ refl refl refl

Reach-ends_example : 2 + length torn.pending ≤ 2
Reach-ends_example = Reach-ends Reach-relayed relayed-torn

-- One session in the server.
abbrev serving : Config → Service
serving c = record { connection = 2; sessions = c ∷ [] }

serving-accepted : Reach sample_env (serving (accepted new_session))
unfolding handle_accept greeting
serving-accepted = later begins (arrives new_session false _ refl)

serving-Reach :
    (c : Config) → System.Reach sample_env (accepted new_session) c → Reach sample_env (serving c)
serving-Reach c here = serving-accepted
serving-Reach c (next {c'} r st) = later (serving-Reach c' r) (proceeds [] [] c' c refl st)

Reach-each_session_example :
    (length ((serving relayed).sessions) < 2)
    × IsPrefix relayed.to_client relayed.from_backend
    × IsPrefix relayed.to_backend relayed.from_client
    × (total uses_buffer relayed.pending ≤ 1)
    × (total uses_clt_buffer relayed.pending ≤ 1)
Reach-each_session_example =
    Reach-each_session [] [] relayed (serving-Reach relayed Reach-relayed) refl refl

-- The client's answer, and what is sent on both sides behind it.
abbrev pub sample_chunks : List Chunk
sample_chunks =
    from_storage (codes "hello") ∷ from_client (codes "x") ∷ from_storage (codes "y") ∷ []

abbrev sample_machine : StorageElement
sample_machine = record { address = codes "10.0.0.1"; port = 3691 }

abbrev sample_connecting : Config
sample_connecting = connecting_to sample_env (moment 3) new_session sample_client sample_machine

sample-known :
    get_address sample_env.router (owner_of sample_client) new_session.node ≡ (true, sample_machine)
unfolding get_address
sample-known = refl

sample-IsUsable : IsUsable (env_at sample_env (moment 3)) (url_of sample_client) sample_machine
unfolding c_str digits
sample-IsUsable = (refl, refl, omega arith)

Reach-proxies_example :
    (c' : Config) × System.Reach sample_env (accepted new_session) sample_connecting
    × System.Reach sample_env sample_connecting c'
    × IsRelaying c'
    × (c'.to_backend ≡ answer_of sample_client ++ client_bytes sample_chunks)
    × (c'.to_client ≡ storage_bytes sample_chunks)
Reach-proxies_example =
    Reach-proxies long_reader sample_env (moment 3) new_session sample_client sample_machine refl
      sample-known sample-IsClient sample-IsUsable (omega arith) (codes "( )") sample_chunks
      (omega arith) (omega arith)
