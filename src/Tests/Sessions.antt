-- ===== src/Tests/Sessions.antt =====
-- Runs of src/SubversionSession.cc, and of its theorems.
use svnsrv.Base.{
  ℕ, zero, suc, ◌≤◌, true, false, [], ◌∷◌, ◌++◌, ◌≡◌, ◌≢◌, inl, refl, length, All, All-append,
  arith, ◌^◌,
}
use svnsrv.Base.Decimal.{digits}
use svnsrv.Base.Run.{done, crash}
use svnsrv.Base.Text.{Bytes, codes, decimal, c_str}
use svnsrv.Handshake.{protocol_of, parse}
use svnsrv.Handshake.RoundTrip.{opening, counted, Marks}
use svnsrv.Router.{get_storage_element}
use svnsrv.Session.{
  Env, Session, writes_greeting, reads_answer, connects, reads_greeting, writes_answer,
  reads_upstream, reads_downstream, writes_downstream, sends_error, starts, greeting, send_text,
  read_downstream_handshake,
}
use svnsrv.Session.System.{
  Completion, Config, Moment, completes, accepted, complete, deliver, Reach, here, next,
}
use svnsrv.Session.Exclusive.{total, uses_buffer, uses_clt_buffer, Reach-exclusive}
use svnsrv.Session.Streams.{IsPrefix, UpOk, DownOk}
use svnsrv.Session.Relay.{Reach-relay}
use svnsrv.Session.Frame.{send_text-frame}
use svnsrv.Session.Overlong.{read_downstream_handshake-overlong}
use svnsrv.Url.{canonicalize}
use svnsrv.Tests.Concrete.{read_long, long_reader}
use svnsrv.Tests.Answers.{new_hds, words_sent, answer_sent, agent_sent, agent_marked}
use svnsrv.Tests.Routes.{sample_selector, no_element}

abbrev pub sample_env : Env
sample_env = record {
  strtol = read_long;
  clt_address = 2 ^ 40;
  router = sample_selector;
  valid_address = λ address. true;
  stamp = codes "[t] ";
  wide = λ text. [];
  garbage = 0;
}

abbrev pub new_session : Session
new_session = record {
  socket_open = true;
  backend_open = false;
  node = no_element;
  hds = new_hds;
  handshake_size = 0;
  buffer = [];
  clt_buffer = [];
}

abbrev transferred : ℕ → Completion
transferred n = record { error = false; bytes = []; count = n }

abbrev received : Bytes → Completion
received bytes = record { error = false; bytes = bytes; count = length bytes }

-- The session after a whole handshake, with two bytes relayed to the client.
abbrev pub relayed_session : Session
relayed_session = record new_session {
  hds = record {
    protocol = protocol_of b'2';
    capabilities = words_sent;
    subversion_url = codes "svn://h/ow/re/p";
    user_agent = agent_sent;
    last_error = [];
  };
  node = record { port = 3691; address = codes "10.0.0.1" };
  handshake_size = length answer_sent;
  buffer = codes "okccess";
  clt_buffer = answer_sent;
}

abbrev pub relayed : Config
relayed = record {
  session = relayed_session;
  pending = reads_upstream ∷ reads_downstream ∷ [];
  from_client = answer_sent;
  to_backend = answer_sent;
  from_backend = codes "ok";
  to_client = codes "ok";
  short = false;
}

-- A second later each.
abbrev pub moment : ℕ → Moment
moment n = record { stamp = b't' ∷ digits n ++ b' ' ∷ []; garbage = n }

pub Reach-relayed : Reach sample_env (accepted new_session) relayed
unfolding greeting complete parse deliver canonicalize get_storage_element c_str digits
Reach-relayed =
    next
      (next
        (next
          (next
            (next
              (next
                (next here (
                  completes (moment 1) [] [] (writes_greeting greeting) (transferred 10) _ refl
                    (omega arith) refl))
                (completes (moment 2) [] [] reads_answer (received answer_sent) _ refl
                  (inl (refl, refl, omega arith, omega arith)) refl))
              (completes (moment 3) [] [] (connects (codes "10.0.0.1") 3691) (transferred 0) _ refl
                tt refl))
            (completes (moment 4) [] [] reads_greeting (received (codes "success")) _ refl
              (inl (refl, refl, omega arith, omega arith)) refl))
          (completes (moment 5) [] [] (writes_answer answer_sent) (transferred (length answer_sent))
            _ refl (omega arith) refl))
        (completes (moment 6) [] (reads_downstream ∷ []) reads_upstream (received (codes "ok")) _
          refl (inl (refl, refl, omega arith, omega arith)) refl))
      (completes (moment 7) [] (reads_downstream ∷ []) (writes_downstream (codes "ok"))
        (transferred 2) _ refl (inl (refl, refl)) refl)

Reach-exclusive_example :
    (total uses_buffer relayed.pending ≤ 1) × (total uses_clt_buffer relayed.pending ≤ 1)
Reach-exclusive_example = Reach-exclusive Reach-relayed

Reach-relay_example :
    IsPrefix relayed.to_client relayed.from_backend
    × IsPrefix relayed.to_backend relayed.from_client
    × All (UpOk relayed.to_client relayed.from_backend) relayed.pending
    × All
        (DownOk relayed.to_backend relayed.from_client relayed.session.handshake_size
          relayed.session.clt_buffer)
        relayed.pending
Reach-relay_example = Reach-relay Reach-relayed refl

-- The report of a routing failure as the client reads it.
send_text-frame_example :
    (buffer : Bytes) × (send_text 200042 (codes "gone") new_session
      ≡ done (
        record new_session { buffer = buffer },
        starts (
              sends_error (
                codes "( failure ( ( "
                ++ (digits 200042
                    ++ (b' ' ∷ (digits 4 ++ (b':' ∷ (codes "gone" ++ codes " 0: 0 ) ) ) ")))))))
            ∷ [],
      ))
    × (decimal (digits 200042) ≡ 200042)
    × (decimal (digits 4) ≡ 4)
send_text-frame_example =
    send_text-frame 200042 (codes "gone") new_session (omega arith) (omega arith) (omega arith)

abbrev repeated : ℕ → Bytes
repeated zero = []
repeated (suc n) = b'x' ∷ repeated n

length-repeated : (n : ℕ) → length (repeated n) ≡ n
length-repeated zero = refl
length-repeated (suc n) = omega (arith, length-repeated n)

repeated-no_zero : (n : ℕ) → All (λ b. b ≢ 0) (repeated n)
repeated-no_zero zero = tt
repeated-no_zero (suc n) = (omega arith, repeated-no_zero n)

abbrev long_url : Bytes
long_url = codes "svn://h/" ++ repeated 5000

long_url_marked : Marks (codes "5008") long_url
long_url_marked = record {
  not_empty = λ e. cc;
  digits = omega arith;
  value = omega (arith, length-repeated 5000);
  fits = omega (arith, length-repeated 5000);
}

abbrev long_answer : Bytes
long_answer =
    opening b'2' words_sent
      (counted (codes "5008") long_url (counted (codes "7") agent_sent (codes "( ) ) ")))

read_downstream_handshake-overlong_example :
    read_downstream_handshake sample_env false
      (length long_answer)
      (record new_session { clt_buffer = long_answer ++ [] })
    ≡ crash
read_downstream_handshake-overlong_example =
    read_downstream_handshake-overlong long_reader sample_env
      (record new_session { clt_buffer = long_answer ++ [] }) b'2' words_sent (codes "5008")
      long_url (codes "7") agent_sent (codes "( ) ) ") [] refl (omega arith)
      (((λ e. cc), omega arith), (((λ e. cc), omega arith), tt)) long_url_marked agent_marked
      (omega arith)
      (All-append (λ b. b ≢ 0) (codes "svn://h/") (repeated 5000) (omega arith)
        (repeated-no_zero 5000))
      (omega (arith, length-repeated 5000)) refl refl
