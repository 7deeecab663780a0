-- ===== src/Server.antt =====
-- src/SubversionServer.cc: the acceptor. A connection is the number of the `SubversionSession` that
-- was made for it. What throws ends the program, since nothing catches it.
pub mod Accepts
pub mod Pool
pub mod Entry
use svnsrv.Base.{
  ℕ, zero, suc, ◌+◌, ◌-◌, ◌^◌, ltb, Bool, true, false, not, ◌&&◌, List, [], ◌∷◌, ◌++◌, ◌==◌,
  if◌then◌else◌,
}
use svnsrv.Base.Run.{Run, done, crash, ◌>>=◌}
use svnsrv.Base.Decimal.{digits}
use svnsrv.Base.Text.{Bytes, codes, c_str}
use svnsrv.Klog.{line_of}
use svnsrv.Profile.{NetworkServerArgs}
use svnsrv.Session.{Session, Action, start}

-- `from_string`, and what the acceptor's calls answer: each throws where its answer is `false`.
pub record Listener : Type 0 where
  pub valid_address : Bytes → Bool
  pub opens : Bool
  pub reuses_address : Bool
  pub binds : Bytes → ℕ → Bool
  pub listens : Bool

pub data ServerAction : Type 0 where
  accepts : ℕ → ServerAction
  runs : ℕ → List Action → ServerAction

-- `new_connection_` becomes the next session, and waits for a client.
unfoldable pub start_accept : ℕ → ℕ × List ServerAction
start_accept k = (suc k, accepts (suc k) ∷ [])

-- The handler of the connection `k`, whose session is `s`. `option_set` is whether the system takes
-- the option that `start` sets.
unfoldable pub handle_accept : Session → Bool → Bool → ℕ → Run (ℕ × List ServerAction)
unfolding start_accept start
handle_accept s error option_set k =
    (if not error then start option_set s >>= (λ r. done (runs k r.1 ∷ [])) else done []) >>= λ ran.
    let n = start_accept k in done (n.0, ran ++ n.1)

-- The constructor: it throws for an empty pool of threads, and where a call of the acceptor does.
unfoldable pub construct : Listener → NetworkServerArgs → Run (ℕ × List ServerAction)
unfolding start_accept
construct os args =
    if args.pool_size == 0
    then crash
    else if os.valid_address args.address
        && (os.opens && (os.reuses_address && (os.binds args.address args.port && os.listens)))
    then done (start_accept 0)
    else crash

-- The completions of `async_accept`, one after the other, each with its error flag and whether the
-- option is taken.
unfoldable pub serve : Session → List (Bool × Bool) → ℕ → Run (ℕ × List ServerAction)
unfolding handle_accept
serve s [] k = done (k, [])
serve s ((error, option_set) ∷ es) k =
    handle_accept s error option_set k >>= λ r. serve s es r.0 >>= λ q. done (q.0, r.1 ++ q.1)

-- What the server does, and its threads, which all run the completions.
pub data Life : Type 0 where
  logs : Bytes → Life
  handles : List ServerAction → Life
  spawns joins stops : Life

-- `%d` of an unsigned number of 32 bits.
unfoldable pub signed_digits : ℕ → Bytes
signed_digits n = if ltb n (2 ^ 31) then digits n else b'-' ∷ digits (2 ^ 32 - n)

unfoldable pub listener_line : NetworkServerArgs → Bytes
unfolding signed_digits
listener_line args =
    codes "Listener address: "
    ++ (c_str args.address
        ++ (b':'
            ∷ (signed_digits args.port
                ++ (codes " Thread counts: " ++ signed_digits args.pool_size))))

abbrev pub repeated : ℕ → Life → List Life
repeated zero l = []
repeated (suc n) l = l ∷ repeated n l

-- `run` up to its second loop, with what the threads have run by then.
unfoldable pub run : NetworkServerArgs → List ServerAction → List Life
run args acts = repeated args.pool_size spawns ++ handles acts ∷ []

-- `handle_stop`, which nothing calls. Without it the threads do not end.
unfoldable pub handle_stop : List Life
handle_stop = stops ∷ []

-- The end of `run` and of `SubversionServerInitialize`, once the threads have ended.
unfoldable pub shutdown : Bytes → NetworkServerArgs → Run (List Life)
unfolding line_of
shutdown stamp args = line_of stamp (codes "svnsrv shutdown") >>= λ line.
    done (repeated args.pool_size joins ++ logs line ∷ [])

-- `SubversionServerInitialize` up to a number of completions. `stamp` stands in front of the lines of
-- the log.
unfoldable pub subversion_server :
    Listener → NetworkServerArgs → Bytes → Session → List (Bool × Bool) → Run (ℕ × List Life)
unfolding construct serve listener_line run line_of
subversion_server os args stamp s es = line_of stamp (codes "svnsrv running") >>= λ first.
    construct os args >>= λ r. line_of stamp (listener_line args) >>= λ second.
    serve s es r.0 >>= λ q. done (q.0, logs first ∷ handles r.1 ∷ logs second ∷ run args q.1)
