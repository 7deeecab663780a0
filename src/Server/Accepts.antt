-- ===== src/Server/Accepts.antt =====
-- The completions of the acceptor of src/SubversionServer.cc, one after the other.
use svnsrv.Base.{
  ℕ, suc, ◌+◌, Bool, true, false, List, [], ◌∷◌, ◌++◌, ◌≡◌, refl, ap, if◌then◌else◌, length, All,
  Any, ◌⊎◌, inl, inr, arith,
}
use svnsrv.Base.Run.{crash, Ensures, bind-Ensures, bind_crash, bind_crash_after}
use svnsrv.Session.{Session}
use svnsrv.Server.{ServerAction, accepts, runs, handle_accept, serve}

-- The connections that wait for a client, and those whose session was started, in their order.
abbrev pub accepted_by : List ServerAction → List ℕ
accepted_by [] = []
accepted_by (accepts k ∷ as_) = k ∷ accepted_by as_
accepted_by (_ ∷ as_) = accepted_by as_

abbrev pub run_by : List ServerAction → List ℕ
run_by [] = []
run_by (runs k a ∷ as_) = k ∷ run_by as_
run_by (_ ∷ as_) = run_by as_

abbrev pub from_to : ℕ → List (Bool × Bool) → List ℕ
from_to k [] = []
from_to k (e ∷ es) = suc k ∷ from_to (suc k) es

-- The connections whose completion has no error.
abbrev pub connected : ℕ → List (Bool × Bool) → List ℕ
connected k [] = []
connected k ((error, option_set) ∷ es) =
    if error then connected (suc k) es else k ∷ connected (suc k) es

abbrev pub Survives : Bool × Bool → Type 0
Survives e = (e.0 ≡ true) ⊎ (e.1 ≡ true)

abbrev pub Kills : Bool × Bool → Type 0
Kills e = (e.0 ≡ false) × (e.1 ≡ false)

abbrev pub Served : ℕ → List (Bool × Bool) → ℕ × List ServerAction → Type 0
Served k es r =
    (r.0 ≡ k + length es) × (accepted_by r.1 ≡ from_to k es) × (run_by r.1 ≡ connected k es)

accepted_by-append :
    (xs ys : List ServerAction) → accepted_by (xs ++ ys) ≡ accepted_by xs ++ accepted_by ys
accepted_by-append [] ys = refl
accepted_by-append (accepts k ∷ xs) ys = ap (◌∷◌ k) (accepted_by-append xs ys)
accepted_by-append (runs k a ∷ xs) ys = accepted_by-append xs ys

run_by-append : (xs ys : List ServerAction) → run_by (xs ++ ys) ≡ run_by xs ++ run_by ys
run_by-append [] ys = refl
run_by-append (accepts k ∷ xs) ys = run_by-append xs ys
run_by-append (runs k a ∷ xs) ys = ap (◌∷◌ k) (run_by-append xs ys)

handle_accept-next :
    (s : Session) (error option_set : Bool) (k : ℕ)
    → Survives (error, option_set)
    → Ensures
        (λ r.
          (r.0 ≡ suc k)
          × (accepted_by r.1 ≡ suc k ∷ [])
          × (run_by r.1 ≡ (if error then [] else k ∷ [])))
        (handle_accept s error option_set k)
unfolding handle_accept
handle_accept-next s true option_set k h = (refl, refl, refl)
handle_accept-next s false true k h = (refl, refl, refl)
handle_accept-next s false false k h = ground arith

serve-Served :
    (s : Session) (es : List (Bool × Bool)) (k : ℕ)
    → All Survives es
    → Ensures (Served k es) (serve s es k)
unfolding serve
serve-Served s [] k h = (omega arith, refl, refl)
serve-Served s ((error, option_set) ∷ es) k h =
    bind-Ensures _ (Served k ((error, option_set) ∷ es)) (handle_accept s error option_set k) _
      (handle_accept-next s error option_set k h.0)
      λ r v.
        bind-Ensures (Served r.0 es) _ (serve s es r.0) _ (serve-Served s es r.0 h.1)
          λ q w. ground (arith, v.0, v.1, v.2, w, accepted_by-append r.1 q.1, run_by-append r.1 q.1)

handle_accept-Kills :
    (s : Session) (error option_set : Bool) (k : ℕ)
    → Kills (error, option_set)
    → handle_accept s error option_set k ≡ crash
unfolding handle_accept
handle_accept-Kills s false false k h = refl
handle_accept-Kills s true option_set k h = ground arith
handle_accept-Kills s false true k h = ground arith

serve-Kills : (s : Session) (es : List (Bool × Bool)) (k : ℕ) → Any Kills es → serve s es k ≡ crash
unfolding serve
serve-Kills s [] k h = absurd h
serve-Kills s ((error, option_set) ∷ es) k (inl h) =
    bind_crash (handle_accept s error option_set k) _ (handle_accept-Kills s error option_set k h)
serve-Kills s ((error, option_set) ∷ es) k (inr h) =
    bind_crash_after (handle_accept s error option_set k) _
      λ r. bind_crash (serve s es r.0) _ (serve-Kills s es r.0 h)

Any-middle :
    (es : List (Bool × Bool)) (e : Bool × Bool) (rest : List (Bool × Bool))
    → Kills e
    → Any Kills (es ++ e ∷ rest)
Any-middle [] e rest h = inl h
Any-middle (x ∷ es) e rest h = inr (Any-middle es e rest h)

-- As long as each accepted socket takes the option that its session sets, the acceptor goes on:
-- after n completions, with errors or without, it waits with the n-th connection after the first,
-- having waited with each in between, and the sessions of just the connections that came without an
-- error were started, in their order. The first accepted socket that refuses the option ends the
-- server, whatever would follow.
pub serve-accepts :
    (s : Session) (es : List (Bool × Bool)) (e : Bool × Bool) (rest : List (Bool × Bool)) (k : ℕ)
    → All Survives es
    → Kills e
    → Ensures (Served k es) (serve s es k) × (serve s (es ++ e ∷ rest) k ≡ crash)
serve-accepts s es e rest k h kill =
    (serve-Served s es k h, serve-Kills s (es ++ e ∷ rest) k (Any-middle es e rest kill))
