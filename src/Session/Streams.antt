-- ===== src/Session/Streams.antt =====
-- The bytes of a session of src/SubversionSession.cc: what each waiting operation knows of the bytes
-- that went over.
use svnsrv.Base.{
  ℕ, List, [], ◌∷◌, ◌++◌, ◌≡◌, refl, ap, ◌∙◌, length, take, drop, All, append-nil, append_assoc,
  take-append-drop,
}
use svnsrv.Base.Text.{Bytes}
use svnsrv.Session.{
  Session, Op, writes_greeting, reads_answer, connects, reads_greeting, writes_answer,
  reads_upstream, reads_downstream, writes_downstream, writes_upstream, sends_error, Action,
}
use svnsrv.Session.Handlers.{Allowed, IsReport}
use svnsrv.Session.System.{Completion, started, Config, record_op}

-- `xs` is what was passed on of `ys` so far.
abbrev pub IsPrefix : Bytes → Bytes → Type 0
IsPrefix xs ys = (rest : Bytes) × (xs ++ rest ≡ ys)

-- What a waiting operation knows of the bytes that go to the client.
abbrev pub UpOk : Bytes → Bytes → Op → Type 0
UpOk tc fb (writes_downstream text) = tc ++ text ≡ fb
UpOk tc fb reads_downstream = Unit
UpOk tc fb (writes_upstream text) = Unit
UpOk tc fb _ = tc ≡ fb

-- The same for those that go to the storage machine.
abbrev pub DownOk : Bytes → Bytes → ℕ → Bytes → Op → Type 0
DownOk tb fc n clt (writes_greeting text) = tb ≡ fc
DownOk tb fc n clt reads_answer = tb ≡ fc
DownOk tb fc n clt (connects address port) = tb ++ take n clt ≡ fc
DownOk tb fc n clt reads_greeting = tb ++ take n clt ≡ fc
DownOk tb fc n clt (writes_answer text) = tb ++ text ≡ fc
DownOk tb fc n clt reads_downstream = tb ≡ fc
DownOk tb fc n clt (writes_upstream text) = tb ++ text ≡ fc
DownOk tb fc n clt _ = Unit

pub IsPrefix-take : (k : ℕ) (xs text ys : Bytes) → xs ++ text ≡ ys → IsPrefix (xs ++ take k text) ys
IsPrefix-take k xs text ys e =
    (drop k text, append_assoc xs (take k text) (drop k text) ∙ rw (take-append-drop k text) e)

pub IsPrefix-append : (xs ys more : Bytes) → IsPrefix xs ys → IsPrefix xs (ys ++ more)
IsPrefix-append xs ys more (rest, e) = (rest ++ more, rw (← append_assoc xs rest more, e))

pub IsPrefix-refl : (xs ys : Bytes) → xs ≡ ys → IsPrefix xs ys
IsPrefix-refl xs ys e = ([], rw append-nil e)

pub take-length : (xs : Bytes) → take (length xs) xs ≡ xs
take-length [] = refl
take-length (x ∷ xs) = ap (◌∷◌ x) (take-length xs)

pub Allowed-ok :
    (ops : List Op) (tc fb tb fc : Bytes) (n : ℕ) (clt : Bytes)
    → tc ≡ fb
    → tb ++ take n clt ≡ fc
    → All (Allowed n clt) ops
    → All (UpOk tc fb) ops × All (DownOk tb fc n clt) ops
Allowed-ok [] tc fb tb fc n clt u d h = (tt, tt)
Allowed-ok (connects address port ∷ ops) tc fb tb fc n clt u d h =
    let k = Allowed-ok ops tc fb tb fc n clt u d h.1 in ((u, k.0), (d, k.1))
Allowed-ok (reads_greeting ∷ ops) tc fb tb fc n clt u d h =
    let k = Allowed-ok ops tc fb tb fc n clt u d h.1 in ((u, k.0), (d, k.1))
Allowed-ok (writes_answer text ∷ ops) tc fb tb fc n clt u d h =
    let k = Allowed-ok ops tc fb tb fc n clt u d h.1 in ((u, k.0), (rw h.0 d, k.1))
Allowed-ok (sends_error text ∷ ops) tc fb tb fc n clt u d h =
    let k = Allowed-ok ops tc fb tb fc n clt u d h.1 in ((u, k.0), (tt, k.1))
Allowed-ok (writes_greeting text ∷ ops) tc fb tb fc n clt u d h = absurd h.0
Allowed-ok (reads_answer ∷ ops) tc fb tb fc n clt u d h = absurd h.0
Allowed-ok (reads_upstream ∷ ops) tc fb tb fc n clt u d h = absurd h.0
Allowed-ok (reads_downstream ∷ ops) tc fb tb fc n clt u d h = absurd h.0
Allowed-ok (writes_upstream text ∷ ops) tc fb tb fc n clt u d h = absurd h.0
Allowed-ok (writes_downstream text ∷ ops) tc fb tb fc n clt u d h = absurd h.0

pub IsReport-ok :
    (ops : List Op) (tc fb tb fc : Bytes) (n : ℕ) (clt : Bytes)
    → tc ≡ fb
    → All IsReport ops
    → All (UpOk tc fb) ops × All (DownOk tb fc n clt) ops
IsReport-ok [] tc fb tb fc n clt u h = (tt, tt)
IsReport-ok (sends_error text ∷ ops) tc fb tb fc n clt u h =
    let k = IsReport-ok ops tc fb tb fc n clt u h.1 in ((u, k.0), (tt, k.1))
IsReport-ok (connects address port ∷ ops) tc fb tb fc n clt u h = absurd h.0
IsReport-ok (reads_greeting ∷ ops) tc fb tb fc n clt u h = absurd h.0
IsReport-ok (writes_answer text ∷ ops) tc fb tb fc n clt u h = absurd h.0
IsReport-ok (writes_greeting text ∷ ops) tc fb tb fc n clt u h = absurd h.0
IsReport-ok (reads_answer ∷ ops) tc fb tb fc n clt u h = absurd h.0
IsReport-ok (reads_upstream ∷ ops) tc fb tb fc n clt u h = absurd h.0
IsReport-ok (reads_downstream ∷ ops) tc fb tb fc n clt u h = absurd h.0
IsReport-ok (writes_upstream text ∷ ops) tc fb tb fc n clt u h = absurd h.0
IsReport-ok (writes_downstream text ∷ ops) tc fb tb fc n clt u h = absurd h.0

pub None-ok :
    (ops : List Op) (tc fb tb fc : Bytes) (n : ℕ) (clt : Bytes)
    → All (λ op. ⊥) ops
    → All (UpOk tc fb) ops × All (DownOk tb fc n clt) ops
None-ok [] tc fb tb fc n clt h = (tt, tt)
None-ok (op ∷ ops) tc fb tb fc n clt h = absurd h.0

-- What holds after the handler of `op` of its own connection's bytes and of what it started.
pub record OpOk (c : Config) (op : Op) (d : Completion) (r : Session × List Action) : Type 0 where
  pub up_prefix : IsPrefix (record_op op d c).to_client (record_op op d c).from_backend
  pub down_prefix : IsPrefix (record_op op d c).to_backend (record_op op d c).from_client
  pub up_started :
      All (UpOk (record_op op d c).to_client (record_op op d c).from_backend) (started r.1)
  pub down_started :
      All
        (DownOk
          (record_op op d c).to_backend
          (record_op op d c).from_client
          r.0.handshake_size
          r.0.clt_buffer)
        (started r.1)

pub record Streams (c : Config) : Type 0 where
  pub up_prefix : IsPrefix c.to_client c.from_backend
  pub down_prefix : IsPrefix c.to_backend c.from_client
  pub up_ok : All (UpOk c.to_client c.from_backend) c.pending
  pub down_ok :
      All
        (DownOk c.to_backend c.from_client c.session.handshake_size c.session.clt_buffer)
        c.pending
