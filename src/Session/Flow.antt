-- ===== src/Session/Flow.antt =====
-- A session of src/SubversionSession.cc in which all goes well, from the relay on: the chunks that either
-- side sends.
use svnsrv.Base.{
  ◌≤◌, ◌<◌, false, List, [], ◌∷◌, ◌++◌, ◌≡◌, sym, ◌⊎◌, inl, inr, refl, ◌∙◌, ap, length, drop, take,
  All, append-nil, append_assoc, take-append_self,
}
use svnsrv.Base.Text.{Bytes}
use svnsrv.Session.{
  Env, Op, reads_upstream, reads_downstream, writes_downstream, writes_upstream, buffer_size,
  starts,
}
use svnsrv.Session.Streams.{take-length}
use svnsrv.Session.System.{
  Completion, Config, Moment, complete, deliver, overwrite, completes, Reach, here, next,
}

-- What the storage machine or the client sends at once.
pub data Chunk : Type 0 where
  from_storage from_client : Bytes → Chunk

abbrev pub bytes_of : Chunk → Bytes
bytes_of (from_storage b) = b
bytes_of (from_client b) = b

abbrev pub Fits : Bytes → Type 0
Fits b = (0 < length b) × (length b ≤ buffer_size)

abbrev pub storage_bytes : List Chunk → Bytes
storage_bytes [] = []
storage_bytes (from_storage b ∷ cs) = b ++ storage_bytes cs
storage_bytes (from_client b ∷ cs) = storage_bytes cs

abbrev pub client_bytes : List Chunk → Bytes
client_bytes [] = []
client_bytes (from_storage b ∷ cs) = client_bytes cs
client_bytes (from_client b ∷ cs) = b ++ client_bytes cs

storage_bytes-append :
    (xs ys : List Chunk) → storage_bytes (xs ++ ys) ≡ storage_bytes xs ++ storage_bytes ys
storage_bytes-append [] ys = refl
storage_bytes-append (from_storage b ∷ xs) ys =
    ap (◌++◌ b) (storage_bytes-append xs ys)
    ∙ sym (append_assoc b (storage_bytes xs) (storage_bytes ys))
storage_bytes-append (from_client b ∷ xs) ys = storage_bytes-append xs ys

client_bytes-append :
    (xs ys : List Chunk) → client_bytes (xs ++ ys) ≡ client_bytes xs ++ client_bytes ys
client_bytes-append [] ys = refl
client_bytes-append (from_storage b ∷ xs) ys = client_bytes-append xs ys
client_bytes-append (from_client b ∷ xs) ys =
    ap (◌++◌ b) (client_bytes-append xs ys)
    ∙ sym (append_assoc b (client_bytes xs) (client_bytes ys))

-- The session waits for both sides.
abbrev pub IsRelaying : Config → Type 0
IsRelaying c =
    (c.pending ≡ reads_upstream ∷ reads_downstream ∷ [])
    ⊎ (c.pending ≡ reads_downstream ∷ reads_upstream ∷ [])

pub Reach-trans :
    {env : Env} {c c' c'' : Config} → Reach env c c' → Reach env c' c'' → Reach env c c''
Reach-trans p here = p
Reach-trans p (next r st) = next (Reach-trans p r) st

abbrev pub received : Bytes → Completion
received b = record { error = false; bytes = b; count = length b }

abbrev pub sent : Bytes → Completion
sent b = record { error = false; bytes = []; count = length b }

-- Both sides of the relay took the bytes of `chunks` from `c` to `c'`, and it goes on.
pub record Relayed (env : Env) (c : Config) (chunks : List Chunk) (c' : Config) : Type 0 where
  pub reached : Reach env c c'
  pub relaying : IsRelaying c'
  pub to_client : c'.to_client ≡ c.to_client ++ storage_bytes chunks
  pub to_backend : c'.to_backend ≡ c.to_backend ++ client_bytes chunks

module _ (env : Env) (m : Moment) where
  storage_chunk :
      (c : Config) (b : Bytes) (xs ys : List Op)
      → c.pending ≡ xs ++ reads_upstream ∷ ys
      → Fits b
      → (c' : Config) × Reach env c c'
        × (c'.pending ≡ reads_upstream ∷ (xs ++ ys))
        × (c'.to_client ≡ c.to_client ++ b)
        × (c'.to_backend ≡ c.to_backend)
  unfolding complete deliver
  storage_chunk c b xs ys e f =
      let s = record c.session { buffer = overwrite b c.session.buffer } in
      let kept : take (length b) (overwrite b c.session.buffer) ≡ b =
        take-append_self b (drop (length b) c.session.buffer) in
      let first = next here (
        completes m xs ys reads_upstream (received b) (s, starts (writes_downstream b) ∷ []) e
          (inl (refl, refl, f.0, f.1)) (rw kept refl)) in
      (
        _,
        next first (
            completes m [] (xs ++ ys) (writes_downstream b) (sent b) (s, starts reads_upstream ∷ [])
              refl (inl (refl, refl)) refl),
        refl,
        ap (◌++◌ c.to_client) (take-length b),
        refl,
      )

  client_chunk :
      (c : Config) (b : Bytes) (xs ys : List Op)
      → c.pending ≡ xs ++ reads_downstream ∷ ys
      → Fits b
      → (c' : Config) × Reach env c c'
        × (c'.pending ≡ reads_downstream ∷ (xs ++ ys))
        × (c'.to_client ≡ c.to_client)
        × (c'.to_backend ≡ c.to_backend ++ b)
  unfolding complete deliver
  client_chunk c b xs ys e f =
      let s = record c.session { clt_buffer = overwrite b c.session.clt_buffer } in
      let kept : take (length b) (overwrite b c.session.clt_buffer) ≡ b =
        take-append_self b (drop (length b) c.session.clt_buffer) in
      let first = next here (
        completes m xs ys reads_downstream (received b) (s, starts (writes_upstream b) ∷ []) e
          (inl (refl, refl, f.0, f.1)) (rw kept refl)) in
      (
        _,
        next first (
            completes m [] (xs ++ ys) (writes_upstream b) (sent b) (s, starts reads_downstream ∷ [])
              refl (inl (refl, refl)) refl),
        refl,
        refl,
        ap (◌++◌ c.to_backend) (take-length b),
      )

  storage_Relayed :
      (c : Config) (b : Bytes) (xs ys : List Op)
      → c.pending ≡ xs ++ reads_upstream ∷ ys
      → Fits b
      → ((c' : Config) → c'.pending ≡ reads_upstream ∷ (xs ++ ys) → IsRelaying c')
      → (c' : Config) × Relayed env c (from_storage b ∷ []) c'
  storage_Relayed c b xs ys e f k =
      let r = storage_chunk c b xs ys e f in
      (
        r.0,
        record {
          reached = r.1;
          relaying = k r.0 r.2;
          to_client = r.3 ∙ ap (◌++◌ c.to_client) (sym (append-nil b));
          to_backend = r.4 ∙ sym (append-nil c.to_backend);
        },
      )

  client_Relayed :
      (c : Config) (b : Bytes) (xs ys : List Op)
      → c.pending ≡ xs ++ reads_downstream ∷ ys
      → Fits b
      → ((c' : Config) → c'.pending ≡ reads_downstream ∷ (xs ++ ys) → IsRelaying c')
      → (c' : Config) × Relayed env c (from_client b ∷ []) c'
  client_Relayed c b xs ys e f k =
      let r = client_chunk c b xs ys e f in
      (
        r.0,
        record {
          reached = r.1;
          relaying = k r.0 r.2;
          to_client = r.3 ∙ sym (append-nil c.to_client);
          to_backend = r.4 ∙ ap (◌++◌ c.to_backend) (sym (append-nil b));
        },
      )

  one_chunk :
      (c : Config) (chunk : Chunk)
      → IsRelaying c
      → Fits (bytes_of chunk)
      → (c' : Config) × Relayed env c (chunk ∷ []) c'
  one_chunk c (from_storage b) (inl e) f =
      storage_Relayed c b [] (reads_downstream ∷ []) e f (λ c' q. inl q)
  one_chunk c (from_storage b) (inr e) f =
      storage_Relayed c b (reads_downstream ∷ []) [] e f (λ c' q. inl q)
  one_chunk c (from_client b) (inl e) f =
      client_Relayed c b (reads_upstream ∷ []) [] e f (λ c' q. inr q)
  one_chunk c (from_client b) (inr e) f =
      client_Relayed c b [] (reads_upstream ∷ []) e f (λ c' q. inr q)

  Relayed-trans :
      {c c' c'' : Config} (xs ys : List Chunk)
      → Relayed env c xs c'
      → Relayed env c' ys c''
      → Relayed env c (xs ++ ys) c''
  Relayed-trans {c} xs ys p q = record {
    reached = Reach-trans p.reached q.reached;
    relaying = q.relaying;
    to_client =
        q.to_client
        ∙ (ap (λ t. t ++ storage_bytes ys) p.to_client
            ∙ (append_assoc c.to_client (storage_bytes xs) (storage_bytes ys)
                ∙ ap (◌++◌ c.to_client) (sym (storage_bytes-append xs ys))));
    to_backend =
        q.to_backend
        ∙ (ap (λ t. t ++ client_bytes ys) p.to_backend
            ∙ (append_assoc c.to_backend (client_bytes xs) (client_bytes ys)
                ∙ ap (◌++◌ c.to_backend) (sym (client_bytes-append xs ys))));
  }

  -- Whatever the two sides send, chunk by chunk in any order, each chunk of up to a buffer: there is a
  -- run of the session in which all of it reaches the other side, and the session waits again.
  pub all_chunks :
      (chunks : List Chunk) (c : Config)
      → IsRelaying c
      → All (λ chunk. Fits (bytes_of chunk)) chunks
      → (c' : Config) × Relayed env c chunks c'
  all_chunks [] c r h = (
    c,
    record {
      reached = here;
      relaying = r;
      to_client = sym (append-nil c.to_client);
      to_backend = sym (append-nil c.to_backend);
    },
  )
  all_chunks (chunk ∷ chunks) c r h =
      let first = one_chunk c chunk r h.0 in
      let rest = all_chunks chunks first.0 first.1.relaying h.1 in
      (rest.0, Relayed-trans (chunk ∷ []) chunks first.1 rest.1)
