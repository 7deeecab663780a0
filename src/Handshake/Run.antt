-- ===== src/Handshake/Run.antt =====
-- Runs of the loop of `ParseSubversionHds` (src/SubversionHds.cc) over one piece of the answer, with
-- any `rest` behind it.
use svnsrv.Base.{
  ℕ, suc, ◌+◌, ◌-◌, ◌%◌, ◌^◌, List, [], ◌∷◌, ◌++◌, ◌≡◌, ◌≢◌, refl, length, All, append-nil,
  append_assoc, length-append, take-append_self, arith, ltb, if◌then◌else◌,
}
use native.Mathlib.Numerals.{add-one}
use svnsrv.Base.Int.{ℤ, pos, negsuc}
use svnsrv.Base.Text.{Bytes, IsDigit}
use svnsrv.Handshake.{
  Scan, protocol_parsed, capabilities_parsed, url_parsed, rua_parsed, fault, length_error, run,
  finish, ◌>>=◌, fails, url_too_long,
}

-- A byte that the loop gives to its inner switch.
abbrev pub IsPlain : ℕ → Type 0
IsPlain c = (c ≢ b'(') × (c ≢ b')') × (c ≢ b' ') × (c ≢ b'\n') × (c ≢ 0)

abbrev pub IsWord : Bytes → Type 0
IsWord w = (w ≢ []) × All IsPlain w

-- Words, each with a space behind it.
abbrev pub words : List Bytes → Bytes → Bytes
words [] rest = rest
words (w ∷ ws) rest = w ++ (b' ' ∷ words ws rest)

pub digit-IsPlain : (c : ℕ) → IsDigit c → IsPlain c × (c ≢ b':')
digit-IsPlain c h = omega arith

module _ (strtol : Bytes → ℤ) (end : ℕ) where
  pub run_skip :
      (xs : Bytes) (c : ℕ) (s : Scan) (rest : Bytes)
      → run strtol end s (suc (length xs)) (xs ++ c ∷ rest) ≡ run strtol end s 0 rest
  unfolding run
  run_skip [] c s [] = refl
  run_skip [] c s (d ∷ rest) = refl
  run_skip (x ∷ xs) c s rest = run_skip xs c s rest

  pub run_word :
      (w rest : Bytes) (s : Scan)
      → s.status ≡ protocol_parsed
      → s.depth ≡ 2
      → All IsPlain w
      → run strtol end s 0 (w ++ rest) ≡ run strtol end (record s { tmp = s.tmp ++ w }) 0 rest
  unfolding run
  run_word [] rest s m d h = rw append-nil
  run_word (c ∷ w) rest s m d h = ground (
    arith,
    run_word w rest (record s { tmp = s.tmp ++ c ∷ [] }) m d h.1,
    append_assoc s.tmp (c ∷ []) w,
  )

  pub run_mark :
      (mark rest : Bytes) (s : Scan)
      → s.status ≡ capabilities_parsed
      → All IsDigit mark
      → run strtol end s 0 (mark ++ rest) ≡ run strtol end (record s { tmp = s.tmp ++ mark }) 0 rest
  unfolding run
  run_mark [] rest s m h = rw append-nil
  run_mark (c ∷ w) rest s m h = ground (
    arith,
    run_mark w rest (record s { tmp = s.tmp ++ c ∷ [] }) m h.1,
    append_assoc s.tmp (c ∷ []) w,
  )

  pub run_client_mark :
      (mark rest : Bytes) (s : Scan)
      → s.status ≡ url_parsed
      → s.depth ≡ 1
      → All IsDigit mark
      → run strtol end s 0 (mark ++ rest) ≡ run strtol end (record s { tmp = s.tmp ++ mark }) 0 rest
  unfolding run
  run_client_mark [] rest s m d h = rw append-nil
  run_client_mark (c ∷ w) rest s m d h = ground (
    arith,
    run_client_mark w rest (record s { tmp = s.tmp ++ c ∷ [] }) m d h.1,
    append_assoc s.tmp (c ∷ []) w,
  )

  -- Behind the user agent nothing but a zero byte matters.
  pub run_rest :
      (junk : Bytes) (s : Scan)
      → s.status ≡ rua_parsed
      → All (λ c. c ≢ 0) junk
      → (run strtol end s 0 junk >>= finish) ≡ finish s
  unfolding run finish
  run_rest [] s m h = refl
  run_rest (c ∷ junk) s m h = ground (
    arith,
    run_rest junk (record s { depth = (s.depth + 1) % 2 ^ 32 }) m h.1,
    run_rest junk (record s { depth = (s.depth + 2 ^ 32 - 1) % 2 ^ 32 }) m h.1,
    run_rest junk s m h.1,
  )

  -- The space behind a word moves it to the capabilities.
  run_space :
      (w rest : Bytes) (s : Scan)
      → s.status ≡ protocol_parsed
      → w ≢ []
      → run strtol end (record s { tmp = w }) 0 (b' ' ∷ rest)
        ≡ run strtol end
            (record s {
              hds = record s.hds { capabilities = s.hds.capabilities ++ w ∷ [] };
              tmp = [];
            })
            0
            rest
  unfolding run
  run_space [] rest s m ne = absurd (ne refl)
  run_space (c ∷ w) rest s m ne = ground arith

  pub run-words :
      (ws : List Bytes) (rest : Bytes) (s : Scan)
      → s.status ≡ protocol_parsed
      → s.depth ≡ 2
      → s.tmp ≡ []
      → All IsWord ws
      → run strtol end s 0 (words ws rest)
        ≡ run strtol end
            (record s { hds = record s.hds { capabilities = s.hds.capabilities ++ ws }; tmp = [] })
            0
            rest
  run-words [] rest s m d t h = ground (arith, append-nil s.hds.capabilities)
  run-words (w ∷ ws) rest s m d t h =
      let s1 = record s { tmp = w } in
      let s2 = record s {
        hds = record s.hds { capabilities = s.hds.capabilities ++ w ∷ [] };
        tmp = [];
      } in
      ground (
        arith,
        run_word w (b' ' ∷ words ws rest) s m d h.0.1,
        run_space w (words ws rest) s m h.0.0,
        run-words ws rest s2 m d refl h.1,
        append_assoc s.hds.capabilities (w ∷ []) ws,
      )

  -- The first byte of the length mark, which ends the list of capabilities.
  pub run_mark_first :
      (c : ℕ) (rest : Bytes) (s : Scan)
      → s.status ≡ protocol_parsed
      → s.depth ≡ 1
      → IsPlain c
      → c ≢ b':'
      → run strtol end s 0 (c ∷ rest)
        ≡ run strtol end (record s { tmp = c ∷ []; status = capabilities_parsed }) 0 rest
  unfolding run
  run_mark_first c rest s m d h ne = ground arith

  -- A negative length, unless the sum wraps around, is not past the end, and is copied.
  pub run_negative :
      (rest : Bytes) (s : Scan) (n : ℕ)
      → s.status ≡ capabilities_parsed
      → strtol s.tmp ≡ negsuc n
      → run strtol end s 0 (b':' ∷ rest)
        ≡ (if ltb (end - (length rest + 1)) n then fails url_too_long s.hds else fault length_error)
  unfolding run
  run_negative rest s n m e = ground arith

  pub run_url :
      (url : Bytes) (c : ℕ) (rest : Bytes) (s : Scan)
      → s.status ≡ capabilities_parsed
      → strtol s.tmp ≡ pos (length url)
      → run strtol end s 0 (b':' ∷ (url ++ c ∷ rest))
        ≡ run strtol end
            (record s {
              hds = record s.hds { subversion_url = url };
              tmp = [];
              status = url_parsed;
            })
            0
            rest
  unfolding run
  run_url url c rest s m e = ground (
    arith,
    length-append url (c ∷ rest),
    take-append_self url (c ∷ rest),
    add-one (length url),
    run_skip url c
        (record s { hds = record s.hds { subversion_url = url }; tmp = []; status = url_parsed })
        rest,
  )

  pub run_client :
      (client : Bytes) (c : ℕ) (rest : Bytes) (s : Scan)
      → s.status ≡ url_parsed
      → s.depth ≡ 1
      → strtol s.tmp ≡ pos (length client)
      → run strtol end s 0 (b':' ∷ (client ++ c ∷ rest))
        ≡ run strtol end
            (record s { hds = record s.hds { user_agent = client }; tmp = []; status = rua_parsed })
            0
            rest
  unfolding run
  run_client client c rest s m d e = ground (
    arith,
    length-append client (c ∷ rest),
    take-append_self client (c ∷ rest),
    add-one (length client),
    run_skip client c
        (record s { hds = record s.hds { user_agent = client }; tmp = []; status = rua_parsed })
        rest,
  )
