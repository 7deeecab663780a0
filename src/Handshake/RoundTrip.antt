-- ===== src/Handshake/RoundTrip.antt =====
-- `ParseSubversionHds` of src/SubversionHds.cc on the answer that its comment describes:
--   ( 2 ( edit-pipeline svndiff1 ) 36:svn://subversion.io/subversion/trunk 14:SVN/1.8.13 x64 ( ) )
use svnsrv.Base.{
  ℕ, ◌+◌, ◌<◌, ◌^◌, List, [], ◌∷◌, ◌++◌, some, ◌≡◌, ◌≢◌, refl, ◌∙◌, ap, length, All, arith, ltb,
  if◌then◌else◌, ◌-◌,
}
use svnsrv.Base.Int.{ℤ, pos}
use svnsrv.Base.Text.{Bytes, IsDigit, decimal, Strtol}
use svnsrv.Handshake.{
  SubversionHds, Scan, protocol_parsed, capabilities_parsed, url_parsed, rua_parsed, ok, fault,
  length_error, run, start, protocol_of, parse, fails, url_too_long,
}
use svnsrv.Handshake.Run.{
  IsPlain, IsWord, words, run_mark, run_client_mark, run_rest, run-words, run_mark_first, run_url,
  run_negative, digit-IsPlain, run_client,
}

-- `( version ( capabilities ) ` and what follows it.
abbrev pub opening : ℕ → List Bytes → Bytes → Bytes
opening version capabilities rest =
    b'(' ∷ b' ' ∷ version ∷ b' ' ∷ b'(' ∷ b' ' ∷ words capabilities (b')' ∷ b' ' ∷ rest)

-- A string behind its length mark, as the protocol writes it, and the byte behind it.
abbrev pub counted : Bytes → Bytes → Bytes → Bytes
counted mark text rest = mark ++ (b':' ∷ (text ++ b' ' ∷ rest))

-- A decimal length mark of the string.
pub record Marks (mark text : Bytes) : Type 0 where
  pub not_empty : mark ≢ []
  pub digits : All IsDigit mark
  pub value : decimal mark ≡ length text
  pub fits : length text < 2 ^ 63

-- The loop behind the opening parenthesis of the list of capabilities, and behind its end.
abbrev opened : ℕ → SubversionHds → Scan
opened v hds = record {
  hds = record hds { protocol = protocol_of v };
  tmp = [];
  status = protocol_parsed;
  depth = 2;
}

abbrev pub listed : ℕ → List Bytes → SubversionHds → Scan
listed v caps hds = record {
  hds = record hds { protocol = protocol_of v; capabilities = hds.capabilities ++ caps };
  tmp = [];
  status = protocol_parsed;
  depth = 1;
}

module _ (strtol : Bytes → ℤ) (end : ℕ) where
  run_open :
      (v : ℕ) (rest : Bytes) (hds : SubversionHds)
      → IsPlain v
      → run strtol end (start hds) 0 (b'(' ∷ b' ' ∷ v ∷ b' ' ∷ b'(' ∷ b' ' ∷ rest)
        ≡ run strtol end (opened v hds) 0 rest
  unfolding run
  run_open v rest hds h = ground arith

  run_close :
      (rest : Bytes) (s : Scan)
      → s.status ≡ protocol_parsed
      → s.depth ≡ 2
      → s.tmp ≡ []
      → run strtol end s 0 (b')' ∷ b' ' ∷ rest)
        ≡ run strtol end (record s { depth = 1; tmp = [] }) 0 rest
  unfolding run
  run_close rest s m d t = ground arith

  pub run-opening :
      (v : ℕ) (caps : List Bytes) (rest : Bytes) (hds : SubversionHds)
      → IsPlain v
      → All IsWord caps
      → run strtol end (start hds) 0 (opening v caps rest)
        ≡ run strtol end (listed v caps hds) 0 rest
  run-opening v caps rest hds hv hc = ground (
    arith,
    run_open v (words caps (b')' ∷ b' ' ∷ rest)) hds hv,
    run-words strtol end caps (b')' ∷ b' ' ∷ rest) (opened v hds) refl refl refl hc,
    run_close rest (record (listed v caps hds) { depth = 2 }) refl refl refl,
  )

  -- The URL with its mark, from the end of the list of capabilities on.
  run_counted_url :
      (mark url rest : Bytes) (s : Scan)
      → s.status ≡ protocol_parsed
      → s.depth ≡ 1
      → mark ≢ []
      → All IsDigit mark
      → strtol mark ≡ pos (length url)
      → run strtol end s 0 (counted mark url rest)
        ≡ run strtol end
            (record s {
              hds = record s.hds { subversion_url = url };
              tmp = [];
              status = url_parsed;
            })
            0
            rest
  run_counted_url [] url rest s m d ne h e = absurd (ne refl)
  run_counted_url (c ∷ mark) url rest s m d ne h e = ground (
    arith,
    run_mark_first strtol end c (counted mark url rest) s m d (digit-IsPlain c h.0).0
        (digit-IsPlain c h.0).1,
    run_mark strtol end mark (b':' ∷ (url ++ b' ' ∷ rest))
        (record s { tmp = c ∷ []; status = capabilities_parsed }) refl h.1,
    run_url strtol end url b' ' rest (record s { tmp = c ∷ mark; status = capabilities_parsed })
        refl e,
  )

  run_counted_client :
      (mark client rest : Bytes) (s : Scan)
      → s.status ≡ url_parsed
      → s.depth ≡ 1
      → s.tmp ≡ []
      → All IsDigit mark
      → strtol mark ≡ pos (length client)
      → run strtol end s 0 (counted mark client rest)
        ≡ run strtol end
            (record s { hds = record s.hds { user_agent = client }; tmp = []; status = rua_parsed })
            0
            rest
  run_counted_client mark client rest s m d t h e = ground (
    arith,
    run_client_mark strtol end mark (b':' ∷ (client ++ b' ' ∷ rest)) s m d h,
    run_client strtol end client b' ' rest (record s { tmp = mark }) m d e,
  )

reads_mark : (c : Strtol) (mark text : Bytes) → Marks mark text → c.strtol mark ≡ pos (length text)
reads_mark c mark text m = c.reads_digits mark m.digits (rw m.value m.fits) ∙ ap pos m.value

pub parse-parts :
    (c : Strtol) (end v : ℕ) (caps : List Bytes) (mark url mark' client junk : Bytes)
    (hds : SubversionHds)
    → IsPlain v
    → All IsWord caps
    → url ≢ []
    → Marks mark url
    → Marks mark' client
    → All (λ b. b ≢ 0) junk
    → parse c.strtol end (some (opening v caps (counted mark url (counted mark' client junk)))) hds
      ≡ ok (record {
        protocol = protocol_of v;
        capabilities = hds.capabilities ++ caps;
        subversion_url = url;
        user_agent = client;
        last_error = hds.last_error;
      })
unfolding parse
parse-parts c end v caps mark url mark' client junk hds hv hc ne m m' hj =
    let tail = counted mark' client junk in
    let s = listed v caps hds in
    let s1 = record s { hds = record s.hds { subversion_url = url }; status = url_parsed } in
    let s2 = record s1 { hds = record s1.hds { user_agent = client }; status = rua_parsed } in
    ground (
      arith,
      run-opening c.strtol end v caps (counted mark url tail) hds hv hc,
      run_counted_url c.strtol end mark url tail s refl refl m.not_empty m.digits
          (reads_mark c mark url m),
      run_counted_client c.strtol end mark' client junk s1 refl refl refl m'.digits
          (reads_mark c mark' client m'),
      run_rest c.strtol end junk s2 refl hj,
    )

-- An answer with a plain version byte, plain non-empty capabilities, a non-empty URL, a user agent
-- and nothing but non-zero bytes behind it gives 0 and just these parts, the capabilities behind
-- those that the object held, if the two length marks are decimal numerals that fit a `long`. The
-- URL and the user agent may hold any bytes. The version is the value of its
-- byte where that is a decimal digit.
pub parse-answer :
    (c : Strtol) (end v : ℕ) (caps : List Bytes) (mark url mark' client junk : Bytes)
    (hds : SubversionHds) (n : ℕ)
    → IsPlain v
    → All IsWord caps
    → url ≢ []
    → Marks mark url
    → Marks mark' client
    → All (λ b. b ≢ 0) junk
    → n < 10
    → (parse c.strtol end (some (opening v caps (counted mark url (counted mark' client junk)))) hds
        ≡ ok (record {
          protocol = protocol_of v;
          capabilities = hds.capabilities ++ caps;
          subversion_url = url;
          user_agent = client;
          last_error = hds.last_error;
        }))
      × (protocol_of (b'0' + n) ≡ n)
unfolding protocol_of
parse-answer c end v caps mark url mark' client junk hds n hv hc ne m m' hj digit =
    (parse-parts c end v caps mark url mark' client junk hds hv hc ne m m' hj, ground arith)

-- With a minus sign in front of the URL's length mark -(n + 1), whatever follows: `p + l + 1` is n
-- below the address of the colon. Unless that is below 0, the length test is passed and the call
-- throws `std::length_error`, which nothing on the way catches; else the sum wraps around and the
-- call returns 2 for a mark that is too long.
pub parse-negative_mark :
    (c : Strtol) (end v : ℕ) (caps : List Bytes) (mark rest : Bytes) (hds : SubversionHds) (n : ℕ)
    → IsPlain v
    → All IsWord caps
    → All IsDigit mark
    → decimal mark ≡ n + 1
    → n < 2 ^ 63
    → parse c.strtol end (some (opening v caps (b'-' ∷ (mark ++ b':' ∷ rest)))) hds ≡ (
        if ltb (end - (length rest + 1)) n
        then fails url_too_long (listed v caps hds).hds
        else fault length_error)
unfolding parse
parse-negative_mark c end v caps mark rest hds n hv hc hm e lt =
    let s = record (listed v caps hds) { tmp = b'-' ∷ []; status = capabilities_parsed } in
    ground (
      arith,
      run-opening c.strtol end v caps (b'-' ∷ (mark ++ b':' ∷ rest)) hds hv hc,
      run_mark_first c.strtol end b'-' (mark ++ b':' ∷ rest) (listed v caps hds) refl refl
          (omega arith) (omega arith),
      run_mark c.strtol end mark (b':' ∷ rest) s refl hm,
      run_negative c.strtol end rest (record s { tmp = b'-' ∷ mark }) n refl
          (c.reads_minus mark n hm e lt),
    )
