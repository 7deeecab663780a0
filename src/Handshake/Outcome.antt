-- ===== src/Handshake/Outcome.antt =====
-- What `ParseSubversionHds` of src/SubversionHds.cc can return, over all buffers.
use svnsrv.Base.{
  ℕ, zero, suc, Bool, true, false, [], ◌∷◌, Option, none, some, ◌≡◌, ◌≢◌, ◌⊎◌, inl, inr, refl, ◌==◌,
  is_empty, Bool-cases, All, All-append, arith,
}
use svnsrv.Base.Int.{ℤ}
use svnsrv.Base.Text.{Bytes}
use svnsrv.Handshake.{
  SubversionHds, Status, parse_reset, protocol_parsed, capabilities_parsed, url_parsed, rua_parsed,
  Scan, length_error, Result, ok, err, fault, ◌>>=◌, no_buffer, zero_byte, url_too_long,
  client_too_long, no_url, end_word, url_byte, client_byte, status_byte, step, run, start, finish,
  parse,
}
use svnsrv.Handshake.Run.{IsPlain, IsWord}

abbrev pub IsMessage : Bytes → Type 0
IsMessage m = (m ≡ zero_byte) ⊎ (m ≡ url_too_long) ⊎ (m ≡ client_too_long) ⊎ (m ≡ no_url)

-- All capabilities are words, `tmp` may become one, and no error is noted.
record Inv (e : Bytes) (s : Scan) : Type 0 where
  caps_are_words : All IsWord s.hds.capabilities
  tmp_is_plain : All IsPlain s.tmp
  no_error : s.hds.last_error ≡ e

abbrev Fails : ℕ → SubversionHds → Type 0
Fails code hds = (code ≡ 2) × IsMessage hds.last_error

abbrev StepOutcome : Bytes → Result (Scan × ℕ) → Type 0
StepOutcome e (ok r) = Inv e r.0
StepOutcome e (err code hds) = Fails code hds
StepOutcome e (fault f) = f ≡ length_error

abbrev RunOutcome : Bytes → Result Scan → Type 0
RunOutcome e (ok s) = Inv e s
RunOutcome e (err code hds) = Fails code hds
RunOutcome e (fault f) = f ≡ length_error

bind-RunOutcome :
    (e : Bytes) (m : Result (Scan × ℕ)) (f : Scan × ℕ → Result Scan)
    → StepOutcome e m
    → ((r : Scan × ℕ) → Inv e r.0 → RunOutcome e (f r))
    → RunOutcome e (m >>= f)
bind-RunOutcome e (ok r) f v k = k r v
bind-RunOutcome e (err code hds) f v k = v
bind-RunOutcome e (fault x) f v k = v

not_empty : (xs : Bytes) → is_empty xs ≡ false → xs ≢ []
not_empty [] h = cc
not_empty (x ∷ xs) h = λ e. cc

end_word-Inv : (m : Status) (e : Bytes) (s : Scan) → Inv e s → Inv e (end_word m s)
unfolding end_word
end_word-Inv protocol_parsed e s v = elim (Bool-cases (is_empty s.tmp)) [
  | inl empty ↦ rw empty v
  | inr full ↦ rw full (record {
    caps_are_words =
        All-append IsWord s.hds.capabilities (s.tmp ∷ []) v.caps_are_words
          ((not_empty s.tmp full, v.tmp_is_plain), tt);
    tmp_is_plain = tt;
    no_error = v.no_error;
  })
]
end_word-Inv _ e s v = v

module _ (strtol : Bytes → ℤ) (end : ℕ) where
  url_byte-Inv :
      (e : Bytes) (s : Scan) (c : ℕ) (rest : Bytes)
      → Inv e s
      → IsPlain c
      → StepOutcome e (url_byte strtol end s c rest)
  unfolding url_byte
  url_byte-Inv e s c rest v h =
      ground (arith, All-append IsPlain s.tmp (c ∷ []) v.tmp_is_plain (h, tt))

  client_byte-Inv :
      (e : Bytes) (s : Scan) (c : ℕ) (rest : Bytes)
      → Inv e s
      → IsPlain c
      → StepOutcome e (client_byte strtol end s c rest)
  unfolding client_byte
  client_byte-Inv e s c rest v h =
      ground (arith, All-append IsPlain s.tmp (c ∷ []) v.tmp_is_plain (h, tt))

  status_byte-Inv :
      (m : Status) (e : Bytes) (s : Scan) (c : ℕ) (rest : Bytes)
      → Inv e s
      → IsPlain c
      → StepOutcome e (status_byte strtol end m s c rest)
  unfolding status_byte
  status_byte-Inv parse_reset e s c rest v h = ground arith
  status_byte-Inv protocol_parsed e s c rest v h =
      ground (arith, All-append IsPlain s.tmp (c ∷ []) v.tmp_is_plain (h, tt))
  status_byte-Inv capabilities_parsed e s c rest v h = url_byte-Inv e s c rest v h
  status_byte-Inv url_parsed e s c rest v h = elim (Bool-cases (s.depth == 1)) [
    | inl d ↦ rw (d, status_byte) (client_byte-Inv e s c rest v h)
    | inr d ↦
        rw (d, status_byte)
          (client_byte-Inv e (record s { status = rua_parsed }) c rest
            (record {
              caps_are_words = v.caps_are_words;
              tmp_is_plain = v.tmp_is_plain;
              no_error = v.no_error;
            })
            h)
  ]
  status_byte-Inv rua_parsed e s c rest v h = v

  step-Inv :
      (e : Bytes) (s : Scan) (c : ℕ) (rest : Bytes)
      → Inv e s
      → StepOutcome e (step strtol end s c rest)
  unfolding step
  step-Inv e s c rest v =
      ground (arith, end_word-Inv s.status e s v, status_byte-Inv s.status e s c rest v)

  run-Inv :
      (rest : Bytes) (skip : ℕ) (e : Bytes) (s : Scan)
      → Inv e s
      → RunOutcome e (run strtol end s skip rest)
  unfolding run
  run-Inv [] skip e s v = v
  run-Inv (c ∷ rest) (suc skip) e s v = run-Inv rest skip e s v
  run-Inv (c ∷ rest) zero e s v =
      bind-RunOutcome e (step strtol end s c rest) (λ r. run strtol end r.0 r.1 rest)
        (step-Inv e s c rest v) (λ r w. run-Inv rest r.1 e r.0 w)

-- Whether the buffer is null or empty.
abbrev pub is_blank : Option Bytes → Bool
is_blank none = true
is_blank (some buffer) = is_empty buffer

abbrev pub IsOutcome : Option Bytes → SubversionHds → Result SubversionHds → Type 0
IsOutcome buffer before (ok hds) =
    (hds.subversion_url ≢ []) × All IsWord hds.capabilities × (hds.last_error ≡ before.last_error)
IsOutcome buffer before (err code hds) =
    ((is_blank buffer ≡ true) × (code ≡ 1) × (hds.last_error ≡ no_buffer))
    ⊎ ((is_blank buffer ≡ false) × (code ≡ 2) × IsMessage hds.last_error)
IsOutcome buffer before (fault f) = f ≡ length_error

finish-IsOutcome :
    (buffer : Bytes) (hds : SubversionHds) (m : Result Scan)
    → is_empty buffer ≡ false
    → RunOutcome hds.last_error m
    → IsOutcome (some buffer) hds (m >>= finish)
unfolding finish
finish-IsOutcome buffer hds (ok s) ne v = elim (Bool-cases (is_empty s.hds.subversion_url)) [
  | inl e ↦ rw e (inr (ne, refl, inr (inr (inr refl))))
  | inr e ↦ rw e (not_empty s.hds.subversion_url e, v.caps_are_words, v.no_error)
]
finish-IsOutcome buffer hds (err code h) ne v = inr (ne, v.0, v.1)
finish-IsOutcome buffer hds (fault f) ne v = v

-- Whatever `strtol` returns, wherever the buffer stands, and for any buffer and any object whose capabilities are words:
-- the call never copies bytes from behind the buffer, and throws `std::length_error` at most. It
-- returns 0 only with a URL that is not
-- empty, with capabilities that are words and with no new error text. It returns 1 just where the
-- buffer is null or empty, and else 2, each time with one of the error texts of that code.
pub parse-IsOutcome :
    (strtol : Bytes → ℤ) (end : ℕ) (buffer : Option Bytes) (hds : SubversionHds)
    → All IsWord hds.capabilities
    → IsOutcome buffer hds (parse strtol end buffer hds)
unfolding parse
parse-IsOutcome strtol end none hds h = inl (refl, refl, refl)
parse-IsOutcome strtol end (some []) hds h = inl (refl, refl, refl)
parse-IsOutcome strtol end (some (c ∷ cs)) hds h =
    finish-IsOutcome (c ∷ cs) hds (run strtol end (start hds) 0 (c ∷ cs)) refl (
      run-Inv strtol end (c ∷ cs) 0 hds.last_error (start hds)
        (record { caps_are_words = h; tmp_is_plain = tt; no_error = refl }))
