-- ===== src/Handshake.antt =====
-- `ParseSubversionHds` of src/SubversionHds.cc, with `SubversionHds` of src/SubversionHds.hpp: the
-- client's answer to the greeting, read byte by byte. A pointer into the buffer is the list of the
-- bytes from there on; `end` is the number that the address of the buffer's end is.
pub mod Run
pub mod RoundTrip
pub mod Outcome
use svnsrv.Base.{
  ℕ, zero, suc, ◌+◌, ◌-◌, ◌%◌, ◌^◌, Bool, false, not, ◌||◌, List, [], ◌∷◌, ◌++◌, Option, none, some,
  ◌==◌, leb, ltb, if◌then◌else◌, is_empty, length, take,
}
use svnsrv.Base.Int.{ℤ, pos, negsuc}
use svnsrv.Base.Text.{Bytes, codes}

pub record SubversionHds : Type 0 where
  pub protocol : ℕ
  pub capabilities : List Bytes
  pub subversion_url : Bytes
  pub user_agent : Bytes
  pub last_error : Bytes

-- `enum SubversionHdsState`
pub data Status : Type 0 where
  parse_reset protocol_parsed capabilities_parsed url_parsed rua_parsed : Status

-- The locals of the loop, with the object that it fills. `depth` is an `unsigned` of 32 bits.
pub record Scan : Type 0 where
  pub hds : SubversionHds
  pub tmp : Bytes
  pub status : Status
  pub depth : ℕ

-- What has no defined result: `std::string::assign` with a size over `max_size` throws
-- `std::length_error`, and a copy of bytes behind `end` would be undefined.
pub data Fault : Type 0 where
  length_error out_of_bounds : Fault

-- `err` is an early `return`, with the code and the object at that time.
pub data Result {ℓ} (A : Type ℓ) : Type ℓ where
  ok : A → Result A
  err : ℕ → SubversionHds → Result A
  fault : Fault → Result A

infixl 5 ◌>>=◌
abbrev pub ◌>>=◌ {ℓ κ} : {A : Type ℓ} {B : Type κ} → Result A → (A → Result B) → Result B
ok a >>= f = f a
err code hds >>= f = err code hds
fault e >>= f = fault e

unfoldable pub no_buffer : Bytes
no_buffer = codes "Malformed Network data,buffer is empty !"

unfoldable pub zero_byte : Bytes
zero_byte = codes "Malformed Network data !"

unfoldable pub url_too_long : Bytes
url_too_long = codes "Malformed Network data, URL string length mark too long !"

unfoldable pub client_too_long : Bytes
client_too_long = codes "Malformed Network data, ra-client string length mark too long !"

unfoldable pub no_url : Bytes
no_url = codes "Parse Subversion Handsake failed, cannot resolve url !"

abbrev pub fails {ℓ} : {A : Type ℓ} → Bytes → SubversionHds → Result A
fails message hds = err 2 (record hds { last_error = message })

-- `*p - '0'`, an `int`, stored in an `uint32_t`. A `char` is signed.
unfoldable pub protocol_of : ℕ → ℕ
protocol_of c = if ltb c 128 then (c + 2 ^ 32 - 48) % 2 ^ 32 else 2 ^ 32 - 48 - (256 - c)

-- `p + l + 1 >= end` on 64-bit addresses, where `end` is the address and `rest` holds the bytes from
-- `p + 1` on, so that `p` is `end - (length rest + 1)`. The address of `end` and any `long` are at
-- most 2^63, so the sum never wraps around with `l >= 0`. With `l = -(n + 1)` it is `p - n`: in front
-- of `end`, or else, below address 0, it wraps around to 2^63 or more and is behind it.
unfoldable pub past_end : ℕ → ℤ → Bytes → Bool
past_end end (pos l) rest = leb (length rest) l
past_end end (negsuc n) rest = ltb (end - (length rest + 1)) n

-- `assign(p, l)` on the bytes from `p` on; a negative `l` becomes a huge `size_t`.
unfoldable pub assign : ℤ → Bytes → Result Bytes
assign (pos l) rest = if leb l (length rest) then ok (take l rest) else fault out_of_bounds
assign (negsuc l) rest = fault length_error

-- How far `p += l` and the loop's `p++` go behind the `:`.
abbrev pub stride : ℤ → ℕ
stride (pos l) = l + 1
stride (negsuc l) = 0

-- The case of a space or a newline.
unfoldable pub end_word : Status → Scan → Scan
end_word protocol_parsed s = if is_empty s.tmp then s else record s {
  hds = record s.hds { capabilities = s.hds.capabilities ++ s.tmp ∷ [] };
  tmp = [];
}
end_word _ s = s

-- `return 2`, unless the length mark `l` keeps within the buffer; else the string is copied.
unfoldable pub read_string : ℕ → ℤ → Bytes → Bytes → SubversionHds → Result Bytes
unfolding past_end assign
read_string end l rest message hds =
    if past_end end l rest then fails message hds else assign l rest

abbrev pub start : SubversionHds → Scan
start hds = record { hds = hds; tmp = []; status = parse_reset; depth = 0 }

-- The test behind the loop.
unfoldable pub finish : Scan → Result SubversionHds
finish s = if is_empty s.hds.subversion_url then fails no_url s.hds else ok s.hds

module _ (strtol : Bytes → ℤ) (end : ℕ) where
  -- `case kCapabilitiesParsed`
  unfoldable pub url_byte : Scan → ℕ → Bytes → Result (Scan × ℕ)
  unfolding read_string
  url_byte s c rest =
      if not (c == b':')
      then ok (record s { tmp = s.tmp ++ c ∷ [] }, 0)
      else read_string end (strtol s.tmp) rest url_too_long s.hds >>= λ url. ok (
        record s { hds = record s.hds { subversion_url = url }; tmp = []; status = url_parsed },
        stride (strtol s.tmp),
      )

  -- `case kSubversionUrlParsed`, after its test of the depth
  unfoldable pub client_byte : Scan → ℕ → Bytes → Result (Scan × ℕ)
  unfolding read_string
  client_byte s c rest =
      if not (c == b':')
      then ok (record s { tmp = s.tmp ++ c ∷ [] }, 0)
      else read_string end (strtol s.tmp) rest client_too_long s.hds >>= λ client. ok (
        record s { hds = record s.hds { user_agent = client }; tmp = []; status = rua_parsed },
        stride (strtol s.tmp),
      )

  -- `switch (status)`. `case kProtocolParsed` falls through to the next at the end of the list.
  unfoldable pub status_byte : Status → Scan → ℕ → Bytes → Result (Scan × ℕ)
  unfolding protocol_of url_byte client_byte
  status_byte parse_reset s c rest = ok (
    if s.depth == 1
        then record s { hds = record s.hds { protocol = protocol_of c }; status = protocol_parsed }
        else s,
    0,
  )
  status_byte protocol_parsed s c rest =
      if s.depth == 2
      then ok (record s { tmp = s.tmp ++ c ∷ [] }, 0)
      else url_byte (record s { tmp = []; status = capabilities_parsed }) c rest
  status_byte capabilities_parsed s c rest = url_byte s c rest
  status_byte url_parsed s c rest =
      client_byte (if not (s.depth == 1) then record s { status = rua_parsed } else s) c rest
  status_byte rua_parsed s c rest = ok (s, 0)

  -- One round of the loop at the byte `c`, with the bytes `rest` behind it: the new state, and how
  -- many of those bytes the round itself passes over.
  unfoldable pub step : Scan → ℕ → Bytes → Result (Scan × ℕ)
  unfolding end_word status_byte
  step s c rest =
      if c == b'('
      then ok (record s { depth = (s.depth + 1) % 2 ^ 32 }, 0)
      else if c == b')'
      then ok (record s { depth = (s.depth + 2 ^ 32 - 1) % 2 ^ 32 }, 0)
      else if c == b' ' || c == b'\n'
      then ok (end_word s.status s, 0)
      else if c == 0
      then fails zero_byte s.hds
      else status_byte s.status s c rest

  -- The loop, with the number of bytes that `p` has still to pass over.
  unfoldable pub run : Scan → ℕ → Bytes → Result Scan
  unfolding step
  run s skip [] = ok s
  run s (suc skip) (c ∷ rest) = run s skip rest
  run s zero (c ∷ rest) = step s c rest >>= λ r. run r.0 r.1 rest

  unfoldable pub parse_bytes : Bytes → SubversionHds → Result SubversionHds
  unfolding run finish
  parse_bytes buffer hds =
      if is_empty buffer
      then err 1 (record hds { last_error = no_buffer })
      else run (start hds) 0 buffer >>= finish

  -- The whole function; `none` is the null pointer, `ok` is `return 0`.
  unfoldable pub parse : Option Bytes → SubversionHds → Result SubversionHds
  unfolding parse_bytes
  parse none hds = err 1 (record hds { last_error = no_buffer })
  parse (some buffer) hds = parse_bytes buffer hds
