-- ===== src/Url.antt =====
-- `SubversionUriCanonicalize` of src/SubversionHds.cc: the URL scanner, byte by byte.
pub mod Segments
pub mod Authority
pub mod Correct
pub mod Forms
use svnsrv.Base.{
  ℕ, ◌+◌, Bool, true, false, not, ◌&&◌, [], ◌∷◌, ◌++◌, Option, none, some, ◌==◌, ltb, if◌then◌else◌,
  is_empty,
}
use svnsrv.Base.Int.{ℤ, to_unsigned}
use svnsrv.Base.Text.{Bytes, codes}

pub record SubversionUrl : Type 0 where
  pub scheme : Bytes
  pub account : Bytes
  pub host : Bytes
  pub port : ℕ
  pub owner : Bytes
  pub repository : Bytes
  pub path : Bytes

-- `std::string` members of a new object are empty; `port` is whatever the memory held.
abbrev pub fresh_url : ℕ → SubversionUrl
fresh_url port = record {
  scheme = [];
  account = [];
  host = [];
  port = port;
  owner = [];
  repository = [];
  path = [];
}

-- `std::string::compare(…) == 0`
unfoldable pub equal : Bytes → Bytes → Bool
equal [] [] = true
equal (x ∷ xs) (y ∷ ys) = x == y && equal xs ys
equal _ _ = false

-- `case 2`: `@` swaps the account and the host, `:` stores the port text in the host.
unfoldable pub authority_byte : Bytes → SubversionUrl → ℕ → SubversionUrl
authority_byte str_port u c =
    if c == b'@'
    then record u { account = u.host; host = u.account }
    else if c == b':'
    then record u { host = str_port }
    else record u { host = u.host ++ c ∷ [] }

-- The `switch (depth)`; `none` is its `return 2`.
unfoldable pub segment_byte : Bytes → ℕ → SubversionUrl → ℕ → Option SubversionUrl
unfolding authority_byte
segment_byte str_port depth u c =
    if depth == 0
    then some (if not (c == b':') then record u { scheme = u.scheme ++ c ∷ [] } else u)
    else if depth == 1
    then none
    else if depth == 2
    then some (authority_byte str_port u c)
    else if depth == 3
    then some (record u { owner = u.owner ++ c ∷ [] })
    else if depth == 4
    then some (record u { repository = u.repository ++ c ∷ [] })
    else some (record u { path = u.path ++ c ∷ [] })

-- The `for` loop over the bytes of the URL, with the code that it returns.
unfoldable pub scan : Bytes → ℕ → SubversionUrl → Bytes → ℕ × SubversionUrl
unfolding segment_byte
scan str_port depth u [] = (0, u)
scan str_port depth u (c ∷ cs) = elim (c == b'/' && ltb depth 5) [
  | true ↦ scan str_port (depth + 1) u cs
  | false ↦ elim (segment_byte str_port depth u c) [
    | none ↦ (2, u)
    | some v ↦ scan str_port depth v cs
  ]
]

-- The port: that of the scheme, unless a port text was found.
unfoldable pub choose_port : (Bytes → ℤ) → Bytes → SubversionUrl → ℕ
unfolding equal
choose_port strtol str_port u =
    if is_empty str_port
    then (if equal u.scheme (codes "svn")
        then 3690
        else if equal u.scheme (codes "svn+ssh")
        then 21
        else 3690)
    else to_unsigned 32 (strtol str_port)

-- What the loop's end makes of it: an early return leaves the port alone.
unfoldable pub set_port : (Bytes → ℤ) → Bytes → ℕ × SubversionUrl → ℕ × SubversionUrl
unfolding choose_port
set_port strtol str_port (code, u) =
    if code == 0 then (0, record u { port = choose_port strtol str_port u }) else (code, u)

-- The whole function: the return code and the URL object after the call.
unfoldable pub canonicalize : (Bytes → ℤ) → Bytes → SubversionUrl → ℕ × SubversionUrl
unfolding scan set_port
canonicalize strtol url u =
    let str_port : Bytes = [] in
    if is_empty url
    then (1, u)
    else set_port strtol str_port (scan str_port 0 (record u { path = u.path ++ b'/' ∷ [] }) url)
