-- ===== src/Url/Correct.antt =====
-- `SubversionUriCanonicalize` of src/SubversionHds.cc against the parts of the URL.
use svnsrv.Base.{ℕ, true, false, [], ◌∷◌, ◌++◌, ◌≡◌, ◌≢◌, refl, if◌then◌else◌, is_empty, All, arith}
use svnsrv.Base.Int.{ℤ}
use svnsrv.Base.Text.{Bytes, codes}
use svnsrv.Url.{SubversionUrl, fresh_url, equal, choose_port, canonicalize}
use svnsrv.Url.Segments.{
  segment, upto, beyond, drop_colons, default_port, by_segments, rejected, scan_segments, authority,
}

equal→≡ : (a b : Bytes) → equal a b ≡ true → a ≡ b
unfolding equal
equal→≡ (x ∷ a) (y ∷ b) h = ground (arith, equal→≡ a b)
equal→≡ [] b h = ground arith
equal→≡ (x ∷ a) [] h = ground arith

choose_port_default :
    (strtol : Bytes → ℤ) (u : SubversionUrl) → choose_port strtol [] u ≡ default_port u.scheme
unfolding choose_port
choose_port_default strtol u =
    ground (arith, equal→≡ u.scheme (codes "svn"), equal→≡ u.scheme (codes "svn+ssh"))

-- For every URL, parsed into a new object: an empty URL gives 1 and changes nothing; a URL whose
-- text between its first two slashes is not empty gives 2; any other gives 0 and the object that
-- its slashes determine. So whatever `strtol` does, the port is the default of the scheme.
pub canonicalize_segments :
    (strtol : Bytes → ℤ) (url : Bytes) (port : ℕ)
    → canonicalize strtol url (fresh_url port) ≡ (
        if is_empty url
        then (1, fresh_url port)
        else if is_empty (segment 1 url)
        then (0, by_segments url)
        else (2, rejected url port))
unfolding canonicalize
canonicalize_segments strtol url port = ground (
  arith,
  scan_segments url port,
  choose_port_default strtol (record (by_segments url) { port = port }),
)

abbrev pub NoSlash : ℕ → Type 0
NoSlash c = c ≢ b'/'

abbrev pub IsSchemeByte : ℕ → Type 0
IsSchemeByte c = (c ≢ b'/') × (c ≢ b':')

-- `scheme://authority/owner/repository/path`
abbrev pub render : Bytes → Bytes → Bytes → Bytes → Bytes → Bytes
render scheme authority owner repository path =
    scheme
    ++ (b':'
        ∷ b'/'
        ∷ b'/'
        ∷ (authority ++ (b'/' ∷ (owner ++ (b'/' ∷ (repository ++ (b'/' ∷ path)))))))

upto-append : (seg rest : Bytes) → All NoSlash seg → upto (seg ++ b'/' ∷ rest) ≡ seg
upto-append [] rest h = refl
upto-append (c ∷ cs) rest h = ground (arith, upto-append cs rest h.1)

beyond-append : (seg rest : Bytes) → All NoSlash seg → beyond (seg ++ b'/' ∷ rest) ≡ rest
beyond-append [] rest h = refl
beyond-append (c ∷ cs) rest h = ground (arith, beyond-append cs rest h.1)

upto_scheme :
    (scheme rest : Bytes)
    → All IsSchemeByte scheme
    → (drop_colons (upto (scheme ++ b':' ∷ b'/' ∷ rest)) ≡ scheme)
      × (beyond (scheme ++ b':' ∷ b'/' ∷ rest) ≡ rest)
      × (is_empty (scheme ++ b':' ∷ b'/' ∷ rest) ≡ false)
upto_scheme [] rest h = (refl, refl, refl)
upto_scheme (c ∷ cs) rest h = ground (arith, upto_scheme cs rest h.1)

-- What the parts of a rendered URL have to be.
pub record IsLayout (scheme authority owner repository : Bytes) : Type 0 where
  pub scheme_bytes : All IsSchemeByte scheme
  pub authority_bytes : All NoSlash authority
  pub owner_bytes : All NoSlash owner
  pub repository_bytes : All NoSlash repository

module _ (strtol : Bytes → ℤ) (port : ℕ) {scheme auth owner repository : Bytes} where
  pub canonicalize-render_fields :
      (path : Bytes)
      → IsLayout scheme auth owner repository
      → canonicalize strtol (render scheme auth owner repository path) (fresh_url port) ≡ (
        0,
        record {
          scheme = scheme;
          account = (authority (fresh_url 0) auth).account;
          host = (authority (fresh_url 0) auth).host;
          port = default_port scheme;
          owner = owner;
          repository = repository;
          path = b'/' ∷ path;
        },
      )
  canonicalize-render_fields path l =
      let r4 : Bytes = repository ++ b'/' ∷ path in
      let r3 : Bytes = owner ++ b'/' ∷ r4 in
      let r2 : Bytes = auth ++ b'/' ∷ r3 in
      rw (
        canonicalize_segments strtol (render scheme auth owner repository path) port,
        (upto_scheme scheme (b'/' ∷ r2) l.scheme_bytes).0,
        (upto_scheme scheme (b'/' ∷ r2) l.scheme_bytes).1,
        (upto_scheme scheme (b'/' ∷ r2) l.scheme_bytes).2,
        upto-append auth r3 l.authority_bytes,
        beyond-append auth r3 l.authority_bytes,
        upto-append owner r4 l.owner_bytes,
        beyond-append owner r4 l.owner_bytes,
        upto-append repository path l.repository_bytes,
        beyond-append repository path l.repository_bytes,
      )
