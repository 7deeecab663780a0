-- ===== src/Url/Forms.antt =====
-- The forms of URL that a client sends, through `SubversionUriCanonicalize` of
-- src/SubversionHds.cc: with no account, with an account, and with a port.
use svnsrv.Base.{ℕ, [], ◌∷◌, ◌++◌, ◌≡◌, refl, ◌∙◌, append-nil, All, All-append, arith}
use svnsrv.Base.Int.{ℤ}
use svnsrv.Base.Text.{Bytes}
use svnsrv.Url.{SubversionUrl, fresh_url, canonicalize}
use svnsrv.Url.Segments.{default_port, authority}
use svnsrv.Url.Authority.{IsName, authority-names, authority-at, authority-colon}
use svnsrv.Url.Correct.{NoSlash, IsSchemeByte, render, IsLayout, canonicalize-render_fields}

IsName-NoSlash : (seg : Bytes) → All IsName seg → All NoSlash seg
IsName-NoSlash [] h = tt
IsName-NoSlash (c ∷ cs) h = (h.0.0, IsName-NoSlash cs h.1)

authority_end : (u : SubversionUrl) → authority u [] ≡ u
unfolding authority
authority_end u = refl

authority_host :
    (host : Bytes)
    → All IsName host
    → authority (fresh_url 0) host ≡ record (fresh_url 0) { host = host }
authority_host host h = ground (
  arith,
  authority-names host [] (fresh_url 0) h,
  authority_end (record (fresh_url 0) { host = host }),
  append-nil host,
)

authority_account :
    (account host : Bytes)
    → All IsName account
    → All IsName host
    → authority (fresh_url 0) (account ++ b'@' ∷ host)
      ≡ record (fresh_url 0) { account = account; host = host }
authority_account account host a h =
    let u = record (fresh_url 0) { account = account } in
    ground (
      arith,
      authority-names account (b'@' ∷ host) (fresh_url 0) a,
      authority-at host (record (fresh_url 0) { host = account }),
      authority-names host [] u h,
      authority_end (record u { host = host }),
      append-nil host,
    )

authority_port :
    (host digits : Bytes)
    → All IsName host
    → All IsName digits
    → authority (fresh_url 0) (host ++ b':' ∷ digits) ≡ record (fresh_url 0) { host = digits }
authority_port host digits h d = ground (
  arith,
  authority-names host (b':' ∷ digits) (fresh_url 0) h,
  authority-colon digits (record (fresh_url 0) { host = host }),
  authority-names digits [] (fresh_url 0) d,
  authority_end (record (fresh_url 0) { host = digits }),
  append-nil digits,
)

-- The parts that a URL is written from.
pub record IsParts (scheme host owner repository : Bytes) : Type 0 where
  pub scheme_bytes : All IsSchemeByte scheme
  pub host_bytes : All IsName host
  pub owner_bytes : All NoSlash owner
  pub repository_bytes : All NoSlash repository

module _ (strtol : Bytes → ℤ) (port : ℕ) (scheme host owner repository path : Bytes) where
  layout :
      (auth : Bytes)
      → All NoSlash auth
      → IsParts scheme host owner repository
      → IsLayout scheme auth owner repository
  layout auth a p = record {
    scheme_bytes = p.scheme_bytes;
    authority_bytes = a;
    owner_bytes = p.owner_bytes;
    repository_bytes = p.repository_bytes;
  }

  -- A URL `scheme://host/owner/repository/path` is taken apart into just these parts, with no
  -- account and the default port, if no slash or colon stands in the scheme, no slash, colon or
  -- `@` in the host, and no slash in the owner or the repository. The path gets a slash in front.
  pub canonicalize-render :
      IsParts scheme host owner repository
      → canonicalize strtol (render scheme host owner repository path) (fresh_url port) ≡ (
        0,
        record {
          scheme = scheme;
          account = [];
          host = host;
          port = default_port scheme;
          owner = owner;
          repository = repository;
          path = b'/' ∷ path;
        },
      )
  canonicalize-render p =
      canonicalize-render_fields strtol port path (layout host (IsName-NoSlash host p.host_bytes) p)
      ∙ rw (authority_host host p.host_bytes)

  -- The same for `scheme://account@host/owner/repository/path`, whose account has no slash, colon
  -- or `@` either: the account is kept apart from the host.
  canonicalize-render_account :
      (account : Bytes)
      → All IsName account
      → IsParts scheme host owner repository
      → canonicalize strtol
          (render scheme (account ++ b'@' ∷ host) owner repository path)
          (fresh_url port)
        ≡ (
          0,
          record {
            scheme = scheme;
            account = account;
            host = host;
            port = default_port scheme;
            owner = owner;
            repository = repository;
            path = b'/' ∷ path;
          },
        )
  canonicalize-render_account account a p =
      canonicalize-render_fields strtol port path (
        layout (account ++ b'@' ∷ host)
          (All-append NoSlash account (b'@' ∷ host) (IsName-NoSlash account a)
            ((λ e. absurd (omega arith)), IsName-NoSlash host p.host_bytes))
          p)
      ∙ rw (authority_account account host a p.host_bytes)

  -- In `scheme://host:digits/owner/repository/path` the port is lost: the digits end up as the
  -- host, the host that was written is dropped, and the port is the default of the scheme.
  pub canonicalize-render_port :
      (digits : Bytes)
      → All IsName digits
      → IsParts scheme host owner repository
      → canonicalize strtol
          (render scheme (host ++ b':' ∷ digits) owner repository path)
          (fresh_url port)
        ≡ (
          0,
          record {
            scheme = scheme;
            account = [];
            host = digits;
            port = default_port scheme;
            owner = owner;
            repository = repository;
            path = b'/' ∷ path;
          },
        )
  canonicalize-render_port digits d p =
      canonicalize-render_fields strtol port path (
        layout (host ++ b':' ∷ digits)
          (All-append NoSlash host (b':' ∷ digits) (IsName-NoSlash host p.host_bytes)
            ((λ e. absurd (omega arith)), IsName-NoSlash digits d))
          p)
      ∙ rw (authority_port host digits p.host_bytes d)
