-- ===== src/Url/Segments.antt =====
-- The scanner of src/SubversionHds.cc against a description of a URL by its slashes.
use svnsrv.Base.{
  ℕ, zero, suc, [], ◌∷◌, ◌++◌, ◌≡◌, refl, ◌==◌, if◌then◌else◌, is_empty, append-nil, append_assoc,
  arith,
}
use svnsrv.Base.Text.{Bytes, codes}
use svnsrv.Url.{equal, SubversionUrl, fresh_url, authority_byte, scan}

-- The bytes in front of the first slash, and those behind it.
abbrev pub upto : Bytes → Bytes
upto [] = []
upto (c ∷ cs) = if c == b'/' then [] else c ∷ upto cs

abbrev pub beyond : Bytes → Bytes
beyond [] = []
beyond (c ∷ cs) = if c == b'/' then cs else beyond cs

-- What stands behind the n-th slash, and the segment that begins there.
abbrev pub after : ℕ → Bytes → Bytes
after zero url = url
after (suc n) url = beyond (after n url)

abbrev pub segment : ℕ → Bytes → Bytes
segment n url = upto (after n url)

abbrev pub drop_colons : Bytes → Bytes
drop_colons [] = []
drop_colons (c ∷ cs) = if c == b':' then drop_colons cs else c ∷ drop_colons cs

-- The authority segment, byte by byte.
unfoldable pub authority : SubversionUrl → Bytes → SubversionUrl
authority u [] = u
authority u (c ∷ cs) = authority (authority_byte [] u c) cs

scan_scheme :
    (cs : Bytes) (u : SubversionUrl)
    → scan [] 0 u cs
      ≡ scan [] 1 (record u { scheme = u.scheme ++ drop_colons (upto cs) }) (beyond cs)
unfolding scan
scan_scheme [] u = rw append-nil
scan_scheme (c ∷ cs) u = ground (
  arith,
  scan_scheme cs u,
  scan_scheme cs (record u { scheme = u.scheme ++ c ∷ [] }),
  append-nil u.scheme,
  append_assoc u.scheme (c ∷ []) (drop_colons (upto cs)),
)

scan_blank :
    (cs : Bytes) (u : SubversionUrl)
    → scan [] 1 u cs ≡ (if is_empty (upto cs) then scan [] 2 u (beyond cs) else (2, u))
unfolding scan
scan_blank [] u = refl
scan_blank (c ∷ cs) u = ground arith

scan-authority :
    (cs : Bytes) (u : SubversionUrl)
    → scan [] 2 u cs ≡ scan [] 3 (authority u (upto cs)) (beyond cs)
unfolding scan authority
scan-authority [] u = refl
scan-authority (c ∷ cs) u = ground (arith, scan-authority cs (authority_byte [] u c))

scan_owner :
    (cs : Bytes) (u : SubversionUrl)
    → scan [] 3 u cs ≡ scan [] 4 (record u { owner = u.owner ++ upto cs }) (beyond cs)
unfolding scan
scan_owner [] u = rw append-nil
scan_owner (c ∷ cs) u = ground (
  arith,
  scan_owner cs (record u { owner = u.owner ++ c ∷ [] }),
  append-nil u.owner,
  append_assoc u.owner (c ∷ []) (upto cs),
)

scan_repository :
    (cs : Bytes) (u : SubversionUrl)
    → scan [] 4 u cs ≡ scan [] 5 (record u { repository = u.repository ++ upto cs }) (beyond cs)
unfolding scan
scan_repository [] u = rw append-nil
scan_repository (c ∷ cs) u = ground (
  arith,
  scan_repository cs (record u { repository = u.repository ++ c ∷ [] }),
  append-nil u.repository,
  append_assoc u.repository (c ∷ []) (upto cs),
)

scan_path :
    (cs : Bytes) (u : SubversionUrl) → scan [] 5 u cs ≡ (0, record u { path = u.path ++ cs })
unfolding scan
scan_path [] u = rw append-nil
scan_path (c ∷ cs) u =
    ground
      (arith, scan_path cs (record u { path = u.path ++ c ∷ [] }), append_assoc u.path (c ∷ []) cs)

authority-frame :
    (seg : Bytes) (u : SubversionUrl)
    → authority u seg
      ≡ record u { account = (authority u seg).account; host = (authority u seg).host }
unfolding authority authority_byte
authority-frame [] u = refl
authority-frame (c ∷ cs) u = ground (arith, authority-frame cs (authority_byte [] u c))

-- `authority` reads and writes the account and the host only.
authority-local :
    (seg : Bytes) (u v : SubversionUrl)
    → u.account ≡ v.account
    → u.host ≡ v.host
    → ((authority u seg).account ≡ (authority v seg).account)
      × ((authority u seg).host ≡ (authority v seg).host)
unfolding authority authority_byte
authority-local [] u v a h = (a, h)
authority-local (c ∷ cs) u v a h =
    authority-local cs (authority_byte [] u c) (authority_byte [] v c) (ground arith) (ground arith)

-- The port that goes with a scheme.
abbrev pub default_port : Bytes → ℕ
default_port scheme = if equal scheme (codes "svn+ssh") then 21 else 3690

-- The URL object that the slashes of `url` determine.
abbrev pub by_segments : Bytes → SubversionUrl
by_segments url = record {
  scheme = drop_colons (segment 0 url);
  account = (authority (fresh_url 0) (segment 2 url)).account;
  host = (authority (fresh_url 0) (segment 2 url)).host;
  port = default_port (drop_colons (segment 0 url));
  owner = segment 3 url;
  repository = segment 4 url;
  path = b'/' ∷ after 5 url;
}

-- What is left behind where the second segment is not empty.
abbrev pub rejected : Bytes → ℕ → SubversionUrl
rejected url port = record (fresh_url port) {
  scheme = drop_colons (segment 0 url);
  path = b'/' ∷ [];
}

pub scan_segments :
    (url : Bytes) (port : ℕ)
    → scan [] 0 (record (fresh_url port) { path = b'/' ∷ [] }) url ≡ (
        if is_empty (segment 1 url)
        then (0, record (by_segments url) { port = port })
        else (2, rejected url port))
scan_segments url port =
    let u = rejected url port in
    let v = authority u (segment 2 url) in
    let w = record v { owner = v.owner ++ segment 3 url } in
    let x = record w { repository = w.repository ++ segment 4 url } in
    ground (
      arith,
      scan_scheme url (record (fresh_url port) { path = b'/' ∷ [] }),
      scan_blank (after 1 url) u,
      scan-authority (after 2 url) u,
      scan_owner (after 3 url) v,
      scan_repository (after 4 url) w,
      scan_path (after 5 url) x,
      authority-frame (segment 2 url) u,
      authority-local (segment 2 url) u (fresh_url 0) refl refl,
    )
