-- ===== src/Url/Authority.antt =====
-- The authority part of a URL, `account@host`, in the scanner of src/SubversionHds.cc.
use svnsrv.Base.{ℕ, [], ◌∷◌, ◌++◌, ◌≡◌, ◌≢◌, refl, append-nil, append_assoc, All, arith}
use svnsrv.Base.Text.{Bytes}
use svnsrv.Url.{SubversionUrl, authority_byte}
use svnsrv.Url.Segments.{authority}

-- A byte that the scanner keeps in the authority part.
abbrev pub IsName : ℕ → Type 0
IsName c = (c ≢ b'/') × (c ≢ b'@') × (c ≢ b':')

-- Names are appended to the host.
pub authority-names :
    (seg rest : Bytes) (u : SubversionUrl)
    → All IsName seg
    → authority u (seg ++ rest) ≡ authority (record u { host = u.host ++ seg }) rest
unfolding authority authority_byte
authority-names [] rest u h = rw append-nil
authority-names (c ∷ cs) rest u h = ground (
  arith,
  authority-names cs rest (record u { host = u.host ++ c ∷ [] }) h.1,
  append_assoc u.host (c ∷ []) cs,
)

pub authority-at :
    (rest : Bytes) (u : SubversionUrl)
    → authority u (b'@' ∷ rest) ≡ authority (record u { account = u.host; host = u.account }) rest
unfolding authority authority_byte
authority-at rest u = refl

-- A colon throws away the host that was read so far.
pub authority-colon :
    (rest : Bytes) (u : SubversionUrl)
    → authority u (b':' ∷ rest) ≡ authority (record u { host = [] }) rest
unfolding authority authority_byte
authority-colon rest u = refl
