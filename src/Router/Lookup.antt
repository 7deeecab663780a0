-- ===== src/Router/Lookup.antt =====
-- `GetAddress` of src/RouterSeletor.cc against a specification by intervals of two-byte keys.
use svnsrv.Base.{
  ℕ, ◌≤◌, ◌<◌, Bool, true, false, ◌&&◌, ◌||◌, List, [], ◌∷◌, Option, none, some, ◌≡◌, ◌⊎◌, inl, inr,
  refl, ◌==◌, ltb, leb, if◌then◌else◌, length, get_or, All, Any, Bool-cases, arith,
}
use mathlib.Core.List.{map}
use svnsrv.Base.Text.{Bytes}
use svnsrv.Router.{
  StorageElement, HostElement, RouterSeletor, index_of, owner_index, find_host, get_address,
}
use svnsrv.Router.Range.{
  Form, one, between, Side, letter, letters, IsForm, IsSide, lower, upper, first_key, last_key,
}

-- A row of the routing table.
pub record Host : Type 0 where
  pub form : Form
  pub port : ℕ
  pub enabled : Bool
  pub address : Bytes

-- The order of keys: by the first byte, then by the second.
abbrev pub key_leb : ℕ × ℕ → ℕ × ℕ → Bool
key_leb j k = ltb j.0 k.0 || (j.0 == k.0 && leb j.1 k.1)

abbrev pub covers : Form → ℕ × ℕ → Bool
covers x k = key_leb (lower x) k && key_leb k (upper x)

-- The first enabled row whose interval holds the key.
abbrev pub route : List Host → ℕ × ℕ → Option Host
route [] k = none
route (h ∷ hs) k = if covers h.form k && h.enabled then some h else route hs k

-- How the program stores a row.
abbrev pub encode : Host → HostElement
encode h = record {
  begin = index_of (lower h.form).0 (lower h.form).1;
  end = index_of (upper h.form).0 (upper h.form).1;
  port = h.port;
  enabled = h.enabled;
  address = h.address;
}

abbrev IsKey : ℕ × ℕ → Type 0
IsKey k = (k.0 < 128) × (k.1 < 128)

-- On ASCII keys the order of the 16-bit numbers is the order of the keys.
index_of-leb :
    (j k : ℕ × ℕ) → IsKey j → IsKey k → leb (index_of j.0 j.1) (index_of k.0 k.1) ≡ key_leb j k
unfolding index_of
index_of-leb j k hj hk = ground arith

first_key-IsKey : (x : Side) → IsSide x → IsKey (first_key x) × IsKey (last_key x)
first_key-IsKey (letter a) h = omega arith
first_key-IsKey (letters a b) h = omega arith

form-IsKey : (x : Form) → IsForm x → IsKey (lower x) × IsKey (upper x)
form-IsKey (one x) h = ((first_key-IsKey x h).0, (first_key-IsKey x h).1)
form-IsKey (between x y) h = ((first_key-IsKey x h.0).0, (first_key-IsKey y h.1).1)

find_host-route :
    (hs : List Host) (k : ℕ × ℕ)
    → All (λ h. IsForm h.form) hs
    → IsKey k
    → find_host (index_of k.0 k.1) (map encode hs)
      ≡ (elim (route hs k) [ none ↦ none | some h ↦ some (encode h) ])
unfolding find_host
find_host-route [] k f hk = refl
find_host-route (h ∷ hs) k f hk = ground (
  arith,
  index_of-leb (lower h.form) k (form-IsKey h.form f.0).0 hk,
  index_of-leb k (upper h.form) hk (form-IsKey h.form f.0).1,
  find_host-route hs k f.1 hk,
)

-- What the caller is to get for a row, or with none for the default machine.
abbrev pub storage_of : Bytes → ℕ → Option Host → StorageElement
storage_of address port none = record { address = address; port = port }
storage_of address port (some h) = record { address = h.address; port = h.port }

-- With a table of well-formed ranges, an owner whose first two bytes are ASCII is sent to the first
-- enabled machine whose range holds those two bytes, in the order of the bytes, and to the default
-- machine where there is none, whatever stood in the element before.
pub get_address-route :
    (hs : List Host) (address : Bytes) (port a b : ℕ) (rest : Bytes) (elem : StorageElement)
    → All (λ h. IsForm h.form) hs
    → a < 128
    → b < 128
    → get_address
        (record { host_element = map encode hs; default_element = address; default_port = port })
        (a ∷ b ∷ rest)
        elem
      ≡ (true, storage_of address port (route hs (a, b)))
unfolding get_address
get_address-route hs address port a b rest elem f ha hb =
    ground (arith, find_host-route hs (a, b) f (ha, hb))

abbrev pub Covers : ℕ → HostElement → Type 0
Covers index e = (e.enabled ≡ true) × (e.begin ≤ index) × (index ≤ e.end)

-- What `GetAddress` may leave in the element for an index: the default if no enabled host covers
-- the index, and else such a host.
abbrev pub IsAnswer : RouterSeletor → ℕ → StorageElement → Type 0
IsAnswer r index elem =
    (All (λ e. ¬ Covers index e) r.host_element
      × (elem.address ≡ r.default_element)
      × (elem.port ≡ r.default_port))
    ⊎ Any (λ e. Covers index e × (elem.address ≡ e.address) × (elem.port ≡ e.port)) r.host_element

abbrev FoundBy : ℕ → List HostElement → Option HostElement → Type 0
FoundBy index es none = All (λ e. ¬ Covers index e) es
FoundBy index es (some h) =
    Any (λ e. Covers index e × (h.address ≡ e.address) × (h.port ≡ e.port)) es

FoundBy-cons :
    (index : ℕ) (e : HostElement) (es : List HostElement) (o : Option HostElement)
    → ¬ Covers index e
    → FoundBy index es o
    → FoundBy index (e ∷ es) o
FoundBy-cons index e es none miss f = (miss, f)
FoundBy-cons index e es (some h) miss f = inr f

find_host-FoundBy : (index : ℕ) (es : List HostElement) → FoundBy index es (find_host index es)
unfolding find_host
find_host-FoundBy index [] = tt
find_host-FoundBy index (e ∷ es) =
    elim (Bool-cases (leb e.begin index && leb index e.end && e.enabled)) [
      | inl hit ↦
          let q : find_host index (e ∷ es) ≡ some e = ground arith in
          rw q (inl ((ground arith, ground arith, ground arith), refl, refl))
      | inr out ↦
          let q : find_host index (e ∷ es) ≡ find_host index es = ground arith in
          rw q (
            FoundBy-cons index e es (find_host index es) (λ c. ground arith)
              (find_host-FoundBy index es))
    ]

FoundBy-IsAnswer :
    (r : RouterSeletor) (a b : ℕ) (rest : Bytes) (elem : StorageElement) (o : Option HostElement)
    → find_host (owner_index a b) r.host_element ≡ o
    → FoundBy (owner_index a b) r.host_element o
    → ((get_address r (a ∷ b ∷ rest) elem).0 ≡ true)
      × IsAnswer r (owner_index a b) (get_address r (a ∷ b ∷ rest) elem).1
unfolding get_address
FoundBy-IsAnswer r a b rest elem none q f = rw (q, get_address) (refl, inl (f, refl, refl))
FoundBy-IsAnswer r a b rest elem (some h) q f = rw (q, get_address) (refl, inr f)

-- For every selector, whatever its table: an owner of fewer than two bytes fails and leaves the
-- element alone. Any other succeeds, with a machine whose host is enabled and covers the owner's
-- index, or with the default if the table has no such host.
get_address-IsAnswer :
    (r : RouterSeletor) (owner : Bytes) (elem : StorageElement)
    → ((length owner < 2) × (get_address r owner elem ≡ (false, elem)))
      ⊎ ((2 ≤ length owner)
          × ((get_address r owner elem).0 ≡ true)
          × IsAnswer r
              (owner_index (get_or owner 0 0) (get_or owner 1 0))
              (get_address r owner elem).1)
unfolding get_address
get_address-IsAnswer r [] elem = inl (omega arith, refl)
get_address-IsAnswer r (a ∷ []) elem = inl (omega arith, refl)
get_address-IsAnswer r (a ∷ b ∷ rest) elem =
    let found = find_host (owner_index a b) r.host_element in
    let answer =
      FoundBy-IsAnswer r a b rest elem found refl
        (find_host-FoundBy (owner_index a b) r.host_element) in
    inr (omega arith, answer.0, answer.1)
