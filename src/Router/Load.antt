-- ===== src/Router/Load.antt =====
-- `InitializeManager` of src/RouterSeletor.cc: the routing file becomes the table that `GetAddress`
-- looks up. What cpptoml reads is given by the hypotheses on its interface.
use svnsrv.Base.{
  ℕ, ◌<◌, true, false, ◌&&◌, List, [], ◌∷◌, ◌++◌, some, ◌≡◌, ◌≢◌, ◌⊎◌, inl, refl, is_empty, All,
  append-nil, append_assoc, arith,
}
use mathlib.Core.List.{map}
use svnsrv.Base.Run.{done, Ensures}
use svnsrv.Base.Text.{Bytes, codes}
use svnsrv.Toml.{Toml}
use svnsrv.Toml.Reads.{
  HasString, HasNumber, HasBool, string_or-HasString, int_or-HasNumber, bool_or-HasBool,
}
use svnsrv.Router.{
  StorageElement, HostElement, RouterSeletor, get_address, read_host, read_hosts,
  initialize_router_seletor,
}
use svnsrv.Router.Range.{IsForm, form_text, range_to_index-form_text}
use svnsrv.Router.Lookup.{Host, encode, route, storage_of, get_address-route}

module _ (toml : Toml) where
  open toml use {Table, parse_file, contains, get_string, get_int, get_bool, table_array}

  -- The table `t` of `Host.Content` describes the row `h`.
  pub record Describes (t : Table) (h : Host) : Type 0 where
    pub has_range : contains t (codes "range") ≡ true
    pub range : get_string t (codes "range") ≡ some (form_text h.form)
    pub has_address : contains t (codes "address") ≡ true
    pub address : get_string t (codes "address") ≡ some h.address
    pub port : HasNumber toml t (codes "port") h.port 16 3690
    pub enabled : HasBool toml t (codes "enable") h.enabled true
    pub form : IsForm h.form

  -- The tables that lack a range or an address describe no row.
  pub data Rows : List Table → List Host → Type 0 where
    nil : Rows [] []
    row :
        {t : Table} {h : Host} {ts : List Table} {hs : List Host}
        → Describes t h
        → Rows ts hs
        → Rows (t ∷ ts) (h ∷ hs)
    skip :
        {t : Table} {ts : List Table} {hs : List Host}
        → (contains t (codes "range") && contains t (codes "address")) ≡ false
        → Rows ts hs
        → Rows (t ∷ ts) hs

  read_host-Describes : (t : Table) (h : Host) → Describes t h → read_host toml t ≡ done (encode h)
  unfolding read_host
  read_host-Describes t h d = rw (
    string_or-HasString toml t (codes "range") (form_text h.form) [] (inl (d.has_range, d.range)),
    range_to_index-form_text h.form 0 0 d.form,
    string_or-HasString toml t (codes "address") h.address [] (inl (d.has_address, d.address)),
    int_or-HasNumber toml t (codes "port") h.port 16 3690 d.port,
    bool_or-HasBool toml t (codes "enable") h.enabled true d.enabled,
  )

  read_hosts-Rows :
      {ts : List Table} {hs : List Host} (es : List HostElement)
      → Rows ts hs
      → read_hosts toml ts es ≡ done (es ++ map encode hs)
  unfolding read_hosts
  read_hosts-Rows es nil = rw append-nil
  read_hosts-Rows es (row {t} {h} {ts} {hs} d r) = ground (
    arith,
    d.has_range,
    d.has_address,
    read_host-Describes t h d,
    read_hosts-Rows (es ++ encode h ∷ []) r,
    append_assoc es (encode h ∷ []) (map encode hs),
  )
  read_hosts-Rows es (skip {t} {ts} {hs} e r) = rw (e, read_hosts) (read_hosts-Rows es r)

  Rows-IsForm : {ts : List Table} {hs : List Host} → Rows ts hs → All (λ h. IsForm h.form) hs
  Rows-IsForm nil = tt
  Rows-IsForm (row d r) = (d.form, Rows-IsForm r)
  Rows-IsForm (skip e r) = Rows-IsForm r

  -- The file reads as this routing table: the default machine, and the rows of `Host.Content`.
  pub record IsRouting (g : Table) (ts : List Table) (hs : List Host) (address : Bytes) (port : ℕ)
      : Type 0 where
    pub default_address : HasString toml g (codes "Host.address") address (codes "192.168.1.12")
    pub default_port : HasNumber toml g (codes "Host.port") port 16 3690
    pub content : table_array g (codes "Host.Content") ≡ some ts
    pub rows : Rows ts hs
    pub some_machine : (address ≢ []) ⊎ (hs ≢ [])

  not_both_empty :
      (address : Bytes) (hs : List Host)
      → (address ≢ []) ⊎ (hs ≢ [])
      → (is_empty address && is_empty (map encode hs)) ≡ false
  not_both_empty [] [] h = ground arith
  not_both_empty [] (x ∷ hs) h = refl
  not_both_empty (c ∷ cs) hs h = refl

  initialize_IsRouting :
      (file : Bytes) {g : Table} {ts : List Table} {hs : List Host} {address : Bytes} {port : ℕ}
      (r : RouterSeletor)
      → file ≢ []
      → parse_file file ≡ some g
      → IsRouting g ts hs address port
      → r.host_element ≡ []
      → initialize_router_seletor toml file r
        ≡ done (
          true,
          record { host_element = map encode hs; default_element = address; default_port = port },
        )
  unfolding initialize_router_seletor
  initialize_IsRouting file {g} {ts} {hs} {address} {port} r ne p v fresh = ground (
    arith,
    string_or-HasString toml g (codes "Host.address") address (codes "192.168.1.12")
        v.default_address,
    int_or-HasNumber toml g (codes "Host.port") port 16 3690 v.default_port,
    v.content,
    read_hosts-Rows [] v.rows,
    not_both_empty address hs v.some_machine,
  )

  -- From the file to the answer: if cpptoml reads the routing file as rows with well-formed ranges,
  -- then a new selector loads it with success, and an owner whose first two bytes are ASCII is sent
  -- to the first enabled row whose range holds them, or to the default machine of the file.
  pub load_route :
      (file : Bytes) {g : Table} {ts : List Table} {hs : List Host} {address : Bytes} {port : ℕ}
      (r : RouterSeletor) (a b : ℕ) (rest : Bytes) (elem : StorageElement)
      → file ≢ []
      → parse_file file ≡ some g
      → IsRouting g ts hs address port
      → r.host_element ≡ []
      → a < 128
      → b < 128
      → Ensures
          (λ res.
            (res.0 ≡ true)
            × (get_address res.1 (a ∷ b ∷ rest) elem
                ≡ (true, storage_of address port (route hs (a, b)))))
          (initialize_router_seletor toml file r)
  load_route file {g} {ts} {hs} {address} {port} r a b rest elem ne p v fresh ha hb =
      rw (initialize_IsRouting file r ne p v fresh)
        (refl, get_address-route hs address port a b rest elem (Rows-IsForm v.rows) ha hb)
