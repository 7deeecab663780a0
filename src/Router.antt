-- ===== src/Router.antt =====
-- src/RouterSeletor.cc and src/RouterSeletor.hpp: the routing table, which maps the first two bytes
-- of a repository's owner to a storage machine.
pub mod Range
pub mod Lookup
pub mod Load
use svnsrv.Base.{
  ℕ, zero, suc, ◌+◌, ◌-◌, ◌*◌, ◌%◌, ◌^◌, Bool, true, false, not, ◌&&◌, ◌||◌, List, [], ◌∷◌, ◌++◌,
  Option, none, some, ◌==◌, leb, ltb, if◌then◌else◌, is_empty, length, get_or, set,
}
use svnsrv.Base.Int.{ℤ, to_unsigned}
use svnsrv.Base.Run.{Run, done, crash, ◌>>=◌}
use svnsrv.Base.Text.{Bytes, codes}
use svnsrv.Toml.{Toml, string_or, int_or, bool_or}
use svnsrv.Url.{SubversionUrl}

pub record StorageElement : Type 0 where
  pub port : ℕ
  pub address : Bytes

pub record HostElement : Type 0 where
  pub begin : ℕ
  pub end : ℕ
  pub port : ℕ
  pub enabled : Bool
  pub address : Bytes

pub record RouterSeletor : Type 0 where
  pub host_element : List HostElement
  pub default_element : Bytes
  pub default_port : ℕ

-- The locals of `RangeToIndex`: the array `in`, the pointer into it as an index, and the counter.
pub record Fill : Type 0 where
  pub cells : Bytes
  pub p : ℕ
  pub i : ℕ
  pub is_split : Bool

abbrev pub start : Fill
start = record {
  cells = b'-' ∷ b'-' ∷ b'z' ∷ b'z' ∷ 0 ∷ 0 ∷ 0 ∷ 0 ∷ [];
  p = 0;
  i = 0;
  is_split = false;
}

-- A write to the array, which crashes out of its bounds.
unfoldable pub store : Bytes → ℕ → ℕ → Run Bytes
store cells p c = if ltb p (length cells) then done (set cells p c) else crash

unfoldable pub fill_byte : Fill → ℕ → Run Fill
unfolding store
fill_byte s c =
    if c == b'~'
    then done (record s { p = 2; is_split = true; i = s.i + 1 })
    else store s.cells s.p c >>= λ cells.
        done (record s { cells = cells; p = s.p + 1; i = s.i + 1 })

-- The `for` loop, over the text up to its zero byte.
unfoldable pub fill : Bytes → Fill → Run Fill
unfolding fill_byte
fill [] s = done s
fill (c ∷ cs) s = elim (c == 0 || leb 5 s.i) [
  | true ↦ done s
  | false ↦ fill_byte s c >>= λ t. fill cs t
]

-- `if (!isSplit)`: one or two bytes with no tilde stand for both ends.
unfoldable pub no_tilde : Bytes → Fill → Run Bytes
unfolding store
no_tilde range s =
    if not s.is_split
    then (if s.i == 1
        then store s.cells 2 (get_or range 0 0)
        else if s.i == 2
        then (store s.cells 2 (get_or range 0 0) >>= λ cells. store cells 3 (get_or range 1 0))
        else done s.cells)
    else done s.cells

-- `(uint16_t)a * 0x200 + b`, stored in an `uint16_t`
unfoldable pub index_of : ℕ → ℕ → ℕ
index_of a b = (a * 0x200 + b) % 2 ^ 16

-- The result with the two ends after the call; `none` is the null pointer.
unfoldable pub range_to_index : Option Bytes → ℕ → ℕ → Run (Bool × ℕ × ℕ)
unfolding fill no_tilde index_of
range_to_index none l r = done (false, l, r)
range_to_index (some range) l r = fill range start >>= λ s. no_tilde range s >>= λ cells. done (
  true,
  index_of (get_or cells 0 0) (get_or cells 1 0),
  index_of (get_or cells 2 0) (get_or cells 3 0),
)

-- `(uint16_t)owner[0] * 0x200 + owner[1]`, where a `char` is signed: a byte from 128 on stands for
-- its value less 256, which is its value plus 0xff00 modulo 2^16.
abbrev pub char_u16 : ℕ → ℕ
char_u16 c = if ltb c 128 then c else c + 0xff00

unfoldable pub owner_index : ℕ → ℕ → ℕ
unfolding index_of
owner_index a b = index_of (char_u16 a) (char_u16 b)

-- The loop of `GetAddress`.
unfoldable pub find_host : ℕ → List HostElement → Option HostElement
find_host index [] = none
find_host index (e ∷ es) =
    if leb e.begin index && leb index e.end
    then (if e.enabled then some e else find_host index es)
    else find_host index es

-- The result, and the element after the call.
unfoldable pub get_address : RouterSeletor → Bytes → StorageElement → Bool × StorageElement
unfolding owner_index find_host
get_address r (a ∷ b ∷ _) elem = elim (find_host (owner_index a b) r.host_element) [
  | none ↦ (true, record { address = r.default_element; port = r.default_port })
  | some e ↦ (true, record { address = e.address; port = e.port })
]
get_address r _ elem = (false, elem)

unfoldable pub get_storage_element :
    RouterSeletor → SubversionUrl → StorageElement → Bool × StorageElement
unfolding get_address
get_storage_element r su elem = get_address r su.owner elem

module _ (toml : Toml) where
  open toml use {Table, parse_file, contains, get_string, get_int, get_bool, table_array}

  -- The body of the loop behind its two guards.
  unfoldable pub read_host : Table → Run HostElement
  unfolding range_to_index
  read_host t = string_or toml t (codes "range") [] >>= λ range.
      range_to_index (some range) 0 0 >>= λ ends.
      string_or toml t (codes "address") [] >>= λ address.
      int_or toml t (codes "port") (to_unsigned 16) 3690 >>= λ port.
      bool_or toml t (codes "enable") true >>= λ enabled.
      done
        (record { begin = ends.1; end = ends.2; port = port; enabled = enabled; address = address })

  -- `for (auto t : *ta)`
  unfoldable pub read_hosts : List Table → List HostElement → Run (List HostElement)
  unfolding read_host
  read_hosts [] hosts = done hosts
  read_hosts (t ∷ ts) hosts = elim (contains t (codes "range") && contains t (codes "address")) [
    | false ↦ read_hosts ts hosts
    | true ↦ read_host t >>= λ e. read_hosts ts (hosts ++ e ∷ [])
  ]

  unfoldable pub read_tables : Option (List Table) → RouterSeletor → Run (Bool × RouterSeletor)
  unfolding read_hosts
  read_tables none r = done (false, r)
  read_tables (some ts) r = read_hosts ts r.host_element >>= λ hosts.
      done (not (is_empty r.default_element && is_empty hosts), record r { host_element = hosts })

  unfoldable pub read_router : Table → RouterSeletor → Run (Bool × RouterSeletor)
  unfolding read_tables
  read_router g r = string_or toml g (codes "Host.address") (codes "192.168.1.12") >>= λ address.
      int_or toml g (codes "Host.port") (to_unsigned 16) 3690 >>= λ port.
      read_tables (table_array g (codes "Host.Content"))
        (record r { default_element = address; default_port = port })

  -- The result, and the selector after the call.
  unfoldable pub initialize_manager : Bytes → RouterSeletor → Run (Bool × RouterSeletor)
  unfolding read_router
  initialize_manager file r = elim (parse_file file) [
    | none ↦ done (false, r)
    | some g ↦ read_router g r
  ]

  unfoldable pub initialize_router_seletor : Bytes → RouterSeletor → Run (Bool × RouterSeletor)
  unfolding initialize_manager
  initialize_router_seletor file r =
      if is_empty file then done (false, r) else initialize_manager file r
