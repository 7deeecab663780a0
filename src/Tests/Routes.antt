-- ===== src/Tests/Routes.antt =====
-- Runs of src/RouterSeletor.cc, and of its theorems.
use svnsrv.Base.{
  ◌^◌, ◌<◌, Bool, true, false, List, [], ◌∷◌, Option, none, some, ◌≡◌, inl, inr, refl, ◌&&◌,
  if◌then◌else◌, arith,
}
use mathlib.Core.List.{map}
use svnsrv.Base.Run.{done, Ensures}
use svnsrv.Base.Text.{Bytes, codes}
use svnsrv.Toml.{Toml}
use svnsrv.Url.{equal}
use svnsrv.Router.{
  StorageElement, RouterSeletor, index_of, range_to_index, get_address, initialize_router_seletor,
}
use svnsrv.Router.Range.{
  Form, between, letter, letters, range_to_index_bounds, range_to_index-form_text,
}
use svnsrv.Router.Lookup.{Host, encode, route, storage_of, get_address-route}
use svnsrv.Router.Load.{Describes, nil, row, skip, IsRouting, load_route}

abbrev range_a_to_h : Form
range_a_to_h = between (letter b'A') (letters b'H' b'z')

abbrev pub sample_host : Host
sample_host = record {
  form = range_a_to_h;
  port = 3690;
  enabled = true;
  address = codes "10.0.0.2";
}

abbrev pub no_element : StorageElement
no_element = record { port = 0; address = [] }

range_to_index_bounds_example :
    Ensures
      (λ res. (res.0 ≡ true) × (res.1 < 2 ^ 16) × (res.2 < 2 ^ 16))
      (range_to_index (some (codes "abc~defgh")) 0 0)
range_to_index_bounds_example = range_to_index_bounds (codes "abc~defgh") 0 0

range_to_index-form_text_example :
    range_to_index (some (codes "A~Hz")) 0 0 ≡ done (true, index_of b'A' b'-', index_of b'H' b'z')
range_to_index-form_text_example = range_to_index-form_text range_a_to_h 0 0 (omega arith)

get_address-route_example :
    get_address
      (record {
        host_element = map encode (sample_host ∷ []);
        default_element = codes "10.0.0.1";
        default_port = 3691;
      })
      (codes "Foo")
      no_element
    ≡ (true, storage_of (codes "10.0.0.1") 3691 (route (sample_host ∷ []) (b'F', b'o')))
get_address-route_example =
    get_address-route (sample_host ∷ []) (codes "10.0.0.1") 3691 b'F' b'o' (codes "o") no_element
      (omega arith) (omega arith) (omega arith)

abbrev pub sample_selector : RouterSeletor
sample_selector = record {
  host_element = encode sample_host ∷ [];
  default_element = codes "10.0.0.1";
  default_port = 3691;
}

-- Tables of texts only, and a file that holds one table with rows.
abbrev pub TextTable : Type 0
TextTable = List (Bytes × Bytes)

abbrev pub text_at : TextTable → Bytes → Option Bytes
text_at [] key = none
text_at ((k, v) ∷ rest) key = if equal k key then some v else text_at rest key

abbrev pub is_there : Option Bytes → Bool
is_there none = false
is_there (some v) = true

abbrev pub row_table : TextTable
row_table = (codes "range", codes "A~Hz") ∷ (codes "address", codes "10.0.0.2") ∷ []

abbrev pub root_table : TextTable
root_table = (codes "Host.address", codes "10.0.0.1") ∷ []

abbrev pub text_toml : Toml
text_toml = record {
  Table = TextTable;
  parse_file = λ file. some root_table;
  contains = λ t key. is_there (text_at t key);
  get_string = text_at;
  get_int = λ t key. none;
  get_bool = λ t key. none;
  table_array = λ t key. some (row_table ∷ root_table ∷ []);
}

row_described : Describes text_toml row_table sample_host
unfolding equal
row_described = record {
  has_range = refl;
  range = refl;
  has_address = refl;
  address = refl;
  port = inr (refl, refl);
  enabled = inr (refl, refl);
  form = omega arith;
}

root_skipped :
    (text_toml.contains root_table (codes "range")
      && text_toml.contains root_table (codes "address"))
    ≡ false
unfolding equal
root_skipped = refl

pub sample-IsRouting :
    IsRouting text_toml root_table
      (row_table ∷ root_table ∷ [])
      (sample_host ∷ [])
      (codes "10.0.0.1")
      3690
unfolding equal
sample-IsRouting = record {
  default_address = inl (refl, refl);
  default_port = inr (refl, refl);
  content = refl;
  rows = row row_described (skip root_skipped nil);
  some_machine = inr (λ e. cc);
}

abbrev new_selector : RouterSeletor
new_selector = record { host_element = []; default_element = []; default_port = 0 }

load_route_example :
    Ensures
      (λ res.
        (res.0 ≡ true)
        × (get_address res.1 (codes "Foo") no_element
            ≡ (true, storage_of (codes "10.0.0.1") 3690 (route (sample_host ∷ []) (b'F', b'o')))))
      (initialize_router_seletor text_toml (codes "router.toml") new_selector)
load_route_example =
    load_route text_toml (codes "router.toml") new_selector b'F' b'o' (codes "o") no_element
      (λ e. cc) refl sample-IsRouting refl (omega arith) (omega arith)
