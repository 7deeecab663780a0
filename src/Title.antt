-- ===== src/Title.antt =====
-- src/ProcessTitle.hpp: the title of the worker, written over the strings of its arguments and its
-- environment. The memory is the block that begins at `argv[0]`, and an address is the distance from
-- there.
pub mod Layout
pub mod Rename
use svnsrv.Base.{
  ℕ, zero, suc, ◌+◌, ◌-◌, Bool, true, false, List, [], ◌∷◌, ◌++◌, Option, none, some, ◌==◌, ltb,
  if◌then◌else◌, length, take, drop,
}
use svnsrv.Base.Run.{Run, done, crash, ◌>>=◌}
use svnsrv.Base.Text.{Bytes, codes, c_str}

-- `strlen`
abbrev pub strlen_at : Bytes → ℕ → ℕ
strlen_at area p = length (c_str (drop p area))

abbrev pub zeros : ℕ → Bytes
zeros zero = []
zeros (suc n) = 0 ∷ zeros n

-- The size of the copy: every string of the environment with its zero byte.
unfoldable pub environ_size : Bytes → List ℕ → ℕ
environ_size area [] = 0
environ_size area (e ∷ es) = strlen_at area e + 1 + environ_size area es

-- The loop over `argv`, with `lastArgv`.
unfoldable pub last_argument : Bytes → ℕ → List ℕ → ℕ
last_argument area last [] = last
last_argument area last (a ∷ as_) =
    last_argument area (if last == a then a + strlen_at area a + 1 else last) as_

-- Where a string of the environment stands: in the block, or in the copy.
pub data Place : Type 0 where
  in_area in_heap : ℕ → Place

-- The locals of the loop over `environ`: `lastArgv`, the bytes that were copied, and the environment.
pub record Copy : Type 0 where
  pub last : ℕ
  pub heap : Bytes
  pub environ : List Place

unfoldable pub copy_string : Bytes → ℕ → Copy → Copy
copy_string area e c =
    let size = strlen_at area e + 1 in
    if c.last == e
    then record {
      last = e + size;
      heap = c.heap ++ take size (drop e area);
      environ = c.environ ++ in_heap (length c.heap) ∷ [];
    }
    else record c { environ = c.environ ++ in_area e ∷ [] }

unfoldable pub copy_environ : Bytes → List ℕ → Copy → Copy
unfolding copy_string
copy_environ area [] c = c
copy_environ area (e ∷ es) c = copy_environ area es (copy_string area e c)

-- The block, the copy and `lastArgv`, or `none` where `malloc` fails, for `false`.
unfoldable pub initialize_process_env : Bool → Bytes → List ℕ → List ℕ → Option Copy
unfolding last_argument copy_environ
initialize_process_env malloc area argv environ =
    let last = last_argument area 0 argv in
    let c = copy_environ area environ (record { last = last; heap = []; environ = [] }) in
    if malloc then some (record c { last = c.last - 1 }) else none

-- `strncpy`
unfoldable pub strncpy : ℕ → Bytes → Bytes
strncpy n text = take n text ++ zeros (n - length text)

-- What follows `strncpy`, with the block as it left it. A `memset` of a negative length runs out of
-- every bound.
unfoldable pub clear_rest : Bytes → ℕ → Run Bytes
clear_rest stored last =
    let p = length (c_str stored) + 1 in
    if last == p
    then done stored
    else if ltb last p
    then crash
    else done (take p stored ++ (zeros (last - p) ++ drop last stored))

unfoldable pub change_process_title : Bytes → ℕ → Bytes → Run Bytes
unfolding strncpy clear_rest
change_process_title area last title = clear_rest (strncpy last title ++ drop last area) last

unfoldable pub retitled : Bytes → Bytes → Option Copy → Run (Bytes × Copy)
unfolding change_process_title
retitled area title none = crash
retitled area title (some c) = change_process_title area c.last title >>= λ area'. done (area', c)

-- The end of `DaemonWait` in a worker, which goes on where `initializeProcessEnv` has failed; then
-- `lastArgv` is a null pointer, and the length for `strncpy` is out of every bound.
unfoldable pub rename_worker : Bool → Bytes → List ℕ → List ℕ → Bytes → Run (Bytes × Copy)
unfolding retitled initialize_process_env
rename_worker malloc area argv environ title =
    retitled area title (initialize_process_env malloc area argv environ)
