-- ===== src/Windows/Cmdline/Room.antt =====
-- The new command line of src/daemonize_win.inl, and the room that it needs.
use svnsrv.Base.{
  ℕ, ◌+◌, ◌≤◌, ◌<◌, ◌≡◌, ◌≢◌, refl, ◌∙◌, ap, true, false, [], ◌∷◌, ◌++◌, some, ltb, inl, inr,
  Bool-cases, if◌then◌else◌, length, take, take-all, length-take, length-append, append_assoc, All,
  arith,
}
use svnsrv.Base.Run.{done, crash, ◌>>=◌}
use svnsrv.Base.Text.{Bytes, c_str}
use svnsrv.Windows.Cmdline.{
  wcsncpy, wcsncat, has_space, enclose, find_self_execute_file_name, path_get_args, build_cmdline,
}

-- The name of the program as a command line shows it.
abbrev pub quoted : Bytes → Bytes
quoted path = if has_space path then b'"' ∷ (path ++ b'"' ∷ []) else path

length-take_room : (n m : ℕ) (text : Bytes) → n ≤ m + length text → n ≤ m + length (take n text)
length-take_room n m text h = elim (Bool-cases (ltb n (length text))) [
  | inl lt ↦ let le : n ≤ length text = ground arith in omega (arith, length-take n text le)
  | inr ge ↦
      let le : length text ≤ n = ground arith in omega (arith, ap length (take-all n text le))
]

wcsncat-fits :
    (size : ℕ) (text more : Bytes)
    → length text + length more < size
    → wcsncat size text more ≡ done (text ++ more)
unfolding wcsncat
wcsncat-fits size text more h =
    rw (take-all size more (omega arith)) (ground (arith, length-append text more))

wcsncat-overruns :
    (size : ℕ) (text more : Bytes)
    → size ≤ length text + length more
    → wcsncat size text more ≡ crash
unfolding wcsncat
wcsncat-overruns size text more h =
    ground (arith, length-append text (take size more), length-take_room size (length text) more h)

wcsncpy-fits : (size : ℕ) (text : Bytes) → length text < size → wcsncpy size text ≡ done text
unfolding wcsncpy
wcsncpy-fits size text h = ground arith

enclose-fits :
    (size : ℕ) (path : Bytes)
    → length path + 2 < size
    → enclose size path ≡ done (some (b'"' ∷ (path ++ b'"' ∷ [])))
unfolding enclose
enclose-fits size path h =
    rw
      (
        wcsncpy-fits size (b'"' ∷ []) (omega arith),
        wcsncat-fits size (b'"' ∷ []) path (omega arith),
        wcsncat-fits size (b'"' ∷ path) (b'"' ∷ []) (omega arith),
      )
      refl

path_get_args-plain :
    (path rest : Bytes)
    → All (λ c. c ≢ b'"') path
    → has_space path ≡ false
    → path_get_args false (path ++ b' ' ∷ rest) ≡ rest
unfolding path_get_args has_space
path_get_args-plain [] rest q s = refl
path_get_args-plain (c ∷ cs) rest q s = ground (arith, path_get_args-plain cs rest q.1)

path_get_args-quoted :
    (path rest : Bytes)
    → All (λ c. c ≢ b'"') path
    → path_get_args true (path ++ b'"' ∷ (b' ' ∷ rest)) ≡ rest
unfolding path_get_args
path_get_args-quoted [] rest q = refl
path_get_args-quoted (c ∷ cs) rest q = ground (arith, path_get_args-quoted cs rest q.1)

find_self-fits :
    (size : ℕ) (path : Bytes)
    → length path + 2 < size
    → find_self_execute_file_name size (some path) ≡ done (some (quoted path))
unfolding find_self_execute_file_name
find_self-fits size path h = elim (Bool-cases (has_space path)) [
  | inl s ↦ rw (s, enclose-fits size path h) refl
  | inr s ↦ rw (s, wcsncpy-fits size path (omega arith)) refl
]

path_get_args-quoted_name :
    (path rest : Bytes)
    → All (λ c. c ≢ b'"') path
    → path_get_args false (quoted path ++ b' ' ∷ rest) ≡ rest
unfolding path_get_args
path_get_args-quoted_name path rest q = elim (Bool-cases (has_space path)) [
  | inl s ↦ rw (s, append_assoc path (b'"' ∷ []) (b' ' ∷ rest)) (path_get_args-quoted path rest q)
  | inr s ↦ rw s (path_get_args-plain path rest q s)
]

length-quoted_le : (path : Bytes) → length (quoted path) ≤ length path + 2
length-quoted_le path = elim (Bool-cases (has_space path)) [
  | inl s ↦ rw s (omega (arith, length-append path (b'"' ∷ [])))
  | inr s ↦ rw s (omega arith)
]

filled_line :
    (size : ℕ) (self args : Bytes)
    → length self + 1 < size
    → (wcsncat size self (b' ' ∷ []) >>= λ spaced.
        wcsncat size spaced args >>= λ line. done (some line))
      ≡ (if ltb (length self + 1 + length args) size
          then done (some (self ++ b' ' ∷ args))
          else crash)
filled_line size self args h =
    let n = length-append self (b' ' ∷ []) in
    elim (Bool-cases (ltb (length self + 1 + length args) size)) [
      | inl lt ↦
          let room : length self + 1 + length args < size = ground arith in
          rw
            (
              lt,
              wcsncat-fits size self (b' ' ∷ []) h,
              wcsncat-fits size (self ++ b' ' ∷ []) args (omega (arith, n)),
              append_assoc self (b' ' ∷ []) args,
            )
            refl
      | inr ge ↦
          let over : size ≤ length self + 1 + length args = ground arith in
          rw
            (
              ge,
              wcsncat-fits size self (b' ' ∷ []) h,
              wcsncat-overruns size (self ++ b' ' ∷ []) args (omega (arith, n)),
            )
            refl
    ]

-- For a program whose name leaves room for two quotes, a space and an end: the new command line is the
-- name, in quotes where it has a space, a space, and the arguments of the old command line, which is
-- not empty. Where these do not fit into the buffer with an end behind them, the code writes behind the
-- buffer.
pub build_cmdline-room :
    (size : ℕ) (path : Bytes) (c : ℕ) (cs : Bytes)
    → length path + 3 < size
    → build_cmdline size (some path) (c ∷ cs) ≡ (
        let args = path_get_args false (c_str (c ∷ cs)) in
        if ltb (length (quoted path) + 1 + length args) size
        then done (some (quoted path ++ b' ' ∷ args))
        else crash)
unfolding build_cmdline
build_cmdline-room size path c cs h = rw (find_self-fits size path (omega arith)) (
    filled_line size (quoted path) (path_get_args false (c_str (c ∷ cs)))
      (omega (arith, length-quoted_le path)))

-- A program whose name has no quotes, and whose command line fits: the new command line gives the
-- arguments of the old one.
pub build_cmdline-arguments :
    (size : ℕ) (path : Bytes) (c : ℕ) (cs : Bytes)
    → All (λ d. d ≢ b'"') path
    → length path + 3 + length (path_get_args false (c_str (c ∷ cs))) < size
    → (line : Bytes) × (build_cmdline size (some path) (c ∷ cs) ≡ done (some line))
      × (path_get_args false line ≡ path_get_args false (c_str (c ∷ cs)))
build_cmdline-arguments size path c cs q h =
    let args = path_get_args false (c_str (c ∷ cs)) in
    let fits : ltb (length (quoted path) + 1 + length args) size ≡ true =
      ground (arith, length-quoted_le path) in
    (
      quoted path ++ b' ' ∷ args,
      build_cmdline-room size path c cs (omega arith) ∙ rw fits refl,
      path_get_args-quoted_name path args q,
    )
