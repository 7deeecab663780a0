-- ===== src/Runtime/Folder.antt =====
-- `PathRemoveFileSpec` of src/Runtime.cc on a path and its last component.
use svnsrv.Base.{
  ℕ, zero, suc, ◌<◌, ◌≢◌, true, false, [], ◌∷◌, ◌++◌, none, some, ◌≡◌, ◌⊎◌, inl, inr, refl, ◌∙◌, ap,
  ◌==◌, if◌then◌else◌, is_empty, length, take, get_or, All, length-append, take-append_self, arith,
}
use svnsrv.Base.Text.{Bytes}
use svnsrv.Runtime.{cut_at_slash, path_remove_file_spec}

abbrev pub NoSlash : ℕ → Type 0
NoSlash c = c ≢ b'/'

decide-eq : (a b : ℕ) → (a ≡ b) ⊎ (a ≢ b)
decide-eq a b = ground arith

==-zero : (n : ℕ) → n ≢ 0 → (n == 0) ≡ false
==-zero n h = ground arith

get_or-All : (text : Bytes) (i : ℕ) → All NoSlash text → (get_or text i 0 == b'/') ≡ false
get_or-All [] i h = refl
get_or-All (c ∷ cs) zero h = ground arith
get_or-All (c ∷ cs) (suc i) h = get_or-All cs i h.1

get_or-slash : (dir name : Bytes) → get_or (dir ++ b'/' ∷ name) (length dir) 0 ≡ b'/'
get_or-slash [] name = refl
get_or-slash (c ∷ cs) name = get_or-slash cs name

get_or-behind :
    (dir name : Bytes) (i : ℕ)
    → length dir < i
    → All NoSlash name
    → (get_or (dir ++ b'/' ∷ name) i 0 == b'/') ≡ false
get_or-behind dir name zero lt h = absurd (omega arith)
get_or-behind [] name (suc i) lt h = get_or-All name i h
get_or-behind (c ∷ cs) name (suc i) lt h = get_or-behind cs name i (omega arith) h

cut-NoSlash : (path : Bytes) (end : ℕ) → All NoSlash path → cut_at_slash path end ≡ none
unfolding cut_at_slash
cut-NoSlash path zero h = refl
cut-NoSlash path (suc end) h = rw (get_or-All path end h) (cut-NoSlash path end h)

take-cut :
    (dir rest : Bytes)
    → take (if length dir == 0 then 1 else length dir) (dir ++ b'/' ∷ rest)
      ≡ (if is_empty dir then b'/' ∷ [] else dir)
take-cut [] rest = refl
take-cut (c ∷ cs) rest = ground (arith, take-append_self (c ∷ cs) (b'/' ∷ rest))

-- From anywhere behind the last slash the loop comes down to it.
cut-descends :
    (dir name : Bytes) (end : ℕ)
    → length dir < end
    → All NoSlash name
    → cut_at_slash (dir ++ b'/' ∷ name) end ≡ some (if is_empty dir then b'/' ∷ [] else dir)
unfolding cut_at_slash
cut-descends dir name zero lt h = absurd (omega arith)
cut-descends dir name (suc end) lt h = elim (decide-eq end (length dir)) [
  | inl e ↦ rw (e, get_or-slash dir name) (ap some (take-cut dir name))
  | inr ne ↦
      rw (get_or-behind dir name end (omega arith) h) (cut-descends dir name end (omega arith) h)
]

-- A path is empty of slashes, or it has a last one.
last-slash :
    (path : Bytes)
    → All NoSlash path
      ⊎ ((dir : Bytes) × (name : Bytes) × (path ≡ dir ++ b'/' ∷ name) × All NoSlash name)
last-slash [] = inl tt
last-slash (c ∷ cs) = elim (last-slash cs) [
  | inr (dir, name, e, h) ↦ inr (c ∷ dir, name, ap (◌∷◌ c) e, h)
  | inl h ↦ elim (decide-eq c b'/') [
    | inl e ↦ inr ([], cs, ap (λ x. x ∷ cs) e, h)
    | inr ne ↦ inl (ne, h)
  ]
]

-- What `PathRemoveFileSpec` does to every path, in an array that is not empty: a path without a
-- slash gives `false` and stays; any other is a directory, a slash and a name without a slash, and
-- becomes the directory, or `/` where that is empty.
pub path_remove_file_spec-folder :
    (path : Bytes) (len : ℕ)
    → len ≢ 0
    → (All NoSlash path × (path_remove_file_spec (some path) len ≡ (false, some path)))
      ⊎ ((dir : Bytes) × (name : Bytes) × (path ≡ dir ++ b'/' ∷ name)
          × All NoSlash name
          × (path_remove_file_spec (some path) len
              ≡ (true, some (if is_empty dir then b'/' ∷ [] else dir))))
unfolding path_remove_file_spec
path_remove_file_spec-folder path len ne = elim (last-slash path) [
  | inl h ↦ inl (h, rw (==-zero len ne, cut-NoSlash path (length path) h))
  | inr (dir, name, e, h) ↦ inr (
    dir,
    name,
    e,
    h,
    rw (
      ==-zero len ne,
      ap (λ p. cut_at_slash p (length p)) e
          ∙ cut-descends dir name (length (dir ++ b'/' ∷ name))
              (omega (arith, length-append dir (b'/' ∷ name))) h,
    ),
  )
]
