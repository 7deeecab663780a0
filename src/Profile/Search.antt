-- ===== src/Profile/Search.antt =====
-- Where `ParseServiceProfile` of src/TOMLParse.cc looks for its file.
use svnsrv.Base.{
  ℕ, ◌<◌, Bool, true, false, List, [], ◌∷◌, ◌++◌, Option, none, some, ◌≡◌, ◌≢◌, refl, ◌∙◌, ap, ◌==◌,
  if◌then◌else◌, length, arith,
}
use svnsrv.Base.Run.{done}
use svnsrv.Base.Text.{Bytes, codes, c_str}
use svnsrv.Runtime.{
  System, path_max, folder_of, combine, get_process_image_file_folder, path_file_is_exists,
  path_combine_home_exists,
}
use svnsrv.Profile.{profile_name, find_elsewhere, find_default, find_profile}

-- The first of the names that exists.
abbrev pub first_existing : System → List Bytes → Option Bytes
first_existing sys [] = none
first_existing sys (name ∷ names) =
    if path_file_is_exists sys name then some name else first_existing sys names

-- The places to look in, in their order: beside the program, in the current directory, and in the
-- home directory.
abbrev pub places : Bytes → Bytes → List Bytes
places dir home =
    (dir ++ codes "/svnsrv.toml") ∷ profile_name ∷ combine home (codes ".svnsrv/svnsrv.toml") ∷ []

ne-== : (a b : ℕ) → a ≢ b → (a == b) ≡ false
ne-== a b h = ground arith

if-done {ℓ} :
    {A : Type ℓ} (b : Bool) (x y : A) → (if b then done x else done y) ≡ done (if b then x else y)
if-done true x y = refl
if-done false x y = refl

image_folder :
    (sys : System) (link : Bytes)
    → sys.self_exe ≡ some link
    → 0 < length link
    → length link < path_max
    → get_process_image_file_folder sys ≡ done (folder_of (c_str link))
unfolding get_process_image_file_folder
image_folder sys link e pos lt = rw (
  get_process_image_file_folder,
  e,
  ne-== (length link) 0 (omega arith),
  ne-== (length link) path_max (omega arith),
)

home_file :
    (sys : System) (path relative : Bytes) (c : ℕ) (cs : Bytes)
    → sys.home ≡ some (c ∷ cs)
    → path_combine_home_exists sys path (some relative)
      ≡ done (path_file_is_exists sys (combine (c ∷ cs) relative), combine (c ∷ cs) relative)
unfolding path_combine_home_exists
home_file sys path relative c cs e = rw e

find_elsewhere-places :
    (sys : System) (file : Bytes) (c : ℕ) (cs : Bytes)
    → sys.home ≡ some (c ∷ cs)
    → find_elsewhere sys file
      ≡ done
          (first_existing sys (profile_name ∷ combine (c ∷ cs) (codes ".svnsrv/svnsrv.toml") ∷ []))
unfolding find_elsewhere
find_elsewhere-places sys file c cs e =
    let own = combine (c ∷ cs) (codes ".svnsrv/svnsrv.toml") in
    rw (home_file sys file (codes ".svnsrv/svnsrv.toml") c cs e) (
      if-done (path_file_is_exists sys profile_name) (some profile_name)
        (first_existing sys (own ∷ [])))

find_default-places :
    (sys : System) (dir : Bytes) (c : ℕ) (cs : Bytes)
    → sys.home ≡ some (c ∷ cs)
    → find_default sys (some dir) ≡ done (first_existing sys (places dir (c ∷ cs)))
unfolding find_default
find_default-places sys dir c cs e =
    let file = dir ++ codes "/svnsrv.toml" in
    rw (find_elsewhere-places sys file c cs e) (
      if-done (path_file_is_exists sys file) (some file)
        (first_existing sys (profile_name ∷ combine (c ∷ cs) (codes ".svnsrv/svnsrv.toml") ∷ [])))

-- With no file named on the command line, the profile is the first that exists of svnsrv.toml
-- beside the program, svnsrv.toml in the current directory and .svnsrv/svnsrv.toml in the home
-- directory, if the link to the program is shorter than the array for it and leads to a directory,
-- and the user's home directory is known and not empty. If none exists, there is none.
pub find_profile-first :
    (sys : System) (link dir : Bytes) (c : ℕ) (cs : Bytes)
    → sys.self_exe ≡ some link
    → 0 < length link
    → length link < path_max
    → folder_of (c_str link) ≡ some dir
    → sys.home ≡ some (c ∷ cs)
    → find_profile sys none ≡ done (first_existing sys (places dir (c ∷ cs)))
unfolding find_profile
find_profile-first sys link dir c cs e pos lt f h =
    rw (image_folder sys link e pos lt ∙ ap done f) (find_default-places sys dir c cs h)
