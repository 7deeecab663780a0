-- ===== src/Windows/Profile/Search.antt =====
-- Where `ParseServiceProfile` of src/TOMLParse.cc looks for its file on Windows.
use svnsrv.Base.{true, false, ◌∷◌, ◌++◌, none, some, ◌≡◌, refl, ◌∙◌, ap, ℕ}
use svnsrv.Base.Run.{done}
use svnsrv.Base.Text.{Bytes, codes}
use svnsrv.Profile.{profile_name}
use svnsrv.Windows.Paths.{
  System, character_a, combine, get_process_image_file_folder, path_file_is_exists,
  path_combine_home_exists, under_home, in_profile,
}
use svnsrv.Windows.Profile.{find_elsewhere, find_default, find_profile}

home_file :
    (sys : System) (path relative buffer : Bytes) (c : ℕ) (cs : Bytes)
    → sys.profile_folder ≡ some buffer
    → character_a sys (some buffer) ≡ some (c ∷ cs)
    → path_combine_home_exists sys path (some relative) ≡ done (true, combine (c ∷ cs) relative)
unfolding path_combine_home_exists in_profile under_home
home_file sys path relative buffer c cs e k =
    ap (in_profile sys path relative) e ∙ ap (λ home. under_home home relative) k

-- Without a profile on the command line and with none beside the program or in the current
-- directory, the name in the profile folder of the user is taken, whether there is a file of that
-- name or not.
find_profile-home :
    (sys : System) (dir buffer : Bytes) (c : ℕ) (cs : Bytes)
    → get_process_image_file_folder sys ≡ done (some dir)
    → path_file_is_exists sys (dir ++ codes "/svnsrv.toml") ≡ false
    → path_file_is_exists sys profile_name ≡ false
    → sys.profile_folder ≡ some buffer
    → character_a sys (some buffer) ≡ some (c ∷ cs)
    → find_profile sys none ≡ done (some (combine (c ∷ cs) (codes ".svnsrv/svnsrv.toml")))
unfolding find_profile
find_profile-home sys dir buffer c cs d beside current e k =
    rw
      (
        find_profile,
        d,
        find_default,
        beside,
        find_elsewhere,
        current,
        home_file sys (dir ++ codes "/svnsrv.toml") (codes ".svnsrv/svnsrv.toml") buffer c cs e k,
      )
      refl
