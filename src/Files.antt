-- ===== src/Files.antt =====
-- Files as a map from names to contents, for the parts of the program that read what they wrote.
use svnsrv.Base.{true, false, [], ◌∷◌, Option, ◌≡◌, refl, if◌then◌else◌, arith}
use svnsrv.Base.Text.{Bytes}
use svnsrv.Url.{equal}

-- A file with a new content, or without one.
unfoldable pub update : (Bytes → Option Bytes) → Bytes → Option Bytes → Bytes → Option Bytes
update files name content other = if equal name other then content else files other

pub equal_refl : (xs : Bytes) → equal xs xs ≡ true
unfolding equal
equal_refl [] = refl
equal_refl (x ∷ xs) = ground (arith, equal_refl xs)

pub update_self :
    (files : Bytes → Option Bytes) (name : Bytes) (content : Option Bytes)
    → update files name content name ≡ content
unfolding update
update_self files name content = rw (equal_refl name)

pub update_other :
    (files : Bytes → Option Bytes) (name other : Bytes) (content : Option Bytes)
    → equal name other ≡ false
    → update files name content other ≡ files other
unfolding update
update_other files name other content h = rw h
