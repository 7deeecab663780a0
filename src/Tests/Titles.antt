-- ===== src/Tests/Titles.antt =====
-- Runs of src/ProcessTitle.hpp, and of its theorems.
use svnsrv.Base.{◌-◌, true, suc, List, [], ◌∷◌, ◌++◌, ◌≡◌, length, arith}
use mathlib.Core.List.{map}
use svnsrv.Base.Run.{done, crash}
use svnsrv.Base.Text.{Bytes, codes, laid_out}
use svnsrv.Title.{zeros, in_heap, change_process_title, rename_worker}
use svnsrv.Title.Layout.{offsets}
use svnsrv.Title.Rename.{change_process_title-room, rename_worker-copied}

change_process_title-room_example :
    (change_process_title (codes "abcdef" ++ 0 ∷ []) 6 (codes "xyz")
      ≡ done (codes "xyz" ++ zeros (suc (6 - 3))))
    × (change_process_title (codes "abcdef" ++ 0 ∷ []) 6 (codes "longer") ≡ crash)
change_process_title-room_example =
    change_process_title-room (codes "abcdef") (codes "xyz") (codes "longer") (omega arith)
      (omega arith) (omega arith) (omega arith)

abbrev variables : List Bytes
variables = codes "HOME=/root" ∷ codes "LANG=C" ∷ []

rename_worker-copied_example :
    let area = laid_out (codes "svnsrv" ∷ codes "-D" ∷ []) ++ laid_out variables in
    rename_worker true area
      (offsets 0 (codes "svnsrv" ∷ codes "-D" ∷ []))
      (offsets (length (laid_out (codes "svnsrv" ∷ codes "-D" ∷ []))) variables)
      (codes "svnsrv worker")
    ≡ done (
      codes "svnsrv worker" ++ zeros (length area - length (codes "svnsrv worker")),
      record {
        last = length area - 1;
        heap = laid_out variables;
        environ = map in_heap (offsets 0 variables);
      },
    )
rename_worker-copied_example =
    rename_worker-copied (codes "svnsrv") (codes "-D" ∷ []) variables (codes "svnsrv worker")
      (omega arith) (omega arith) (omega arith) (omega arith)
