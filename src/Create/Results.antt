-- ===== src/Create/Results.antt =====
-- What test_file_create/temp.c leaves.
use aup_assignments.Prelude.{◌≡◌, refl, some, []}
use aup_assignments.Unix.Proc.{exited}
use aup_assignments.Unix.Files.{Os, open_file, close, contents}
use aup_assignments.Unix.Lemmas.{fresh, create_lem, opened-IsOpen, close_lem}
use aup_assignments.Create.{foo, flags, main}

-- The program returns 0, whichever call fails.
always_ends_well : (s : Os) → (main s).0 ≡ exited 0
unfolding main open_file close
always_ends_well s = refl

-- With no fault due, the file is there afterwards, with what was in it before.
created : (s : Os) → s.faults ≡ [] → (main s).1.files foo ≡ some (contents (s.files foo))
unfolding main
created s calm =
    let c = contents (s.files foo) in
    let d = fresh foo flags in
    let o = opened-IsOpen s foo c d refl in rw (create_lem s foo flags calm refl, close_lem o) refl
