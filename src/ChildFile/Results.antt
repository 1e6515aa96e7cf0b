-- ===== src/ChildFile/Results.antt =====
-- The file that child_file_handle.c leaves.
use aup_assignments.Prelude.{◌≡◌, refl, ap, false, none, some, [], ◌++◌}
use aup_assignments.Unix.Bytes.{Bytes, bytes_eqb, write_at-append}
use aup_assignments.Unix.Proc.{done, exited}
use aup_assignments.Unix.Files.{Os, lowest, contents}
use aup_assignments.Unix.Lemmas.{wrote, fresh, opened_at, create_lem, opened-IsOpen, write_lem}
use aup_assignments.ChildFile.{parent_file, flags, coep, main}

-- With no fault due and a fork that succeeds, whether the file is there or not, what the child writes
-- to the descriptor of its parent stands at the end of the file, behind all that was there; both
-- processes end with 0, and other files are unchanged.
child_appends :
    (s : Os)
    → s.faults ≡ []
    → (t : Os) × (main none s ≡ (done (record { parent = 0; child = some (exited 0) }), t))
      × (t.files parent_file ≡ some (contents (s.files parent_file) ++ coep))
      × ((name : Bytes) → bytes_eqb name parent_file ≡ false → t.files name ≡ s.files name)
unfolding main
child_appends s calm =
    let c = contents (s.files parent_file) in
    let d = fresh parent_file flags in
    let o = opened-IsOpen s parent_file c d refl in
    (
      wrote (opened_at s parent_file c d) (lowest s.fds) d c coep,
      rw (create_lem s parent_file flags calm refl, write_lem o coep refl) refl,
      ap some (write_at-append c coep),
      λ name other. rw other refl,
    )
