-- ===== src/ChildFile/Tests.antt =====
-- Runs of child_file_handle.c.
use aup_assignments.Prelude.{◌≡◌, refl, none, some, [], ◌∷◌, ◌++◌, if◌then◌else◌}
use aup_assignments.Unix.Bytes.{bytes_eqb, write_at}
use aup_assignments.Unix.Proc.{done, exited}
use aup_assignments.Unix.Files.{fail, short, clear, Os, open_file, write}
use aup_assignments.ChildFile.{parent_file, coep, main}

abbrev disk : Os
disk = record {
  files = λ name. if bytes_eqb name parent_file then some coep else none;
  fds = [];
  faults = [];
  errno = 0;
}

-- After a failing open the child writes to no descriptor, and the parent still ends with 0.
open_fails :
    (main none (record disk { faults = fail 13 ∷ [] })).0
    ≡ done (record { parent = 0; child = some (exited 9) })
unfolding main open_file write write_at
open_fails = refl

-- A short write ends the child with 0 as well.
short_write :
    let r = main none (record disk { faults = clear ∷ short 2 ∷ [] }) in
    (r.0 ≡ done (record { parent = 0; child = some (exited 0) }))
    × (r.1.files parent_file ≡ some (coep ++ b'c' ∷ b'o' ∷ []))
unfolding main open_file write write_at
short_write = (refl, refl)
