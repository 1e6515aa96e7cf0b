-- ===== src/Hole/Tests.antt =====
-- Runs of hole_in_file.c, and its theorem at an input.
use aup_assignments.Prelude.{◌≡◌, refl, false, none, some, [], ◌∷◌, ◌++◌, arith, replicate}
use aup_assignments.Unix.Bytes.{Bytes, bytes_eqb, write_at}
use aup_assignments.Unix.Proc.{done, exited}
use aup_assignments.Unix.Files.{clear, fail, Os, open_file, lseek, write, contents}
use aup_assignments.Hole.{main, hashes}
use aup_assignments.Hole.Loop.{kept}
use aup_assignments.Hole.Results.{holed, hole_result}

abbrev source : Bytes
source = b'a' ∷ []

abbrev target : Bytes
target = b'b' ∷ []

abbrev disk : Os
disk = record { files = λ name. none; fds = []; faults = []; errno = 0 }

-- A new file has two holes of ten bytes, and its copy has twenty bytes.
holed_new : holed [] ≡ replicate 10 0 ++ hashes ++ replicate 10 0 ++ hashes
unfolding write_at
holed_new = refl

kept_new : kept (holed []) ≡ replicate 20 b'#'
unfolding write_at
kept_new = refl

-- With no name given the program goes on after its usage message, and open fails with EFAULT.
no_names : (main 5 ([] ∷ []) disk).0 ≡ exited 14
unfolding main open_file
no_names = refl

-- A failing second write is taken for a short one.
second_write_fails :
    (main 5
      ([] ∷ source ∷ target ∷ [])
      (record disk { faults = clear ∷ clear ∷ clear ∷ clear ∷ fail 28 ∷ [] })).0
    ≡ exited 0
unfolding main open_file lseek write
second_write_fails = refl

hole_result_example :
    (t : Os) × (main 50 ([] ∷ source ∷ target ∷ []) disk ≡ (done (some 0), t))
    × (t.files source ≡ some (holed (contents (disk.files source))))
    × (t.files target
        ≡ some (
            write_at
              (contents (disk.files target))
              0
              (kept (holed (contents (disk.files source))))))
    × ((name : Bytes)
        → bytes_eqb name source ≡ false
        → bytes_eqb name target ≡ false
        → t.files name ≡ disk.files name)
unfolding write_at
hole_result_example = hole_result 50 disk [] source target refl refl (omega arith)
