-- ===== src/Truncate/Tests.antt =====
-- Runs of truncate.c, and its theorems at an input.
use aup_assignments.Prelude.{
  ◌+◌, ◌-◌, ◌≡◌, refl, false, none, some, [], ◌∷◌, ◌++◌, arith, ltb, if◌then◌else◌, length, take,
  replicate,
}
use aup_assignments.Unix.Bytes.{Bytes, bytes_eqb, write_at}
use aup_assignments.Unix.Atoi.{atoi}
use aup_assignments.Unix.Proc.{Exec, done}
use aup_assignments.Unix.Files.{clear, fail, Os, open_file, close, lseek, write}
use aup_assignments.Unix.Grows.{size}
use aup_assignments.Truncate.{main}
use aup_assignments.Truncate.Results.{truncate_misses}

abbrev file : Bytes
file = b'f' ∷ []

abbrev six : Bytes
six = b'a' ∷ b'b' ∷ b'c' ∷ b'd' ∷ b'e' ∷ b'f' ∷ []

abbrev disk : Os
disk = record {
  files = λ name. if bytes_eqb name file then some six else none;
  fds = none ∷ [];
  faults = [];
  errno = 0;
}

-- To 4 bytes: the file has 7 afterwards.
shrink_run :
    (main ([] ∷ file ∷ (b'4' ∷ []) ∷ []) disk).1.files file
    ≡ some (b'a' ∷ b'b' ∷ b'c' ∷ b'd' ∷ 0 ∷ 0 ∷ 0 ∷ [])
unfolding main atoi open_file close lseek write write_at
shrink_run = refl

-- To 8 bytes: the file has 9 afterwards.
extend_run : size (main ([] ∷ file ∷ (b'8' ∷ []) ∷ []) disk).1 file ≡ 9
unfolding main atoi open_file close lseek write write_at
extend_run = refl

-- The second write fails: `mytruncate` returns 1, and `main` exits with 0 all the same.
fault_run :
    (main
      ([] ∷ file ∷ (b'8' ∷ []) ∷ [])
      (record disk { faults = clear ∷ clear ∷ clear ∷ clear ∷ fail 28 ∷ [] })).0
    ≡ Exec.exited 0
unfolding main atoi open_file close lseek write write_at
fault_run = refl

truncate_misses_example :
    (t : Os) × (main ([] ∷ file ∷ (b'4' ∷ []) ∷ []) disk ≡ (done (some 0), t))
    × (t.files file
        ≡ some (
            if ltb (length six) 4
            then six ++ replicate (4 - length six + 1) 0
            else take 4 six ++ replicate (length six - 4 + 1) 0))
    × (size t file ≡ (if ltb (length six) 4 then 4 + 1 else length six + 1))
    × ((name : Bytes) → bytes_eqb name file ≡ false → t.files name ≡ disk.files name)
unfolding atoi
truncate_misses_example =
    truncate_misses disk [] file (b'4' ∷ []) six 4 refl refl refl (omega arith) (omega arith)
      (omega arith)
