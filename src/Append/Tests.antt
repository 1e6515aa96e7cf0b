-- ===== src/Append/Tests.antt =====
-- Runs of append.c, and its theorem at an input.
use aup_assignments.Prelude.{◌≡◌, refl, false, none, some, [], ◌∷◌, ◌++◌, drop, if◌then◌else◌}
use aup_assignments.Unix.Bytes.{Bytes, bytes_eqb}
use aup_assignments.Prelude.Int.{ℤ}
use aup_assignments.Unix.Proc.{done, exited}
use aup_assignments.Unix.Files.{
  clear, fail, short, Os, ebadf, desc, open_file, close, write, contents,
}
use aup_assignments.Append.{opens, appends, main, letters, numbers}
use aup_assignments.Append.Results.{append_result}

abbrev file : Bytes
file = b'f' ∷ []

abbrev old : Bytes
old = b'o' ∷ b'l' ∷ b'd' ∷ b'e' ∷ b'r' ∷ b'!' ∷ []

abbrev disk : Os
disk = record {
  files = λ name. if bytes_eqb name file then some old else none;
  fds = none ∷ [];
  faults = [];
  errno = 0;
}

append_result_example :
    ((fd : ℤ) × (u : Os) × (opens ([] ∷ file ∷ []) disk ≡ (done (fd, fd), u)))
    × ((fd fd_new : ℤ) (u : Os)
        → u.faults ≡ []
        → desc u.fds fd ≡ none
        → (appends fd fd_new u).0 ≡ exited ebadf)
    × (t : Os) × (main ([] ∷ file ∷ []) disk ≡ (done 0, t))
    × (t.files file ≡ some ((letters ++ drop 5 (contents (disk.files file))) ++ numbers))
    × ((name : Bytes) → bytes_eqb name file ≡ false → t.files name ≡ disk.files name)
append_result_example = append_result disk [] file refl

wrong_usage : (main ([] ∷ []) disk).0 ≡ exited 22
unfolding main
wrong_usage = refl

-- A short first write ends the program with status 0.
short_write : (main ([] ∷ file ∷ []) (record disk { faults = clear ∷ short 3 ∷ [] })).0 ≡ exited 0
unfolding main open_file write
short_write = refl

-- A failing close ends it with `errno`.
close_fails :
    (main ([] ∷ file ∷ []) (record disk { faults = clear ∷ clear ∷ fail 5 ∷ [] })).0 ≡ exited 5
unfolding main open_file write close
close_fails = refl
