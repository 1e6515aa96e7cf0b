-- ===== src/WriteBuf/Tests.antt =====
-- Runs of writebuf.c.
use aup_assignments.Prelude.{◌≡◌, refl, none, some, [], ◌∷◌, if◌then◌else◌}
use aup_assignments.Unix.Bytes.{Bytes, bytes_eqb}
use aup_assignments.Unix.Proc.{done, exited}
use aup_assignments.Unix.Files.{clear, fail, Os, open_file, read}
use aup_assignments.WriteBuf.{read_from_file, fill, main}

abbrev two_letters : Bytes
two_letters = b'a' ∷ b'b' ∷ []

abbrev disk : Os
disk = record {
  files = λ name. if bytes_eqb name read_from_file then some two_letters else none;
  fds = [];
  faults = [];
  errno = 0;
}

two_bytes :
    (main disk).0 ≡ done ((b'#' ∷ b'#' ∷ b'#' ∷ b'#' ∷ []) ∷ (b'#' ∷ b'a' ∷ b'b' ∷ b'#' ∷ []) ∷ [])
unfolding main fill open_file read
two_bytes = refl

read_fails : (main (record disk { faults = clear ∷ clear ∷ fail 5 ∷ [] })).0 ≡ exited 5
unfolding main fill open_file read
read_fails = refl
