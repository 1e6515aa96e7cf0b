-- ===== src/Create.antt =====
-- test_file_create/temp.c: an open with O_CREAT and a close, whose results nothing looks at.
mod Results
mod Tests
use aup_assignments.Prelude.{true, false, some, [], ◌∷◌}
use aup_assignments.Unix.Bytes.{Bytes}
use aup_assignments.Unix.Proc.{exit, ◌>>=◌}
use aup_assignments.Unix.Files.{Proc, Flags, open_file, close}

abbrev pub foo : Bytes
foo = b'f' ∷ b'o' ∷ b'o' ∷ []

-- O_RDONLY | O_CREAT
abbrev pub flags : Flags
flags = record { reads = true; writes = false; creates = true; appends = false; truncates = false }

pub main : Proc (Unit {0})
main = do fd ← open_file (some foo) flags; _ ← close fd; exit 0
