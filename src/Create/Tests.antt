-- ===== src/Create/Tests.antt =====
-- A run of test_file_create/temp.c on an empty disk.
use aup_assignments.Prelude.{◌≡◌, refl, none, some, []}
use aup_assignments.Unix.Files.{Os, open_file, close}
use aup_assignments.Create.{foo, main}

abbrev disk : Os
disk = record { files = λ name. none; fds = []; faults = []; errno = 0 }

empty_file : (main disk).1.files foo ≡ some []
unfolding main open_file close
empty_file = refl
