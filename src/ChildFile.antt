-- ===== src/ChildFile.antt =====
-- assignment_6/child_file_handle.c: a descriptor that the parent opens, and the child writes to.
pub mod Results
mod Tests
use aup_assignments.Prelude.{ℕ, true, false, Option, none, some, [], ◌∷◌}
use aup_assignments.Prelude.Int.{ℤ, pos, ltb_ℤ}
use aup_assignments.Unix.Bytes.{Bytes}
use aup_assignments.Unix.Proc.{Exec, done, exited, pure, exit, when, ◌>>=◌, ◌>>◌}
use aup_assignments.Unix.Files.{Os, Proc, Flags, open_file, write, return_errno, is_error}

abbrev pub parent_file : Bytes
parent_file = b'p' ∷ b'a' ∷ b'r' ∷ b'e' ∷ b'n' ∷ b't' ∷ b'_' ∷ b'f' ∷ b'i' ∷ b'l' ∷ b'e' ∷ []

-- O_RDWR | O_CREAT | O_APPEND
abbrev pub flags : Flags
flags = record { reads = true; writes = true; creates = true; appends = true; truncates = false }

abbrev pub coep : Bytes
coep = b'c' ∷ b'o' ∷ b'e' ∷ b'p' ∷ []

-- How both processes end; there is no child after a failing fork.
pub record Ends : Type 0 where
  pub parent : ℕ
  pub child : Option (Exec (Unit {0}))

-- The part of the child.
abbrev pub child : ℤ → Proc (Unit {0})
child fd = do
  size ← write fd coep
  when (is_error size) return_errno
  when (ltb_ℤ size (pos 4)) (exit 0)
  exit 0

-- fork, which fails if an `errno` is given. The parent sleeps and returns, and does not look at the
-- child.
abbrev pub forked : Option ℕ → ℤ → Proc Ends
forked (some errno) fd s = (done (record { parent = errno; child = none }), s)
forked none fd s = let (r, t) = child fd s in (done (record { parent = 0; child = some r }), t)

-- The result of open is not looked at either.
pub main : Option ℕ → Proc Ends
main fork_error = do fd ← open_file (some parent_file) flags; forked fork_error fd
