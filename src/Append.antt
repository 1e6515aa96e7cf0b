-- ===== src/Append.antt =====
-- assignment_1/append.c: five bytes at the start of a file through one descriptor, five more through
-- a second one opened with O_APPEND, after an lseek on the first, which is closed by then.
pub mod Results
mod Tests
use aup_assignments.Prelude.{
  ℕ, Bool, true, false, Option, some, List, [], ◌∷◌, ltb, ◌==◌, not, length, get_elem?,
}
use aup_assignments.Prelude.Int.{ℤ, pos, negsuc, ltb_ℤ}
use aup_assignments.Unix.Bytes.{Bytes}
use aup_assignments.Unix.Proc.{Exec, done, exited, pure, exit, when, ◌>>=◌, ◌>>◌}
use aup_assignments.Unix.Files.{
  Os, Proc, einval, Flags, from_start, open_file, close, lseek, write, return_errno, is_error,
}

-- O_WRONLY | O_CREAT
abbrev pub create_flags : Flags
create_flags = record {
  reads = false;
  writes = true;
  creates = true;
  appends = false;
  truncates = false;
}

-- O_WRONLY | O_APPEND
abbrev pub append_flags : Flags
append_flags = record {
  reads = false;
  writes = true;
  creates = false;
  appends = true;
  truncates = false;
}

-- "abcde" and "12345"
abbrev pub letters : Bytes
letters = b'a' ∷ b'b' ∷ b'c' ∷ b'd' ∷ b'e' ∷ []

abbrev pub numbers : Bytes
numbers = b'1' ∷ b'2' ∷ b'3' ∷ b'4' ∷ b'5' ∷ []

-- `main` up to the second open, with both descriptors, and from the lseek on; the messages are left
-- out.
abbrev pub opens : List Bytes → Proc (ℤ × ℤ)
opens argv = do
  when (not (length argv == 2)) (exit einval)
  fd ← open_file (get_elem? argv 1) create_flags
  when (is_error fd) return_errno
  bytes ← write fd letters
  when (is_error bytes) return_errno
  when (ltb_ℤ bytes (pos 5)) (exit 0)
  closed ← close fd
  when (is_error closed) return_errno
  fd_new ← open_file (get_elem? argv 1) append_flags
  when (is_error fd_new) return_errno
  pure (fd, fd_new)

abbrev pub appends : ℤ → ℤ → Proc ℕ
appends fd fd_new = do
  sought ← lseek fd (pos 0) from_start
  when (is_error sought) return_errno
  added ← write fd_new numbers
  when (is_error added) return_errno
  when (ltb_ℤ added (pos 5)) (exit 0)
  closed_new ← close fd_new
  when (is_error closed_new) return_errno
  pure 0

unfoldable pub main : List Bytes → Proc ℕ
main argv = opens argv >>= λ fds. appends fds.0 fds.1
