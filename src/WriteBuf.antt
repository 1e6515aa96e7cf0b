-- ===== src/WriteBuf.antt =====
-- test_write_to_buf/writebuf.c: reads into the middle of an array.
pub mod Results
mod Tests
use aup_assignments.Prelude.{
  ℕ, zero, suc, Bool, true, false, some, List, [], ◌∷◌, ◌==◌, set, if◌then◌else◌,
}
use aup_assignments.Prelude.Int.{ℤ}
use aup_assignments.Unix.Bytes.{Bytes}
use aup_assignments.Unix.Proc.{Exec, pure, when, ◌>>=◌, ◌>>◌}
use aup_assignments.Unix.Files.{Proc, Flags, open_file, read, return_errno, is_error}

abbrev pub read_from_file : Bytes
read_from_file =
    b'r' ∷ b'e' ∷ b'a' ∷ b'd' ∷ b'_' ∷ b'f' ∷ b'r' ∷ b'o' ∷ b'm' ∷ b'_' ∷ b'f' ∷ b'i' ∷ b'l' ∷ b'e'
    ∷ []

-- O_RDONLY
abbrev pub read_only : Flags
read_only = record {
  reads = true;
  writes = false;
  creates = false;
  appends = false;
  truncates = false;
}

abbrev pub hashes : Bytes
hashes = b'#' ∷ b'#' ∷ b'#' ∷ b'#' ∷ 0 ∷ []

-- What printf prints of an array of characters.
abbrev pub string : Bytes → Bytes
string [] = []
string (b ∷ bs) = if b == 0 then [] else b ∷ string bs

-- At the end of the file, read stores nothing.
abbrev pub store : Bytes → ℕ → Bytes → Bytes
store buf i [] = buf
store buf i (b ∷ bs) = set buf i b

-- The loop, with `n` rounds left from `i` on.
pub fill : ℕ → ℕ → ℤ → Bytes → Proc Bytes
fill zero i fd buf = pure buf
fill (suc n) i fd buf = do
  g ← read fd 1
  when (is_error g.count) return_errno
  fill n (suc i) fd (store buf i g.bytes)

-- The two lines printed; of a run that ends early, only the status.
pub main : Proc (List Bytes)
unfolding fill
main = do
  fd ← open_file (some read_from_file) read_only
  when (is_error fd) return_errno
  buf ← fill 3 1 fd hashes
  pure (string hashes ∷ string buf ∷ [])
