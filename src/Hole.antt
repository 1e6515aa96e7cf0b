-- ===== src/Hole.antt =====
-- assignment_1/hole_in_file.c: a file with two runs of ten '#' bytes and holes before them, and its
-- copy without the zero bytes.
pub mod Loop
pub mod Results
mod Tests
use aup_assignments.Prelude.{
  ℕ, zero, suc, Bool, true, false, Option, none, some, List, [], ◌∷◌, ltb, ◌==◌, ◌&&◌, not, length,
  get_elem?, get_or, replicate, if◌then◌else◌,
}
use aup_assignments.Prelude.Int.{ℤ, pos, negsuc, ltb_ℤ, eqb_ℤ}
use aup_assignments.Unix.Bytes.{Bytes}
use aup_assignments.Unix.Proc.{Exec, done, exited, pure, exit, when, ◌>>=◌, ◌>>◌}
use aup_assignments.Unix.Files.{
  Os, Proc, Flags, Got, from_start, open_file, close, lseek, write, read, return_errno, is_error,
}

-- O_RDWR | O_CREAT
abbrev pub source_flags : Flags
source_flags = record {
  reads = true;
  writes = true;
  creates = true;
  appends = false;
  truncates = false;
}

-- O_WRONLY | O_CREAT
abbrev pub target_flags : Flags
target_flags = record {
  reads = false;
  writes = true;
  creates = true;
  appends = false;
  truncates = false;
}

abbrev pub hashes : Bytes
hashes = replicate 10 b'#'

-- The byte that as a signed `char` equals EOF.
abbrev pub eof_byte : ℕ
eof_byte = 255

-- The test of the `while`.
abbrev pub goes_on : Got → Bool
goes_on g = eqb_ℤ g.count (pos 1) && not (get_or g.bytes 0 0 == eof_byte)

-- The body of the `while`, after its test and the test of the byte for zero; `rest` is the next round.
abbrev pub copy_byte : Bool → Bool → ℕ → ℤ → Proc Bool → Proc Bool
copy_byte false null ch out rest = pure true
copy_byte true true ch out rest = rest
copy_byte true false ch out rest = do r ← write out (ch ∷ []); when (is_error r) return_errno; rest

-- The copying loop with fuel; `false` means that the fuel ran out.
pub copy : ℕ → ℤ → ℤ → Proc Bool
copy zero fd out = pure false
copy (suc fuel) fd out = do
  g ← read fd 1
  let ch = get_or g.bytes 0 0
  copy_byte (goes_on g) (ch == 0) ch out (copy fuel fd out)

-- `main`, the messages and the calls of system left out. A wrong number of arguments does not end
-- it: a missing name is a null pointer. The second write is tested against 1, not -1. `none` means
-- that the fuel of the loop ran out.
unfoldable pub main : ℕ → List Bytes → Proc (Option ℕ)
unfolding copy
main fuel argv = do
  fd ← open_file (get_elem? argv 1) source_flags
  when (is_error fd) return_errno
  p ← lseek fd (pos 10) from_start
  when (is_error p) return_errno
  bytes ← write fd hashes
  when (is_error bytes) return_errno
  when (ltb_ℤ bytes (pos 10)) (exit 0)
  q ← lseek fd (pos 30) from_start
  when (is_error q) return_errno
  more ← write fd hashes
  when (eqb_ℤ more (pos 1)) return_errno
  when (ltb_ℤ more (pos 10)) (exit 0)
  rewound ← lseek fd (pos 0) from_start
  fd_new ← open_file (get_elem? argv 2) target_flags
  when (is_error fd_new) return_errno
  finished ← copy fuel fd fd_new
  if finished
      then (do
        closed ← close fd
        when (is_error closed) return_errno
        closed_new ← close fd_new
        when (is_error closed_new) return_errno
        pure (some 0))
      else pure none
