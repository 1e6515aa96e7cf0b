-- ===== src/Rdwr.antt =====
-- assignment_1/rdwr.c: ten bytes read, the rest of the file skipped, five bytes written.
pub mod Results
mod Tests
use aup_assignments.Prelude.{
  ℕ, zero, suc, ◌-◌, ◌^◌, Bool, true, false, Option, none, some, List, [], ◌∷◌, ltb, ◌==◌, ◌&&◌,
  not, length, get_elem?, get_or, if◌then◌else◌,
}
use aup_assignments.Prelude.Int.{ℤ, pos, ltb_ℤ, eqb_ℤ}
use aup_assignments.Unix.Bytes.{Bytes}
use aup_assignments.Unix.Proc.{Exec, done, exited, pure, exit, when, ◌>>=◌, ◌>>◌}
use aup_assignments.Unix.Files.{
  Os, Proc, Flags, Got, einval, open_file, close, write, read, return_errno, is_error,
}

-- O_RDWR
abbrev pub read_write : Flags
read_write = record {
  reads = true;
  writes = true;
  creates = false;
  appends = false;
  truncates = false;
}

abbrev pub hello : Bytes
hello = b'h' ∷ b'e' ∷ b'l' ∷ b'l' ∷ b'o' ∷ []

-- `ch` is an `int` of which read sets the lowest byte alone; `high` is what stands in the other
-- three. It equals EOF when all four bytes are 255.
abbrev pub is_eof : ℕ → ℕ → Bool
is_eof high byte = byte == 255 && high == 2 ^ 24 - 1

-- The test of the `while`.
abbrev pub goes_on : ℕ → Got → Bool
goes_on high g = eqb_ℤ g.count (pos 1) && not (is_eof high (get_or g.bytes 0 0))

abbrev pub again : Bool → Proc Bool → Proc Bool
again true rest = rest
again false rest = pure true

-- The loop with an empty body, on fuel; `false` means that the fuel ran out.
pub skip : ℕ → ℕ → ℤ → Proc Bool
skip zero high fd = pure false
skip (suc fuel) high fd = do g ← read fd 1; again (goes_on high g) (skip fuel high fd)

-- `main`, the messages left out; `none` means that the fuel of the loop ran out.
unfoldable pub main : ℕ → ℕ → List Bytes → Proc (Option ℕ)
unfolding skip
main fuel high argv = do
  when (not (length argv == 2)) (exit einval)
  fd ← open_file (get_elem? argv 1) read_write
  when (is_error fd) return_errno
  first ← read fd 10
  let bytes = first.count
  when (is_error bytes) return_errno
  when (ltb_ℤ bytes (pos 10)) (exit 0)
  finished ← skip fuel high fd
  if finished
      then (do
        written ← write fd hello
        when (is_error written) return_errno
        when (ltb_ℤ written (pos 5)) (exit 0)
        closed ← close fd
        when (is_error closed) return_errno
        pure (some 0))
      else pure none
