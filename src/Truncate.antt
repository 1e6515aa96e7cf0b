-- ===== src/Truncate.antt =====
-- assignment_1/truncate.c: `mytruncate` on an open descriptor.
pub mod Laws
pub mod Results
mod Tests
use aup_assignments.Prelude.{
  ℕ, zero, suc, ◌+◌, ◌-◌, ◌%◌, ◌^◌, Bool, true, false, Option, none, some, List, [], ◌∷◌, ltb, leb,
  ◌==◌, not, if◌then◌else◌, length, get_elem?, get_or,
}
use aup_assignments.Prelude.Int.{ℤ, pos, negsuc, minus_one, eqb_ℤ, ltb_ℤ}
use aup_assignments.Unix.Bytes.{Bytes}
use aup_assignments.Unix.Atoi.{atoi}
use aup_assignments.Unix.Proc.{Exec, done, exited, pure, exit, when, ◌>>=◌, ◌>>◌}
use aup_assignments.Unix.Files.{
  Os, Proc, einval, Flags, Whence, from_start, from_end, open_file, close, lseek, write,
  return_errno, is_error,
}

-- The conversion of an `off_t` to `int`, which keeps the low 32 bits.
abbrev pub to_int : ℤ → ℤ
to_int (pos n) = let r = n % 2 ^ 32 in if ltb r (2 ^ 31) then pos r else negsuc (2 ^ 32 - 1 - r)
to_int (negsuc n) = negsuc n

-- a - b where a is not below b.
abbrev pub distance : ℤ → ℤ → ℕ
distance (pos a) (pos b) = a - b
distance (pos a) (negsuc b) = a + suc b
distance (negsuc a) (pos b) = 0
distance (negsuc a) (negsuc b) = b - a

-- The loops that write one zero byte `n` times; `false` when a write does not write its byte.
pub write_zeros : ℕ → ℤ → Proc Bool
write_zeros zero fd = pure true
write_zeros (suc n) fd =
    write fd (0 ∷ []) >>= λ r. if eqb_ℤ r (pos 1) then write_zeros n fd else pure false

abbrev pub status : Bool → ℕ
status true = 0
status false = 1

-- The results `none` are undefined behaviour: a difference or a loop variable that is past the
-- largest int, as in `i <= size` when size is that.
abbrev pub grow : ℤ → ℤ → ℤ → Proc (Option ℕ)
grow fd offset size = do
  r ← lseek fd (pos 1) from_end
  if is_error r
      then pure (some 1)
      else if leb (2 ^ 31) (distance offset size)
      then pure none
      else (do b ← write_zeros (distance offset size) fd; pure (some (status b)))

abbrev pub after_loop : ℤ → Bool → Option ℕ
after_loop size false = some 1
after_loop size true = if eqb_ℤ size (pos (2 ^ 31 - 1)) then none else some 0

abbrev pub blank : ℤ → ℤ → ℤ → Proc (Option ℕ)
blank fd offset size = do
  r ← lseek fd offset from_start
  let p = to_int r
  if is_error p
      then pure (some 1)
      else (do b ← write_zeros (distance size p + 1) fd; pure (after_loop size b))

unfoldable pub mytruncate : ℤ → ℤ → Proc (Option ℕ)
unfolding write_zeros
mytruncate fd offset = do
  r ← lseek fd (pos 0) from_end
  let size = to_int r
  if is_error size
      then pure (some 1)
      else if eqb_ℤ size offset
      then pure (some 0)
      else if ltb_ℤ size offset
      then grow fd offset size
      else blank fd offset size

abbrev pub read_write : Flags
read_write = record {
  reads = true;
  writes = true;
  creates = false;
  appends = false;
  truncates = false;
}

abbrev pub finish : ℤ → Option ℕ → Proc (Option ℕ)
finish fd none = pure none
finish fd (some r) = do
  when (r == 1) (exit 0)
  z ← close fd
  when (is_error z) return_errno
  pure (some 0)

-- `main` with `argv`, the program's name included. The messages are left out.
unfoldable pub main : List Bytes → Proc (Option ℕ)
unfolding mytruncate
main argv = do
  when (not (length argv == 3)) (exit einval)
  fd ← open_file (get_elem? argv 1) read_write
  when (is_error fd) return_errno
  r ← mytruncate fd (atoi (get_or argv 2 []))
  finish fd r
