-- ===== src/Unix/Grows.antt =====
-- Computations that never shorten a file, whatever faults occur.
use native.Mathlib.Nat.{le_refl, le_trans}
use aup_assignments.Prelude.{
  ℕ, ◌≤◌, Bool, true, false, Option, none, some, arith, inl, inr, Bool-cases, length, if◌then◌else◌,
  take,
}
use aup_assignments.Prelude.Int.{ℤ}
use aup_assignments.Unix.Bytes.{Bytes, bytes_eqb, bytes_eqb→eq, write_at, length-write_at}
use aup_assignments.Unix.Proc.{Exec, done, exited, pure, continue, ◌>>=◌}
use aup_assignments.Unix.Files.{
  Fault, clear, fail, short, Ofd, Os, Proc, contents, desc, write_desc, write_call, taken,
  write_pos, update, next_fault, Whence, write, lseek,
}

-- The size of the file of that name.
abbrev pub size : Os → Bytes → ℕ
size s name = length (contents (s.files name))

pub record Grows {A : Type 0} (m : Proc A) : Type 0 where
  pub at : (s : Os) (name : Bytes) → size s name ≤ size (m s).1 name

pub Grows-pure : {A : Type 0} (a : A) → Grows (pure {S = Os} a)
Grows-pure a = record { at = λ s name. le_refl _ }

Grows-continue :
    {A B : Type 0} (r : Exec A) (f : A → Proc B) → ((a : A) → Grows (f a)) → Grows (continue r f)
Grows-continue (done a) f h = h a
Grows-continue (exited n) f h = record { at = λ s name. le_refl _ }

pub Grows-bind :
    {A B : Type 0} (m : Proc A) (f : A → Proc B)
    → Grows m
    → ((a : A) → Grows (f a))
    → Grows (m >>= f)
Grows-bind m f g h = record {
  at = λ s name. le_trans (g.at s name) ((Grows-continue (m s).0 f h).at (m s).1 name);
}

pub Grows-if :
    {A : Type 0} (b : Bool) (m n : Proc A) → Grows m → Grows n → Grows (if b then m else n)
Grows-if true m n g h = g
Grows-if false m n g h = h

update-le :
    (s : Os) (n name : Bytes) (p : ℕ) (bs : Bytes)
    → size s name ≤ length (contents (update s.files n (write_at (contents (s.files n)) p bs) name))
update-le s n name p bs = elim (Bool-cases (bytes_eqb name n)) [
  | inl same ↦ rw same (rw (bytes_eqb→eq name n same) (length-write_at (contents (s.files n)) p bs))
  | inr other ↦ rw other (le_refl _)
]

write_desc-le :
    (o : Option Ofd) (fd : ℤ) (bs : Bytes) (s : Os) (name : Bytes)
    → size s name ≤ size (write_desc o fd bs s).1 name
write_desc-le none fd bs s name = le_refl _
write_desc-le (some d) fd bs s name = elim (Bool-cases d.writes) [
  | inl w ↦ rw w (update-le s d.name name (write_pos d (contents (s.files d.name))) bs)
  | inr w ↦ rw w (le_refl _)
]

write_call-le :
    (f : Fault) (fd : ℤ) (bs : Bytes) (s : Os) (name : Bytes)
    → size s name ≤ size (write_call f fd bs s).1 name
write_call-le clear fd bs s name = write_desc-le (desc s.fds fd) fd bs s name
write_call-le (fail e) fd bs s name = le_refl _
write_call-le (short n) fd bs s name = write_desc-le (desc s.fds fd) fd (take n bs) s name

pub Grows-write : (fd : ℤ) (bs : Bytes) → Grows (write fd bs)
unfolding write
Grows-write fd bs = record {
  at = λ s name. write_call-le (next_fault s.faults) fd bs (taken s) name;
}

pub Grows-lseek : (fd off : ℤ) (w : Whence) → Grows (lseek fd off w)
unfolding lseek
Grows-lseek fd off w = record { at = λ s name. ground arith }

pub ruleset grows_rules = (Grows-pure, Grows-bind, Grows-if, Grows-write, Grows-lseek)
