-- ===== src/Umask.antt =====
-- assignment_2/umask.c: two files made around a look at the file mode creation mask.
pub mod Bits
pub mod Results
mod Tests
use aup_assignments.Prelude.{
  ℕ, zero, suc, ◌+◌, ◌*◌, ◌/◌, ◌%◌, Bool, true, false, not, ◌&&◌, Option, none, some, List, [], ◌∷◌,
  ◌++◌, ◌==◌, if◌then◌else◌, length, get_elem?,
}
use aup_assignments.Unix.Bytes.{Bytes, bytes_eqb}
use aup_assignments.Unix.Proc.{Exec, done, exited, pure, exit, when, ◌>>=◌, ◌>>◌}

pub data Line : Type 0 where
  usage : Line
  number : ℕ → Line

-- The mask of the process, the mode of each file by its name, the lines printed, and the calls that
-- fail, with their `errno`.
pub record State : Type 0 where
  pub mask : ℕ
  pub modes : Bytes → Option ℕ
  pub out : List Line
  pub faults : List (Option ℕ)

abbrev pub Proc : Type 0 → Type 0
Proc A = State → Exec A × State

abbrev pub efault : ℕ
efault = 14

abbrev pub has_bit : ℕ → ℕ → Bool
has_bit zero n = n % 2 == 1
has_bit (suc i) n = has_bit i (n / 2)

-- mode & ~mask, for modes of some number of bits.
abbrev pub unmasked : ℕ → ℕ → ℕ → ℕ
unmasked zero mode mask = 0
unmasked (suc width) mode mask =
    (if mode % 2 == 1 && not (mask % 2 == 1) then 1 else 0)
    + 2 * unmasked width (mode / 2) (mask / 2)

-- 0666 under a mask; a mode has nine bits of permissions.
abbrev pub permitted : ℕ → ℕ
permitted mask = unmasked 9 438 mask

abbrev pub first_fault : List (Option ℕ) → Option ℕ
first_fault [] = none
first_fault (f ∷ fs) = f

abbrev pub later_faults : List (Option ℕ) → List (Option ℕ)
later_faults [] = []
later_faults (f ∷ fs) = fs

-- A failing call ends the program with its `errno`.
abbrev pub guarded : Option ℕ → Proc (Unit {0}) → Proc (Unit {0})
guarded none m s = m s
guarded (some errno) m s = (exited errno, s)

abbrev pub call : Proc (Unit {0}) → Proc (Unit {0})
call m s = guarded (first_fault s.faults) m (record s { faults = later_faults s.faults })

abbrev pub put : (Bytes → Option ℕ) → Bytes → ℕ → Bytes → Option ℕ
put modes path mode p = if bytes_eqb p path then some mode else modes p

abbrev pub create : Bytes → Option ℕ → Proc (Unit {0})
create path (some mode) s = (done tt, s)
create path none s = (done tt, record s { modes = put s.modes path (permitted s.mask) })

-- open with O_CREAT and the mode 0666; the null pointer behind the last argument is no path.
abbrev pub open_file : Option Bytes → Proc (Unit {0})
open_file none = call (exit efault)
open_file (some path) = call (λ s. create path (s.modes path) s)

abbrev pub close : Proc (Unit {0})
close = call (pure tt)

abbrev pub umask : ℕ → Proc ℕ
umask new s = (done s.mask, record s { mask = new })

abbrev pub getumask : Proc ℕ
getumask = do mask ← umask 0; _ ← umask mask; pure mask

abbrev pub print : Line → Proc (Unit {0})
print l s = (done tt, record s { out = s.out ++ l ∷ [] })

-- main on its arguments behind the program's name. It goes on after the usage message.
abbrev pub main : List Bytes → Proc (Unit {0})
main args = do
  when (not (length args == 2)) (print usage)
  open_file (get_elem? args 0)
  mask ← getumask
  print (number mask)
  open_file (get_elem? args 1)
  close
  close
  exit 0
