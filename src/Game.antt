-- ===== src/Game.antt =====
-- assignment_7/game.c: a set-user-id program that writes a line into a file of its user and one into
-- a file of its owner, four times, and changes between the two user ids.
pub mod Rounds
pub mod Results
mod Tests
use aup_assignments.Prelude.{
  ℕ, suc, ◌+◌, ◌%◌, Bool, true, false, Option, none, some, List, [], ◌∷◌, ◌++◌, ◌==◌, ◌&&◌, ◌||◌,
  not, if◌then◌else◌,
}
use aup_assignments.Prelude.Int.{ℤ, pos, minus_one}
use aup_assignments.Unix.Bytes.{Bytes, bytes_eqb}
use aup_assignments.Unix.Proc.{Exec, done, exited, pure, exit, when, ◌>>=◌, ◌>>◌}
use aup_assignments.Unix.Files.{Os, Flags, taken, failed, open_file, close, write, is_error}

-- A process with its three user ids. `may_write` says which user may write a file that is there, and
-- `may_create` which user may create a file in the current directory.
pub record State : Type 0 where
  pub os : Os
  pub real : ℕ
  pub effective : ℕ
  pub saved : ℕ
  pub may_write : Bytes → ℕ → Bool
  pub may_create : ℕ → Bool

abbrev pub Game : Type 0 → Type 0
Game A = State → Exec A × State

abbrev pub lift : {A : Type 0} → (Os → Exec A × Os) → Game A
lift m s = let r = m s.os in (r.0, record s { os = r.1 })

abbrev pub eperm : ℕ
eperm = 1

abbrev pub eacces : ℕ
eacces = 13

abbrev pub set_errno : ℕ → State → State
set_errno e s = record s { os = record (taken s.os) { errno = e } }

-- seteuid: the super-user may take any user id, others the real or the saved one.
abbrev pub seteuid : ℕ → Game ℤ
seteuid u s =
    if u == s.real || (u == s.saved || s.effective == 0)
    then (done (pos 0), record s { effective = u; os = taken s.os })
    else (done minus_one, set_errno eperm s)

-- A file that is created belongs to the effective user, and its mode 0644 lets no other user write
-- it but the super-user.
abbrev pub owned : Bytes → State → State
owned name s = record s {
  may_write = λ n u. if bytes_eqb n name then (u == s.effective || u == 0) else s.may_write n u;
}

abbrev pub denied : Game ℤ
denied s = (done minus_one, set_errno eacces s)

abbrev pub open_existing : Bytes → Flags → Option Bytes → Game ℤ
unfolding open_file
open_existing name g (some c) s =
    if s.may_write name s.effective then lift (open_file (some name) g) s else denied s
open_existing name g none s =
    if g.creates && not (s.may_create s.effective)
    then denied s
    else lift (open_file (some name) g) (if g.creates then owned name s else s)

-- open for writing, with the permissions of the effective user.
pub open_as : Bytes → Flags → Game ℤ
unfolding open_existing
open_as name g s = open_existing name g (s.os.files name) s

-- O_WRONLY | O_CREAT | O_TRUNC
abbrev pub create_flags : Flags
create_flags = record {
  reads = false;
  writes = true;
  creates = true;
  appends = false;
  truncates = true;
}

-- O_WRONLY | O_APPEND
abbrev pub append_flags : Flags
append_flags = record {
  reads = false;
  writes = true;
  creates = false;
  appends = true;
  truncates = false;
}

abbrev pub own : Bytes
own = b'o' ∷ b'w' ∷ b'n' ∷ []

abbrev pub scores : Bytes
scores = b's' ∷ b'c' ∷ b'o' ∷ b'r' ∷ b'e' ∷ b's' ∷ []

-- " euid:"
abbrev pub prefix : Bytes
prefix = b' ' ∷ b'e' ∷ b'u' ∷ b'i' ∷ b'd' ∷ b':' ∷ []

-- " euid:temp:1001"
abbrev pub temp : Bytes
temp = prefix ++ b't' ∷ b'e' ∷ b'm' ∷ b'p' ∷ b':' ∷ b'1' ∷ b'0' ∷ b'0' ∷ b'1' ∷ []

-- " euid:niramay:1000"
abbrev pub niramay : Bytes
niramay =
    prefix ++ b'n' ∷ b'i' ∷ b'r' ∷ b'a' ∷ b'm' ∷ b'a' ∷ b'y' ∷ b':' ∷ b'1' ∷ b'0' ∷ b'0' ∷ b'0' ∷ []

abbrev pub change_to : ℕ → Game (Unit {0})
change_to u = do status ← seteuid u; when (is_error status) (exit 0)

-- _POSIX_SAVED_IDS is defined.
abbrev pub undo_setuid : ℕ → ℕ → Game (Unit {0})
undo_setuid ruid euid = change_to ruid

abbrev pub do_setuid : ℕ → ℕ → Game (Unit {0})
do_setuid ruid euid = change_to euid

abbrev pub geteuid : Game ℕ
geteuid s = (done s.effective, s)

-- The three writes of a line; their results are used for messages only.
pub write_line : ℤ → ℕ → Bytes → Game (Unit {0})
unfolding write
write_line fd ch info = do
  a ← lift (write fd (ch ∷ []))
  b ← lift (write fd info)
  c ← lift (write fd (10 ∷ []))
  pure tt

-- The body of the `for`.
pub round : ℕ → ℕ → ℕ → Game (Unit {0})
unfolding open_as write_line close
round ruid euid i = do
  if i % 2 == 1 then undo_setuid ruid euid else do_setuid ruid euid
  id ← geteuid
  let info = if id == euid then temp else niramay
  fd_own ← open_as own append_flags
  fd_scores ← open_as scores append_flags
  write_line fd_own (i + 48) info
  write_line fd_scores (i + 48) info
  a ← lift (close fd_own)
  b ← lift (close fd_scores)
  pure tt

abbrev pub get_ids : Game (ℕ × ℕ)
get_ids s = (done (s.real, s.effective), s)

-- Both files are made, each under its user id.
pub make_files : ℕ → ℕ → Game (Unit {0})
unfolding open_as close
make_files ruid euid = do
  undo_setuid ruid euid
  fd_own ← open_as own create_flags
  do_setuid ruid euid
  fd_scores ← open_as scores create_flags
  a ← lift (close fd_own)
  b ← lift (close fd_scores)
  pure tt

-- `main`; the messages are left out.
unfoldable pub main : Game ℕ
unfolding make_files round
main = do
  ids ← get_ids
  let ruid = ids.0
  let euid = ids.1
  make_files ruid euid
  round ruid euid 1
  round ruid euid 2
  round ruid euid 3
  round ruid euid 4
  pure 0
