-- ===== src/Ids.antt =====
-- assignment_6/inherit_ids.c: the identifiers of a process and of its child.
pub mod Results
mod Tests
use aup_assignments.Prelude.{ℕ, Bool, Option, none, some, List, [], ◌∷◌, ◌++◌, get_or}
use aup_assignments.Unix.Proc.{Exec, done, exited, pure, exit, ◌>>=◌, ◌>>◌}
use aup_assignments.Unix.Stdio.{left, written}

-- What getuid, geteuid, getgid, getegid, getpid and getppid return.
pub record Process : Type 0 where
  pub uid : ℕ
  pub euid : ℕ
  pub gid : ℕ
  pub egid : ℕ
  pub pid : ℕ
  pub ppid : ℕ

pub data Label : Type 0 where
  real_uid effective_uid real_gid effective_gid process_id parent_process_id : Label

pub data Line : Type 0 where
  parents childs : Label → ℕ → Line

pub record State : Type 0 where
  pub process : Process
  pub buf : List Line
  pub out : List Line

abbrev pub Proc : Type 0 → Type 0
Proc A = State → Exec A × State

abbrev pub get : Proc Process
get s = (done s.process, s)

abbrev pub print : Bool → Line → Proc (Unit {0})
print now l s = (done tt, record s { buf = left now s.buf l; out = written now s.buf l s.out })

abbrev pub print_ids : Bool → (Label → ℕ → Line) → Proc (Unit {0})
print_ids now line = do
  p ← get
  print now (line real_uid p.uid)
  print now (line effective_uid p.euid)
  print now (line real_gid p.gid)
  print now (line effective_gid p.egid)
  print now (line process_id p.pid)
  print now (line parent_process_id p.ppid)

-- How fork turns out: it fails with an `errno`, or it makes a process with the given number. `adopted`
-- is the process that the child belongs to by the time it asks, if its parent has ended before that.
pub data Fork : Type 0 where
  fails : ℕ → Fork
  makes : ℕ → Option ℕ → Fork

abbrev parent_of : Option ℕ → ℕ → ℕ
parent_of none pid = pid
parent_of (some reaper) pid = reaper

-- The child, with a copy of the buffer.
abbrev pub child_of : ℕ → Option ℕ → State → State
child_of child_pid adopted s = record s {
  process = record s.process { pid = child_pid; ppid = parent_of adopted s.process.pid };
  out = [];
}

abbrev pub flushed : State → List Line
flushed s = s.out ++ s.buf

-- The status of the parent, and what each process has written until its end; there is no child after
-- a failing fork.
pub record Ends : Type 0 where
  pub status : ℕ
  pub parent_out : List Line
  pub child_out : Option (List Line)

-- The child prints; the parent sleeps.
abbrev pub after_fork : Bool → Fork → State → Ends
after_fork now (fails errno) s = record { status = errno; parent_out = flushed s; child_out = none }
after_fork now (makes child_pid adopted) s = record {
  status = 0;
  parent_out = flushed s;
  child_out = some (flushed (print_ids now childs (child_of child_pid adopted s)).1);
}

pub main : Bool → Fork → State → Ends
main now f s = after_fork now f (print_ids now parents s).1
