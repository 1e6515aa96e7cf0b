-- ===== src/Times.antt =====
-- assignment_3/times.c: the times of a file and of its directory before and after open, write, access
-- and chmod.
pub mod Results
mod Tests
use aup_assignments.Prelude.{
  ℕ, ◌+◌, Bool, true, false, not, Option, none, some, List, [], ◌∷◌, ◌++◌, if◌then◌else◌,
}
use aup_assignments.Unix.Proc.{Exec, done, exited, pure, exit, when, ◌>>=◌, ◌>>◌}

-- st_atime, st_mtime and st_ctime.
pub record Stamps : Type 0 where
  pub atime : ℕ
  pub mtime : ℕ
  pub ctime : ℕ

pub data When : Type 0 where
  before_open after_open before_write after_write : When
  before_access after_access before_chmod after_chmod : When

-- The lines that the program prints: the times of the file "before_after", and those of the directory.
pub data Line : Type 0 where
  file : When → Stamps → Line
  directory : When → Stamps → Line

-- `now` is the time in seconds; each call takes the first of `ticks`, and no time if there is none;
-- the call fails with the first of `faults` if that is an `errno`.
pub record State : Type 0 where
  pub now : ℕ
  pub ticks : List ℕ
  pub faults : List (Option ℕ)
  pub of_file : Stamps
  pub of_directory : Stamps
  pub out : List Line

abbrev pub Proc : Type 0 → Type 0
Proc A = State → Exec A × State

abbrev pub first_tick : List ℕ → ℕ
first_tick [] = 0
first_tick (t ∷ ts) = t

abbrev pub later_ticks : List ℕ → List ℕ
later_ticks [] = []
later_ticks (t ∷ ts) = ts

abbrev pub first_fault : List (Option ℕ) → Option ℕ
first_fault [] = none
first_fault (f ∷ fs) = f

abbrev pub later_faults : List (Option ℕ) → List (Option ℕ)
later_faults [] = []
later_faults (f ∷ fs) = fs

-- What every call does first.
abbrev pub enter : State → State
enter s = record s {
  now = s.now + first_tick s.ticks;
  ticks = later_ticks s.ticks;
  faults = later_faults s.faults;
}

-- A call with the effect `f`, and the return of `errno` if it fails.
abbrev pub outcome : Option ℕ → (State → State) → Proc (Unit {0})
outcome none f s = (done tt, f s)
outcome (some errno) f s = (exited errno, s)

abbrev pub call : (State → State) → Proc (Unit {0})
call f s = outcome (first_fault s.faults) f (enter s)

-- A failing chmod or close does not end the program.
abbrev pub ignored : Option ℕ → (State → State) → Proc (Unit {0})
ignored none f s = (done tt, f s)
ignored (some errno) f s = (done tt, s)

abbrev pub try_call : (State → State) → Proc (Unit {0})
try_call f s = ignored (first_fault s.faults) f (enter s)

-- stat of the file or of the directory, and the line on it.
abbrev pub show_file : When → State → State
show_file w s = record s { out = s.out ++ file w s.of_file ∷ [] }

abbrev pub show_directory : When → State → State
show_directory w s = record s { out = s.out ++ directory w s.of_directory ∷ [] }

abbrev pub show : When → Proc (Unit {0})
show w = do call (show_file w); call (show_directory w)

abbrev pub sleep : Proc (Unit {0})
sleep s = (done tt, record (enter s) { now = (enter s).now + 1; faults = s.faults })

-- write sets the time of the last change of the contents and that of the status; chmod sets the
-- latter.
abbrev pub write_effect : State → State
write_effect s = record s { of_file = record s.of_file { mtime = s.now; ctime = s.now } }

abbrev pub chmod_effect : State → State
chmod_effect s = record s { of_file = record s.of_file { ctime = s.now } }

-- open, access and close change no time.
abbrev pub no_effect : State → State
no_effect s = s

abbrev pub main : Proc (Unit {0})
main = do
  show before_open
  call no_effect
  show after_open
  sleep
  show before_write
  call write_effect
  show after_write
  sleep
  show before_access
  call no_effect
  show after_access
  sleep
  show before_chmod
  try_call chmod_effect
  show after_chmod
  try_call no_effect
  exit 0
