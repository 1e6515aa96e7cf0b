-- ===== src/Times/Results.antt =====
-- The times that times.c prints.
use aup_assignments.Prelude.{ℕ, ◌+◌, ◌≤◌, ◌≡◌, refl, Option, List, [], ◌∷◌, arith}
use aup_assignments.Unix.Proc.{exited}
use aup_assignments.Times.{
  Stamps, before_open, after_open, before_write, after_write, before_access, after_access,
  before_chmod, after_chmod, Line, file, directory, State, main,
}

abbrev pub start : ℕ → List ℕ → List (Option ℕ) → Stamps → Stamps → State
start now ticks faults f d = record {
  now = now;
  ticks = ticks;
  faults = faults;
  of_file = f;
  of_directory = d;
  out = [];
}

-- All lines of a run without a failing call, with a write at time `w` and a chmod at time `c`.
abbrev pub lines : Stamps → Stamps → ℕ → ℕ → List Line
lines f d w c =
    let changed = record f { mtime = w; ctime = w } in
    file before_open f
    ∷ directory before_open d
    ∷ file after_open f
    ∷ directory after_open d
    ∷ file before_write f
    ∷ directory before_write d
    ∷ file after_write changed
    ∷ directory after_write d
    ∷ file before_access changed
    ∷ directory before_access d
    ∷ file after_access changed
    ∷ directory after_access d
    ∷ file before_chmod changed
    ∷ directory before_chmod d
    ∷ file after_chmod (record changed { ctime = c })
    ∷ directory after_chmod d
    ∷ []

-- If no call fails, however long the calls take, the program exits with 0 and prints sixteen lines:
-- the file has its times of the start up to the write, at a time `w` at least a second after the start;
-- from then on its contents and its status have changed at `w`; and after the chmod, at a time `c` at
-- least two seconds after `w`, only its status has changed again. The directory has its times of the
-- start in all lines, and open and access change nothing.
pub times_printed :
    (now : ℕ) (ticks : List ℕ) (f d : Stamps)
    → (w : ℕ) × (c : ℕ) × (now + 1 ≤ w)
      × (w + 2 ≤ c)
      × ((main (start now ticks [] f d)).0 ≡ exited 0)
      × ((main (start now ticks [] f d)).1.out ≡ lines f d w c)
times_printed now ticks f d = (_, _, omega arith, omega arith, refl, refl)
