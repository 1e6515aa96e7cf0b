-- ===== src/Times/Tests.antt =====
-- times.c with a clock that stands at 100 and a chmod that fails.
use aup_assignments.Prelude.{ℕ, ◌+◌, ◌≤◌, ◌≡◌, refl, none, some, List, [], ◌∷◌, Option}
use aup_assignments.Unix.Proc.{exited}
use aup_assignments.Times.{Stamps, main}
use aup_assignments.Times.Results.{start, lines, times_printed}

abbrev old : Stamps
old = record { atime = 50; mtime = 40; ctime = 45 }

abbrev dir : Stamps
dir = record { atime = 60; mtime = 61; ctime = 62 }

-- The eighteenth call of those that may fail is chmod's.
abbrev chmod_denied : List (Option ℕ)
chmod_denied =
    none
    ∷ none
    ∷ none
    ∷ none
    ∷ none
    ∷ none
    ∷ none
    ∷ none
    ∷ none
    ∷ none
    ∷ none
    ∷ none
    ∷ none
    ∷ none
    ∷ none
    ∷ none
    ∷ none
    ∷ some 1
    ∷ []

-- The program goes on after it, and the status has not changed.
goes_on : (main (start 100 [] chmod_denied old dir)).1.of_file.ctime ≡ 101
goes_on = refl

-- A failing write ends it.
write_denied :
    (main (start 100 [] (none ∷ none ∷ none ∷ none ∷ none ∷ none ∷ none ∷ some 28 ∷ []) old dir)).0
    ≡ exited 28
write_denied = refl

times_printed_example :
    (w : ℕ) × (c : ℕ) × (100 + 1 ≤ w)
    × (w + 2 ≤ c)
    × ((main (start 100 [] [] old dir)).0 ≡ exited 0)
    × ((main (start 100 [] [] old dir)).1.out ≡ lines old dir w c)
times_printed_example = times_printed 100 [] old dir
