-- ===== src/Timing/Tests.antt =====
-- Runs of execution_time.c.
use aup_assignments.Prelude.{◌≡◌, refl, true, false, none, some, [], ◌∷◌}
use aup_assignments.Prelude.Int.{pos, negsuc, InRange}
use aup_assignments.Unix.Proc.{exited}
use aup_assignments.Timing.{
  title, getpid_took, fork_took, getpid_avg, fork_avg, program, rounds, main,
}
use aup_assignments.Timing.Rounds.{schedule, copies}
use aup_assignments.Timing.Clock.{shown}
use aup_assignments.Timing.Results.{start, printed, timings}

-- A fork that a new second interrupts: the difference is negative, and the sum with it.
over_a_second :
    (program true 1 (start 999990 (0 ∷ 1 ∷ 1 ∷ 0 ∷ 100 ∷ 1 ∷ []))).1.out
    ≡ title
      ∷ getpid_took 1 (pos 2)
      ∷ fork_took 1 (negsuc 999898)
      ∷ getpid_avg (pos 2) 10
      ∷ fork_avg (negsuc 999898) 10
      ∷ []
unfolding program rounds
over_a_second = refl

-- To a file, the child of the second round writes the four lines before its fork.
second_child :
    (program false 2 (start 0 [])).1.children
    ≡ (title ∷ getpid_took 1 (pos 0) ∷ [])
      ∷ (title ∷ getpid_took 1 (pos 0) ∷ fork_took 1 (pos 0) ∷ getpid_took 2 (pos 0) ∷ [])
      ∷ []
unfolding program rounds
second_child = refl

-- A failing fork in the first round.
fork_fails :
    let s = record (start 0 []) { faults = none ∷ none ∷ none ∷ some 11 ∷ [] } in
    ((program false 1 s).0 ≡ exited 11)
    × ((program false 1 s).1.out ≡ title ∷ getpid_took 1 (pos 0) ∷ [])
    × ((program false 1 s).1.children ≡ [])
unfolding program rounds
fork_fails = (refl, refl, refl)

timings_example :
    let rs = schedule 999990 (3 ∷ 4 ∷ 5 ∷ []) 10 in
    let r = main true (start 999990 (3 ∷ 4 ∷ 5 ∷ [])) in
    (r.0 ≡ exited 0)
    × (r.1.out ≡ printed shown rs)
    × (r.1.children ≡ copies shown true (title ∷ []) 0 rs)
    × InRange 9999990 r.1.getpid_t
    × InRange 9999990 r.1.fork_t
timings_example = timings true 999990 (3 ∷ 4 ∷ 5 ∷ [])
