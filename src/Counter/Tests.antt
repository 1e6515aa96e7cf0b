-- ===== src/Counter/Tests.antt =====
-- Runs of the two counting threads, and the theorems at the states they lead to.
use aup_assignments.Prelude.{
  ℕ, ◌+◌, ◌*◌, ◌≤◌, ◌≡◌, refl, ◌⊎◌, inl, inr, Bool, true, false, List, [], ◌∷◌, ◌++◌, replicate,
  Option-cases,
}
use aup_assignments.Counter.{
  waiting, returned, State, count1, count2, init, Step, by_one, by_two, Reach, begin, later,
}
use aup_assignments.Counter.Invariant.{countdown}
use aup_assignments.Counter.Results.{counts_to_the_end}

record Run : Type 0 where
  steps : ℕ
  last : State
  path : Reach steps 0 last

-- The first thread's turn is `true`; a turn of a blocked thread is skipped.
turn : Run → Bool → Run
unfolding Option-cases
turn r true = elim (Option-cases (count1 r.last)) [
  | inl _ ↦ r
  | inr (t, h) ↦ record { steps = _; last = t; path = later r.path (by_one h) }
]
turn r false = elim (Option-cases (count2 r.last)) [
  | inl _ ↦ r
  | inr (t, h) ↦ record { steps = _; last = t; path = later r.path (by_two h) }
]

run : List Bool → Run → Run
unfolding turn count1 count2
run [] r = r
run (b ∷ bs) r = run bs (turn r b)

-- The first thread runs until it waits, then the second to its end, then the first again.
abbrev paused : Run
paused = run (replicate 40 true) (record { steps = 0; last = init; path = begin })

abbrev overtaken : Run
overtaken = run (replicate 80 false) paused

abbrev ended : Run
ended = run (replicate 40 true) overtaken

paused_state : (paused.last.count ≡ 3) × (paused.last.one ≡ waiting)
unfolding run
paused_state = (refl, refl)

-- The second thread returns at 10, and the first one still adds 1.
ended_state : (ended.last.one ≡ returned) × (ended.last.two ≡ returned) × (ended.last.count ≡ 11)
unfolding run
ended_state = (refl, refl, refl)

-- The second thread alone ends at 10 when the first one is in step.
abbrev alternating : Run
alternating =
    run (replicate 9 true ++ replicate 72 false ++ replicate 40 true ++ replicate 40 false)
      (record { steps = 0; last = init; path = begin })

counts_to_the_end_example :
    (ended.steps ≤ 145 + 2 * 0)
    × (((t : State) × Step ended.last t)
        ⊎ ((ended.last.one ≡ returned)
            × (ended.last.two ≡ returned)
            × ((ended.last.count ≡ 10) ⊎ (ended.last.count ≡ 11))
            × (ended.last.out ≡ countdown ended.last.count)))
counts_to_the_end_example = counts_to_the_end ended.path
