-- ===== src/Spin/Tests.antt =====
-- Runs of the busy-waiting buffer under given schedules, and the theorems at the states they lead to.
use aup_assignments.Prelude.{
  ℕ, ◌≤◌, ◌≡◌, refl, ◌⊎◌, inl, inr, Bool, true, false, List, [], ◌∷◌, replicate, Option-cases, some,
}
use aup_assignments.Bounded.{runs}
use aup_assignments.Spin.Refines.{contents, trace, spin_refines}
use aup_assignments.Spin.{
  max_size, spinning, exited, State, produce, consume, init, Step, by_p, by_c, Reach, begin, later,
}
use aup_assignments.Spin.Results.{runs_dry}

-- A reachable state with the way to it.
record Run : Type 0 where
  steps : ℕ
  last : State
  path : Reach (λ _. 0) steps last

-- The producer's turn is `true`; a turn of a blocked thread is skipped.
turn : Run → Bool → Run
unfolding Option-cases
turn r true = elim (Option-cases (produce r.last)) [
  | inl _ ↦ r
  | inr (t, h) ↦ record { steps = _; last = t; path = later r.path (by_p h) }
]
turn r false = elim (Option-cases (consume r.last)) [
  | inl _ ↦ r
  | inr (t, h) ↦ record { steps = _; last = t; path = later r.path (by_c h) }
]

run : List Bool → Run → Run
unfolding turn produce consume
run [] r = r
run (b ∷ bs) r = run bs (turn r b)

abbrev opening : Run
opening = record { steps = 0; last = init (λ _. 0); path = begin }

-- The producer runs until the buffer is full.
abbrev filling : Run
filling = run (replicate 40 true) opening

-- Then the consumer takes the mutex, and comes to its first access.
abbrev reading : Run
reading = run (false ∷ false ∷ false ∷ []) filling

-- The threads take turns of one step until both have exited.
abbrev alternating : ℕ → List Bool
alternating n = elim n [ ℕ.zero ↦ [] | ℕ.suc (k → rest) ↦ true ∷ false ∷ rest ]

abbrev ended : Run
ended = run (alternating 120) opening

filling_state : (filling.last.count ≡ 5) × (filling.last.p ≡ spinning)
unfolding run
filling_state = (refl, refl)

ended_state : (ended.last.p ≡ exited) × (ended.last.c ≡ exited)
unfolding run
ended_state = (refl, refl)

runs_dry_example :
    (ended.steps ≤ 120)
    × (((t : State) × Step ended.last t)
        ⊎ ((ended.last.p ≡ exited)
            × (ended.last.c ≡ exited)
            × (ended.last.out ≡ replicate 9 b'p')
            × (ended.last.count ≡ 0)))
runs_dry_example = runs_dry ended.path

spin_refines_example : runs max_size (trace reading.path) ≡ some (contents reading.last)
spin_refines_example = spin_refines reading.path
