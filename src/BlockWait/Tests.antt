-- ===== src/BlockWait/Tests.antt =====
-- Executions of sigchld_block_wait.c, and the theorems at the states they lead to.
use aup_assignments.Prelude.{◌≡◌, refl, true, false, some, [], ◌∷◌}
use aup_assignments.Prelude.Systems.{Run, start, run}
use aup_assignments.BlockWait.{
  querying, finished, running, zombie, State, main_moves, main_fails, child_exits, interrupt, init,
  step,
}
use aup_assignments.BlockWait.Results.{blocked_stays_pending}

abbrev opening : Run init step
opening = start

-- The child ends while the parent sleeps; the signal, which is blocked, cannot be delivered.
abbrev asleep : Run init step
asleep =
    run
      (main_moves ∷ main_moves ∷ main_moves ∷ main_moves ∷ main_moves ∷ child_exits ∷ interrupt
        ∷ main_moves ∷ [])
      opening

abbrev ended : Run init step
ended = run (main_moves ∷ main_moves ∷ main_moves ∷ []) asleep

-- sigprocmask fails, and the handler runs while the parent sleeps.
abbrev interrupted : Run init step
interrupted =
    run
      (main_moves ∷ main_moves ∷ main_moves ∷ main_fails ∷ main_moves ∷ child_exits ∷ interrupt
        ∷ [])
      opening

asleep_state :
    (asleep.last.main ≡ querying) × (asleep.last.blocked ≡ true) × (asleep.last.child ≡ zombie)
unfolding run step
asleep_state = (refl, refl, refl)

ended_state : (ended.last.main ≡ finished) × (ended.last.shown ≡ true) × (ended.steps ≡ 10)
unfolding run step
ended_state = (refl, refl, refl)

interrupted_state : (interrupted.last.blocked ≡ false) × (interrupted.last.child ≡ zombie)
unfolding run step
interrupted_state = (refl, refl)

blocked_stays_pending_example :
    (asleep.last.caught ≡ false)
    × ((t : State)
        → asleep.last.main ≡ querying
        → step main_moves asleep.last ≡ some t
        → (asleep.last.child ≡ zombie → t.queried ≡ true)
          × (asleep.last.child ≡ running → t.queried ≡ false))
    × (asleep.last.main ≡ finished → asleep.last.shown ≡ asleep.last.queried)
blocked_stays_pending_example = blocked_stays_pending asleep.path asleep_state.1
