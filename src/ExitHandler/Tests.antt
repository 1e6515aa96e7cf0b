-- ===== src/ExitHandler/Tests.antt =====
-- Executions of inherit_exit_handler.c.
use aup_assignments.Prelude.{◌≤◌, ◌≡◌, refl, ◌⊎◌, true, false, List, [], ◌∷◌}
use aup_assignments.Prelude.Systems.{Run, run, start, Goes}
use aup_assignments.ExitHandler.{
  handled, child_done, parent_done, Parent, failed, Child, Event, parent_moves, child_moves,
  parent_fails, init, parent_at, child_at, step,
}
use aup_assignments.ExitHandler.Results.{Ends, each_runs_handler}

abbrev one_by_one : List Event
one_by_one =
    parent_moves ∷ parent_moves ∷ parent_moves ∷ child_moves ∷ parent_moves ∷ child_moves
    ∷ parent_moves ∷ child_moves ∷ []

abbrev at_once : Run init (step true)
at_once = run one_by_one start

abbrev at_exit : Run init (step false)
at_exit = run one_by_one start

abbrev no_fork : Run init (step true)
no_fork = run (parent_moves ∷ parent_fails 11 ∷ parent_moves ∷ parent_moves ∷ []) start

at_once_out :
    (at_once.last.parent ≡ Parent.ended)
    × (at_once.last.child ≡ Child.ended)
    × (at_once.last.out ≡ parent_done ∷ child_done ∷ handled ∷ handled ∷ [])
unfolding run step parent_at child_at
at_once_out = (refl, refl, refl)

at_exit_out :
    (at_exit.steps ≡ 8) × (at_exit.last.out ≡ parent_done ∷ handled ∷ child_done ∷ handled ∷ [])
unfolding run step parent_at child_at
at_exit_out = (refl, refl)

no_fork_out :
    (no_fork.last.parent ≡ failed) × (no_fork.last.status ≡ 11) × (no_fork.last.out ≡ handled ∷ [])
unfolding run step parent_at child_at
no_fork_out = (refl, refl, refl)

each_runs_handler_example :
    (at_exit.steps ≤ 8)
    × (Goes (step false) at_exit.last
        ⊎ Ends false at_exit.last.parent at_exit.last.child at_exit.last.out)
each_runs_handler_example = each_runs_handler false at_exit.path
