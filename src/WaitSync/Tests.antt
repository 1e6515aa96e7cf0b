-- ===== src/WaitSync/Tests.antt =====
-- Two executions of sigchld_wait_sync.c, and the theorems at the states they lead to.
use aup_assignments.Prelude.{◌≤◌, ◌≡◌, refl, ◌⊎◌, true, false, some, [], ◌∷◌}
use aup_assignments.Prelude.Systems.{Goes, Run, start, run}
use aup_assignments.WaitSync.{
  exited, in_wait, unborn, reaped, main_moves, child_exits, interrupt, handler_moves, init, step,
}
use aup_assignments.WaitSync.Results.{one_wait_gets_child}

abbrev opening : Run init step
opening = start

-- The child ends while `main` is in wait, and the signal is delivered first.
abbrev in_handler : Run init step
in_handler =
    run (main_moves ∷ main_moves ∷ main_moves ∷ child_exits ∷ interrupt ∷ handler_moves ∷ [])
      opening

abbrev handler_first : Run init step
handler_first = run (handler_moves ∷ handler_moves ∷ main_moves ∷ main_moves ∷ []) in_handler

-- `main` comes out of wait first, and the handler finds no child.
abbrev main_first : Run init step
main_first =
    run
      (main_moves ∷ main_moves ∷ main_moves ∷ child_exits ∷ main_moves ∷ interrupt ∷ handler_moves
        ∷ handler_moves ∷ handler_moves ∷ main_moves ∷ [])
      opening

handler_first_state :
    (handler_first.steps ≡ 10)
    × (handler_first.last.main ≡ exited)
    × (handler_first.last.parent_wait ≡ some false)
    × (handler_first.last.handler_wait ≡ some true)
unfolding run step
handler_first_state = (refl, refl, refl, refl)

main_first_state :
    (main_first.last.main ≡ exited)
    × (main_first.last.parent_wait ≡ some true)
    × (main_first.last.handler_wait ≡ some false)
unfolding run step
main_first_state = (refl, refl, refl)

in_handler_state : in_handler.last.handler ≡ in_wait
unfolding run step
in_handler_state = refl

born : ¬ (handler_first.last.child ≡ unborn)
unfolding run step
born e = cc

one_wait_gets_child_example :
    let s = handler_first.last in
    (handler_first.steps ≤ 10)
    × (Goes step s
        ⊎ ((s.main ≡ exited)
            × ((s.child ≡ unborn)
                ⊎ ((s.child ≡ reaped)
                    × (((s.parent_wait ≡ some true) × (¬ (s.handler_wait ≡ some true)))
                        ⊎ ((s.parent_wait ≡ some false) × (s.handler_wait ≡ some true)))))))
one_wait_gets_child_example = one_wait_gets_child handler_first.path
