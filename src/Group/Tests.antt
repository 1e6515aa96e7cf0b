-- ===== src/Group/Tests.antt =====
-- The theorems on signal_process_group.c at process ids 43 and 45 in the group 40.
use aup_assignments.Prelude.{◌<◌, ◌≡◌, refl, true, false, none, some, [], ◌∷◌, arith}
use aup_assignments.Prelude.Int.{pos}
use aup_assignments.Group.{State, p0, p1, p5, moves, fails, init, received, killed}
use aup_assignments.Group.Steps.{struck, strike, alive3, alive4, alive5, step, Reach}
use aup_assignments.Group.Results.{kill_target, signal_reaches}
use aup_assignments.Group.Orders.{run, stored_sent, sent-Reach, store_before_handler}

ready : Reach 43 45 40 false (stored_sent 43 40)
ready = sent-Reach 43 45 40 false (ground arith)

positive : 0 < 43
positive = ground arith

strikes : step 43 45 (moves p0) (stored_sent 43 40) ≡ some (struck (stored_sent 43 40))
unfolding step
strikes = refl

-- If the second fork of process 0 fails, it ends, and process 5 waits for the FIFO for ever.
second_fork_fails :
    run 43 45 (moves p0 ∷ fails p0 ∷ moves p1 ∷ moves p5 ∷ []) (some (init 40 false)) ≡ none
unfolding step
second_fork_fails = refl

kill_target_example :
    ((stored_sent 43 40).cell ≡ pos 43)
    × ((stored_sent 43 40).group3 ≡ 43)
    × ((stored_sent 43 40).group5 ≡ 43)
kill_target_example = kill_target positive ready refl refl

signal_reaches_example :
    let s = stored_sent 43 40 in
    let t = struck s in
    (alive3 s.three ≡ true → t.fate3 ≡ strike s.caught3)
    × (alive4 s.four ≡ true → s.group4 ≡ 43 → t.fate4 ≡ strike s.caught4)
    × (alive5 s.five ≡ true → t.fate5 ≡ strike s.caught5)
signal_reaches_example = signal_reaches positive ready refl refl strikes

store_before_handler_example :
    (s : State) × Reach 43 45 40 false s
    × (s.fate3 ≡ received)
    × (s.fate4 ≡ received)
    × (s.fate5 ≡ killed)
    × (s.caught5 ≡ false)
store_before_handler_example = store_before_handler 43 45 40 false positive
