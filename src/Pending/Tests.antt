-- ===== src/Pending/Tests.antt =====
-- The theorems on child_pending_signals_and_mask.c at a process, and a failing call.
use aup_assignments.Prelude.{◌≡◌, refl, [], ◌∷◌}
use aup_assignments.Unix.Proc.{done, exited}
use aup_assignments.Pending.{
  usr1, usr2, empty, both, parent, child, before_kill, after_kill, after_delset, blocked,
  not_blocked, pending, not_pending, received, clear, fail, State, main,
}
use aup_assignments.Pending.Results.{only_two, reports}

abbrev started : State
started = record { mask = empty; waiting = empty; caught = empty; log = []; faults = []; errno = 0 }

-- A process that inherits a blocked, pending SIGUSR2.
abbrev inheriting : State
inheriting = record started { mask = both; waiting = only_two }

-- A failing fork ends the program with `errno`.
fork_fails :
    (main parent (record started {
      faults =
          clear
          ∷ clear
          ∷ clear
          ∷ clear
          ∷ clear
          ∷ clear
          ∷ clear
          ∷ clear
          ∷ clear
          ∷ clear
          ∷ clear
          ∷ clear
          ∷ fail 11
          ∷ [];
    })).0
    ≡ exited 11
unfolding main
fork_fails = refl

reports_example :
    let p = main parent inheriting in
    let c = main child inheriting in
    ((p.0 ≡ done 0)
      × (p.1.log
          ≡ pending parent usr2
            ∷ not_pending parent usr1
            ∷ after_delset
            ∷ received usr1
            ∷ pending parent usr2
            ∷ pending parent usr1
            ∷ after_kill
            ∷ blocked parent usr2
            ∷ blocked parent usr1
            ∷ before_kill
            ∷ [])
      × (p.1.waiting ≡ only_two)
      × (p.1.mask ≡ only_two))
    × ((c.0 ≡ done 0)
        × (c.1.log
            ≡ not_pending child usr2
              ∷ not_pending child usr1
              ∷ after_delset
              ∷ not_pending child usr2
              ∷ not_pending child usr1
              ∷ blocked child usr2
              ∷ not_blocked child usr1
              ∷ [])
        × (c.1.waiting ≡ empty)
        × (c.1.mask ≡ empty))
reports_example = reports inheriting refl
