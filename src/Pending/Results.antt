-- ===== src/Pending/Results.antt =====
-- What the parent and the child of child_pending_signals_and_mask.c print.
use aup_assignments.Prelude.{ℕ, ◌≡◌, refl, true, false, List, [], ◌∷◌}
use aup_assignments.Unix.Proc.{done}
use aup_assignments.Pending.{
  usr1, usr2, SigSet, empty, parent, child, Line, before_kill, after_kill, after_delset, blocked,
  not_blocked, pending, not_pending, received, clear, fail, State, main,
}

-- What the process is left with.
abbrev pub only_two : SigSet
only_two = record { one = false; two = true }

-- If no call fails, then whatever mask, pending signals and handlers the process starts with, the
-- parent ends with 0 and prints in this order: both signals blocked, both pending after they are
-- sent, SIGUSR1 received once when it is unblocked, then SIGUSR2 alone pending. SIGUSR2 is still
-- pending and blocked at the end.
parent_report :
    (s : State)
    → s.faults ≡ []
    → ((main parent s).0 ≡ done 0)
      × ((main parent s).1.log
          ≡ pending parent usr2
            ∷ not_pending parent usr1
            ∷ after_delset
            ∷ received usr1
            ∷ pending parent usr2
            ∷ pending parent usr1
            ∷ after_kill
            ∷ blocked parent usr2
            ∷ blocked parent usr1
            ∷ before_kill
            ∷ s.log)
      × ((main parent s).1.waiting ≡ only_two)
      × ((main parent s).1.mask ≡ only_two)
unfolding main
parent_report s calm = rw calm (refl, refl, refl, refl)

-- If no call fails, the child ends with 0 and prints, from its start on, that SIGUSR1 is not blocked
-- and SIGUSR2 is, that neither is pending, and the same after it has unblocked SIGUSR2: no signal
-- that is pending in the parent reaches it, and its mask is empty at the end.
child_report :
    (s : State)
    → s.faults ≡ []
    → ((main child s).0 ≡ done 0)
      × ((main child s).1.log
          ≡ not_pending child usr2
            ∷ not_pending child usr1
            ∷ after_delset
            ∷ not_pending child usr2
            ∷ not_pending child usr1
            ∷ blocked child usr2
            ∷ not_blocked child usr1
            ∷ [])
      × ((main child s).1.waiting ≡ empty)
      × ((main child s).1.mask ≡ empty)
unfolding main
child_report s calm = rw calm (refl, refl, refl, refl)

-- A process with an empty mask and nothing pending, in which the first sigprocmask alone will fail.
abbrev pub unmasked : SigSet → List Line → ℕ → ℕ → State
unmasked caught log errno e = record {
  mask = empty;
  waiting = empty;
  caught = caught;
  log = log;
  faults = clear ∷ clear ∷ clear ∷ fail e ∷ [];
  errno = errno;
}

-- If the first sigprocmask alone fails, in a process that starts with an empty mask and nothing
-- pending, the parent still prints that both signals have been blocked; both are received as soon as
-- they are sent, none is pending afterwards, and it ends with 0.
blocked_only_in_name :
    (caught : SigSet) (log : List Line) (errno e : ℕ)
    → let (r, t) = main parent (unmasked caught log errno e) in
      (r ≡ done 0)
      × (t.log
          ≡ not_pending parent usr2
            ∷ not_pending parent usr1
            ∷ after_delset
            ∷ not_pending parent usr2
            ∷ not_pending parent usr1
            ∷ after_kill
            ∷ received usr2
            ∷ received usr1
            ∷ blocked parent usr2
            ∷ blocked parent usr1
            ∷ before_kill
            ∷ log)
unfolding main
blocked_only_in_name caught log errno e = (refl, refl)

-- If no call fails, then whatever mask, pending signals and handlers the process starts with, both
-- processes end with 0. The parent prints in this order: both signals blocked, both pending after
-- they are sent, SIGUSR1 received once when it is unblocked, then SIGUSR2 alone pending, which it
-- still is at the end, blocked. The child prints, from its start on, that SIGUSR1 is not blocked and
-- SIGUSR2 is, that neither is pending, and the same after it has unblocked SIGUSR2: no signal that is
-- pending in the parent reaches it, and its mask is empty at the end.
pub reports :
    (s : State)
    → s.faults ≡ []
    → let p = main parent s in
      let c = main child s in
      ((p.0 ≡ done 0)
        × (p.1.log
            ≡ pending parent usr2
              ∷ not_pending parent usr1
              ∷ after_delset
              ∷ received usr1
              ∷ pending parent usr2
              ∷ pending parent usr1
              ∷ after_kill
              ∷ blocked parent usr2
              ∷ blocked parent usr1
              ∷ before_kill
              ∷ s.log)
        × (p.1.waiting ≡ only_two)
        × (p.1.mask ≡ only_two))
      × ((c.0 ≡ done 0)
          × (c.1.log
              ≡ not_pending child usr2
                ∷ not_pending child usr1
                ∷ after_delset
                ∷ not_pending child usr2
                ∷ not_pending child usr1
                ∷ blocked child usr2
                ∷ not_blocked child usr1
                ∷ [])
          × (c.1.waiting ≡ empty)
          × (c.1.mask ≡ empty))
reports s calm = (parent_report s calm, child_report s calm)
