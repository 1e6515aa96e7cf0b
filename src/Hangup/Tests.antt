-- ===== src/Hangup/Tests.antt =====
-- Runs of sighup_sigcont.c: one that stops the child, and one without a shell.
use aup_assignments.Prelude.{
  ℕ, ◌≤◌, ◌≡◌, refl, ◌⊎◌, inl, inr, Bool, true, false, List, [], ◌∷◌, Option-cases,
}
use aup_assignments.Hangup.{
  Parent, Child, unborn, failed, stopped, of_parent, of_child, hup, cont, State, Event,
  parent_moves, child_moves, hup_runs, cont_runs, init, step, Reach, begin, later,
}
use aup_assignments.Hangup.Results.{Goes, ends_with_lines}

-- A reachable state with the way to it.
record Run (shell : Bool) : Type 0 where
  steps : ℕ
  last : State
  path : Reach shell steps last

-- An event that cannot happen is skipped.
then : {shell : Bool} → Run shell → Event → Run shell
unfolding Option-cases
then {shell} r e = elim (Option-cases (step shell e r.last)) [
  | inl _ ↦ r
  | inr (t, h) ↦ record { steps = _; last = t; path = later e r.path h }
]

run : {shell : Bool} → List Event → Run shell → Run shell
unfolding then step
run [] r = r
run (e ∷ es) r = run es (then r e)

abbrev opening : (shell : Bool) → Run shell
opening shell = record { steps = 0; last = init; path = begin }

abbrev to_stop : List Event
to_stop = parent_moves ∷ parent_moves ∷ child_moves ∷ child_moves ∷ child_moves ∷ child_moves ∷ []

abbrev at_stop : Run true
at_stop = run to_stop (opening true)

is_stopped : at_stop.last.child ≡ stopped
unfolding run
is_stopped = refl

-- The handler of SIGCONT runs before that of SIGHUP.
abbrev woken : Run true
woken = run (parent_moves ∷ cont_runs ∷ hup_runs ∷ child_moves ∷ []) at_stop

woken_ended : woken.last.child ≡ Child.ended
unfolding run
woken_ended = refl

woken_lines : woken.last.out ≡ of_parent ∷ of_child false ∷ cont ∷ hup ∷ of_child true ∷ []
unfolding run
woken_lines = refl

-- Without a shell SIGTSTP does nothing.
not_stopped :
    (run (child_moves ∷ []) (run to_stop (opening false))).last.out
    ≡ of_parent ∷ of_child false ∷ of_child false ∷ []
unfolding run
not_stopped = refl

ends_with_lines_example :
    let s = woken.last in
    (woken.steps ≤ 11)
    × (Goes true s
        ⊎ ((s.parent ≡ Parent.ended)
            × (((s.child ≡ unborn) ⊎ (s.child ≡ failed))
                ⊎ ((s.child ≡ Child.ended)
                    × (((b : Bool) × (b' : Bool) × (s.out
                            ≡ of_parent ∷ of_child b ∷ of_child b' ∷ []))
                        ⊎ ((true ≡ true)
                            × (s.out
                                ≡ of_parent ∷ of_child false ∷ hup ∷ cont ∷ of_child true ∷ []))
                        ⊎ ((true ≡ true)
                            × (s.out
                                ≡ of_parent
                                  ∷ of_child false
                                  ∷ cont
                                  ∷ hup
                                  ∷ of_child true
                                  ∷ [])))))))
ends_with_lines_example = ends_with_lines woken.path
