-- ===== src/Buffering/Tests.antt =====
-- Runs of fork_printf_buffering.c in two orders, to a terminal and to a file.
use aup_assignments.Prelude.{
  ℕ, ◌≤◌, ◌≡◌, refl, ◌⊎◌, inl, inr, Bool, true, false, List, [], ◌∷◌, Option-cases,
}
use aup_assignments.Buffering.{
  Root, Middle, Leaf, State, Event, root_moves, middle_moves, leaf_moves, init, eager, middle_over,
  leaf_over, step, Reach, begin, later,
}
use aup_assignments.Prelude.Systems.{Goes}
use aup_assignments.Buffering.Ending.{Output, prints_to_the_end}

-- A reachable state with the way to it.
record Run (tty : Bool) : Type 0 where
  steps : ℕ
  last : State
  path : Reach tty false steps last

-- An event that cannot happen is skipped.
then : {tty : Bool} → Run tty → Event → Run tty
unfolding Option-cases
then {tty} r e = elim (Option-cases (step (eager tty false) e r.last)) [
  | inl _ ↦ r
  | inr (t, h) ↦ record { steps = _; last = t; path = later e r.path h }
]

run : {tty : Bool} → List Event → Run tty → Run tty
unfolding then step
run [] r = r
run (e ∷ es) r = run es (then r e)

abbrev opening : (tty : Bool) → Run tty
opening tty = record { steps = 0; last = init; path = begin }

-- The first process as far as it comes, then the others, each as far as it comes.
abbrev downwards : List Event
downwards =
    root_moves ∷ root_moves ∷ middle_moves ∷ middle_moves ∷ leaf_moves ∷ leaf_moves ∷ middle_moves
    ∷ middle_moves ∷ middle_moves ∷ root_moves ∷ root_moves ∷ root_moves ∷ []

-- The third process first.
abbrev upwards : List Event
upwards =
    root_moves ∷ middle_moves ∷ leaf_moves ∷ leaf_moves ∷ middle_moves ∷ middle_moves ∷ middle_moves
    ∷ middle_moves ∷ root_moves ∷ root_moves ∷ root_moves ∷ root_moves ∷ []

abbrev on_tty : Run true
on_tty = run downwards (opening true)

abbrev in_file : Run false
in_file = run downwards (opening false)

on_tty_state :
    (on_tty.last.root ≡ Root.ended)
    × (on_tty.last.middle ≡ Middle.ended)
    × (on_tty.last.leaf ≡ Leaf.ended)
    × (on_tty.last.out ≡ 0 ∷ 2 ∷ 4 ∷ 3 ∷ 1 ∷ [])
unfolding run
on_tty_state = (refl, refl, refl, refl)

-- The order that a comment of the source gives for buffered output can be seen on a terminal too.
upwards_state : (run upwards (opening true)).last.out ≡ 4 ∷ 2 ∷ 3 ∷ 0 ∷ 1 ∷ []
unfolding run
upwards_state = refl

in_file_state :
    (in_file.last.root ≡ Root.ended)
    × (in_file.last.middle ≡ Middle.ended)
    × (in_file.last.leaf ≡ Leaf.ended)
unfolding run
in_file_state = (refl, refl, refl)

prints_to_the_end_example :
    (on_tty.steps ≤ 12)
    × (Goes (step true) on_tty.last
        ⊎ ((on_tty.last.root ≡ Root.ended)
            × (middle_over on_tty.last.middle ≡ true)
            × (leaf_over on_tty.last.leaf ≡ true)
            × Output true on_tty.last.middle on_tty.last.leaf on_tty.last.out))
prints_to_the_end_example = prints_to_the_end on_tty.path
