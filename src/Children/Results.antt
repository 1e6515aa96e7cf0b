-- ===== src/Children/Results.antt =====
-- What print_child_statuses.c reports of its children.
use aup_assignments.Prelude.{
  ℕ, ◌<◌, ◌≡◌, refl, ◌∙◌, true, Option, none, some, List, [], ◌∷◌, ◌++◌, map, arith, length,
}
use aup_assignments.Prelude.Int.{pos}
use aup_assignments.Unix.Bytes.{Bytes}
use aup_assignments.Unix.Proc.{done, exited}
use aup_assignments.Unix.Atoi.{atoi}
use aup_assignments.Children.{Fate, State, eagain, main}
use aup_assignments.Children.Loops.{
  Distinct, expected, grown, push_all-Listed, make_children_lem, make_children-stops,
  length-push_all, ask_all_lem,
}

-- The program as it starts, without children, and with a malloc that succeeds.
abbrev pub started : List (Option ℕ) → (ℕ → Fate) → State
started forks fate = record {
  forks = forks;
  fate = fate;
  room = true;
  kids = [];
  pids = [];
  out = [];
}

-- If malloc succeeds and the forks give different process ids to as many children as the first
-- argument says, which is at least 0, then whichever of them have ended when they are asked for, by
-- exit or by a signal, the program ends with 0, it fills the array exactly, no call of waitpid fails,
-- and there is one line for each child in the order of creation: that it is not yet terminated if it
-- has not ended, with its number modulo 256 as its status if it has ended by exit, and with status 0
-- if a signal has ended it.
pub report_in_order :
    (prog num a b : Bytes) (ps : List ℕ) (rest : List (Option ℕ)) (fate : ℕ → Fate)
    → atoi num ≡ pos (length ps)
    → Distinct ps
    → (t : State) × (main (prog ∷ num ∷ a ∷ b ∷ []) (started (map some ps ++ rest) fate)
        ≡ (done 0, t))
      × (t.out ≡ expected fate 1 ps)
      × (t.pids ≡ ps)
unfolding main
report_in_order prog num a b ps rest fate n d =
    let s = started (map some ps ++ rest) fate in
    let (t, run, out, same) =
      ask_all_lem 1 [] ps (grown 1 ps rest s) d refl (push_all-Listed 1 ps [] d) in
    (t, rw (n, make_children_lem 1 ps rest s refl, run) refl, out, same)

-- If malloc succeeds and a fork fails after those of `ps`, fewer than the first argument says, the
-- program ends with the error of fork, prints nothing, and leaves its children unwaited for.
fork_failure :
    (prog num a b : Bytes) (ps : List ℕ) (n : ℕ) (rest : List (Option ℕ)) (fate : ℕ → Fate)
    → atoi num ≡ pos n
    → length ps < n
    → let (r, t) = main (prog ∷ num ∷ a ∷ b ∷ []) (started (map some ps ++ none ∷ rest) fate) in
      (r ≡ exited eagain) × (t.out ≡ []) × (length t.kids ≡ length ps)
unfolding main
fork_failure prog num a b ps n rest fate num_is lt =
    let s = started (map some ps ++ none ∷ rest) fate in
    rw (num_is, make_children-stops n 1 ps rest s lt refl)
      (refl, refl, length-push_all 1 ps [] ∙ omega arith)
