-- ===== src/Buffering/Lines.antt =====
-- The output on a terminal, where each line is written at once.
use aup_assignments.Prelude.{ℕ, ◌≡◌, refl, Bool, true, some, List, [], ◌∷◌, ◌++◌, arith}
use aup_assignments.Buffering.{
  Root, Middle, Leaf, State, Event, root_moves, middle_moves, leaf_moves, root_fails, middle_fails,
  eager, step, Reach, begin, later,
}
use aup_assignments.Prelude.Shuffle.{Shuffle, nothing}
use aup_assignments.Buffering.Printed.{
  Whole, Quiet, root_at-Quiet, middle_at-Quiet, leaf_at-Quiet, WholeOf,
}
use aup_assignments.Buffering.Printing.{
  root_at-Whole, middle_at-Whole, leaf_at-Whole, root_fails-Whole, middle_fails-Whole,
}

pub record Inv (s : State) : Type 0 where
  pub quiet : Quiet s
  pub whole : WholeOf s

step-Inv : (e : Event) {s t : State} → Inv s → step true e s ≡ some t → Inv t
unfolding step
step-Inv root_moves {s} v h = record {
  quiet = root_at-Quiet s.root refl v.quiet h;
  whole = root_at-Whole s.root s v.quiet.root_ok v.quiet.root_buf_ok v.whole h;
}
step-Inv middle_moves {s} v h = record {
  quiet = middle_at-Quiet s.middle refl v.quiet h;
  whole =
      middle_at-Whole s.middle s v.quiet.root_ok v.quiet.middle_ok v.quiet.middle_buf_ok v.whole h;
}
step-Inv leaf_moves {s} v h = record {
  quiet = leaf_at-Quiet s.leaf refl v.quiet h;
  whole = leaf_at-Whole s.leaf s v.quiet.root_ok v.quiet.middle_ok v.quiet.leaf_buf_ok v.whole h;
}
step-Inv root_fails {s} v h = record {
  quiet = ground (arith, v.quiet);
  whole = root_fails-Whole s.root s v.whole h;
}
step-Inv middle_fails {s} v h = record {
  quiet = ground (arith, v.quiet);
  whole = middle_fails-Whole s.middle s v.whole h;
}

pub Reach-Inv :
    {tty no_newline : Bool} {n : ℕ} {s : State}
    → eager tty no_newline ≡ true
    → Reach tty no_newline n s
    → Inv s
Reach-Inv now begin = record { quiet = ground arith; whole = ([], nothing, nothing) }
Reach-Inv now (later e r h) = step-Inv e (Reach-Inv now r) (rw now at h)

ended-order :
    (r : Root) (m : Middle) (l : Leaf) (out : List ℕ)
    → r ≡ Root.ended
    → m ≡ Middle.ended
    → l ≡ Leaf.ended
    → Whole r m l out
    → (upper : List ℕ) × (lower : List ℕ) × (out ≡ upper ++ 1 ∷ [])
      × Shuffle (0 ∷ []) (lower ++ 3 ∷ []) upper
      × Shuffle (2 ∷ []) (4 ∷ []) lower
ended-order r m l out er em el w =
    let (u, ys, e, (v, f, low), high) = (rw (er, em, el) at w) in (u, v, e, rw f at high, low)

-- On a terminal, with newlines, the output of a run in which all three processes have ended is an
-- interleaving of 0 with the lines of the other two, and then 1; and the lines of the other two are 2
-- and 4 in either order, and then 3.
pub line_output :
    {tty no_newline : Bool} {n : ℕ} {s : State}
    → eager tty no_newline ≡ true
    → Reach tty no_newline n s
    → s.root ≡ Root.ended
    → s.middle ≡ Middle.ended
    → s.leaf ≡ Leaf.ended
    → (upper : List ℕ) × (lower : List ℕ) × (s.out ≡ upper ++ 1 ∷ [])
      × Shuffle (0 ∷ []) (lower ++ 3 ∷ []) upper
      × Shuffle (2 ∷ []) (4 ∷ []) lower
line_output {s} now r er em el =
    ended-order s.root s.middle s.leaf s.out er em el (Reach-Inv now r).whole
