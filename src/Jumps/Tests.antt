-- ===== src/Jumps/Tests.antt =====
-- Runs of the two programs with jumps.
use aup_assignments.Prelude.{◌≡◌, refl, none, [], ◌∷◌, ◌++◌, arith}
use aup_assignments.Jumps.Results.{jump_undefined}
use aup_assignments.Jumps.Variables
use aup_assignments.Jumps.Returned
use aup_assignments.Jumps.{State, undefined}
use aup_assignments.Jumps.Variables.{in_f1, after_longjmp, values}
use aup_assignments.Jumps.Returned.{in_a}

abbrev five : State Variables.Vars
five = record {
  frames = [];
  next = 1;
  jmpbuffer = none;
  vars = record { globval = 0; autoval = 0; regival = 0; volaval = 0; statval = 0; out = [] };
}

abbrev four : State Returned.Vars
four = record {
  frames = 0 ∷ [];
  next = 1;
  jmpbuffer = none;
  vars = record { globval = 0; autoval = 0; statval = 0; a_statval = 10; out = [] };
}

-- As with registers that longjmp sets back.
set_back :
    (Variables.main 96 3 (record five { frames = 0 ∷ [] })).1.vars.out
    ≡ in_f1 ∷ values 95 96 97 98 99 ∷ after_longjmp ∷ values 95 96 3 98 99 ∷ []
unfolding Variables.main
set_back = refl

jumps_nowhere : (Returned.main four).0 ≡ undefined
unfolding Returned.main
jumps_nowhere = refl

jump_undefined_example :
    let (end, t) = Returned.main four in (end ≡ undefined) × (t.vars.out ≡ [] ++ in_a 19 20 ∷ [])
jump_undefined_example = jump_undefined four (ground arith)
