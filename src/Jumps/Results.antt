-- ===== src/Jumps/Results.antt =====
-- What remains of the variables after a jump, and where there is none to go to.
use aup_assignments.Prelude.{
  ℕ, suc, ◌<◌, ◌≡◌, refl, Bool, true, false, ◌||◌, List, [], ◌∷◌, ◌++◌, append_assoc, ◌∙◌, eq_self,
  All, arith, ◌==◌,
}
use aup_assignments.Jumps.Variables
use aup_assignments.Jumps.Returned
use aup_assignments.Jumps.{State, exited, undefined, active}
use aup_assignments.Jumps.Variables.{in_f1, after_longjmp, values}
use aup_assignments.Jumps.Returned.{in_a}

or_true : (a : Bool) → (a || true) ≡ true
or_true true = refl
or_true false = refl

four :
    {A : Type 0} (xs : List A) (a b c d : A)
    → (((xs ++ a ∷ []) ++ b ∷ []) ++ c ∷ []) ++ d ∷ [] ≡ xs ++ a ∷ b ∷ c ∷ d ∷ []
four xs a b c d =
    append_assoc ((xs ++ a ∷ []) ++ b ∷ []) (c ∷ []) (d ∷ [])
    ∙ append_assoc (xs ++ a ∷ []) (b ∷ []) (c ∷ d ∷ [])
    ∙ append_assoc xs (a ∷ []) (b ∷ c ∷ d ∷ [])

-- In a function that is being called, all_variable_types.c ends with 0. f1 gets the five new values;
-- after the jump out of both calls, the variable of the file, the static and the volatile one have
-- kept theirs, and of the two others nothing is known.
jump_back :
    (a r f : ℕ) (fs : List ℕ) (s : State Variables.Vars)
    → let (end, t) = Variables.main a r (record s { frames = f ∷ fs }) in
      (end ≡ exited 0)
      × (t.vars.out
          ≡ s.vars.out ++ in_f1 ∷ values 95 96 97 98 99 ∷ after_longjmp ∷ values 95 a r 98 99 ∷ [])
      × (t.frames ≡ f ∷ fs)
unfolding Variables.main
jump_back a r f fs s =
    rw (eq_self f, or_true (f == s.next), or_true (f == suc s.next))
      (rw (eq_self f) (refl, four s.vars.out _ _ _ _, refl))

not_active : (n : ℕ) (fs : List ℕ) → All (λ f. f < n) fs → active n fs ≡ false
not_active n [] h = refl
not_active n (f ∷ fs) h = let e = not_active n fs h.1 in ground (arith, e)

-- If the calls are numbered in their order, variables_jmp.c prints one line, and then jumps to a call
-- that has returned: what follows is undefined.
pub jump_undefined :
    (s : State Returned.Vars)
    → All (λ f. f < s.next) s.frames
    → let (end, t) = Returned.main s in
      (end ≡ undefined) × (t.vars.out ≡ s.vars.out ++ in_a 19 20 ∷ [])
unfolding Returned.main
jump_undefined s h =
    let ne : (s.next == suc s.next) ≡ false = ground arith in
    rw (not_active s.next s.frames h, ne) (refl, refl)
