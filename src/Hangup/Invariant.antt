-- ===== src/Hangup/Invariant.antt =====
-- What the program has printed, and which signals wait, at every position of parent and child.
use aup_assignments.Prelude.{
  ℕ, ◌≡◌, refl, ◌⊎◌, inl, inr, Bool, true, false, some, List, [], ◌∷◌, arith,
}
use aup_assignments.Hangup.{
  Parent, forking, sleeping, Child, unborn, killing, stopped, showing_again, Line, of_parent,
  of_child, hup, cont, State, Event, parent_moves, parent_fails, child_moves, child_fails, hup_runs,
  cont_runs, is_ended, parent_at, parent_fails_at, child_at, child_fails_at, run_hup, run_cont,
  step, Reach, begin, later,
}

-- The child is created by the fork, and is not stopped once the parent has ended.
abbrev pub BirthOk : Bool → Parent → Child → Type 0
BirthOk shell Parent.showing unborn = Unit
BirthOk shell Parent.showing _ = ⊥
BirthOk shell forking unborn = Unit
BirthOk shell forking _ = ⊥
BirthOk shell sleeping unborn = ⊥
BirthOk shell sleeping stopped = shell ≡ true
BirthOk shell sleeping _ = Unit
BirthOk shell Parent.ended stopped = ⊥
BirthOk shell Parent.ended _ = Unit

-- Handlers run only behind kill.
abbrev pub WaitsOk : Child → Bool → Bool → Type 0
WaitsOk showing_again h c = Unit
WaitsOk _ h c = (h ≡ false) × (c ≡ false)

-- The lines up to the handlers that have run, when `h` and `c` say which are still to run.
abbrev pub Handled : Bool → Bool → List Line → Type 0
Handled true true out = out ≡ of_parent ∷ of_child false ∷ []
Handled false true out = out ≡ of_parent ∷ of_child false ∷ hup ∷ []
Handled true false out = out ≡ of_parent ∷ of_child false ∷ cont ∷ []
Handled false false out =
    (out ≡ of_parent ∷ of_child false ∷ hup ∷ cont ∷ [])
    ⊎ (out ≡ of_parent ∷ of_child false ∷ cont ∷ hup ∷ [])

abbrev pub Woken : Bool → Parent → Bool → Bool → List Line → Type 0
Woken shell p h c out = (shell ≡ true) × (is_ended p ≡ true) × Handled h c out

abbrev pub Unstopped : Bool → Bool → List Line → Type 0
Unstopped h c out = (h ≡ false) × (c ≡ false) × ((b : Bool) × (out ≡ of_parent ∷ of_child b ∷ []))

-- All lines, when the child has come to its end.
abbrev pub Final : Bool → List Line → Type 0
Final shell out =
    ((b : Bool) × (b' : Bool) × (out ≡ of_parent ∷ of_child b ∷ of_child b' ∷ []))
    ⊎ ((shell ≡ true) × (out ≡ of_parent ∷ of_child false ∷ hup ∷ cont ∷ of_child true ∷ []))
    ⊎ ((shell ≡ true) × (out ≡ of_parent ∷ of_child false ∷ cont ∷ hup ∷ of_child true ∷ []))

-- The child has printed its first line, before the end of the parent or after it.
abbrev pub FirstLine : Parent → List Line → Type 0
FirstLine p out = (b : Bool) × (out ≡ of_parent ∷ of_child b ∷ []) × (b ≡ true → is_ended p ≡ true)

abbrev pub parent_lines : Parent → List Line
parent_lines Parent.showing = []
parent_lines _ = of_parent ∷ []

abbrev pub OutOk : Bool → Parent → Child → Bool → Bool → List Line → Type 0
OutOk shell p unborn h c out = out ≡ parent_lines p
OutOk shell p Child.showing h c out = out ≡ of_parent ∷ []
OutOk shell p stopped h c out = out ≡ of_parent ∷ of_child false ∷ []
OutOk shell p showing_again h c out = Woken shell p h c out ⊎ Unstopped h c out
OutOk shell p Child.ended h c out = Final shell out
OutOk shell p _ h c out = FirstLine p out

pub record Inv (shell : Bool) (s : State) : Type 0 where
  pub birth_ok : BirthOk shell s.parent s.child
  pub waits_ok : WaitsOk s.child s.hup_waits s.cont_waits
  pub out_ok : OutOk shell s.parent s.child s.hup_waits s.cont_waits s.out

module _ {shell : Bool} where
  parent_at-Inv :
      (q : Parent) (r : Child) {s t : State}
      → s.parent ≡ q
      → s.child ≡ r
      → Inv shell s
      → parent_at shell q s ≡ some t
      → Inv shell t
  unfolding parent_at
  parent_at-Inv Parent.showing unborn e f v h = ground arith
  parent_at-Inv Parent.showing _ e f v h = ground arith
  parent_at-Inv forking unborn e f v h = ground arith
  parent_at-Inv forking _ e f v h = ground arith
  parent_at-Inv sleeping stopped e f v h = ground arith
  parent_at-Inv sleeping showing_again e f v h = ground arith
  parent_at-Inv sleeping _ e f v h = ground arith
  parent_at-Inv Parent.ended r e f v h = cc

  child_at-Inv :
      (q : Child) {s t : State}
      → s.child ≡ q
      → Inv shell s
      → child_at shell q s ≡ some t
      → Inv shell t
  unfolding child_at
  child_at-Inv Child.showing {s} e v h = ground arith
  child_at-Inv killing e v h = ground arith
  child_at-Inv showing_again e v h = ground arith
  child_at-Inv _ e v h = ground arith

  parent_fails_at-Inv :
      (q : Parent) {s t : State}
      → s.parent ≡ q
      → Inv shell s
      → parent_fails_at q s ≡ some t
      → Inv shell t
  parent_fails_at-Inv forking e v h = ground arith
  parent_fails_at-Inv _ e v h = cc

  child_fails_at-Inv :
      (q : Child) {s t : State}
      → s.child ≡ q
      → Inv shell s
      → child_fails_at q s ≡ some t
      → Inv shell t
  child_fails_at-Inv q e v h = ground arith

  handlers-Inv :
      (q : Child) {s t : State}
      → s.child ≡ q
      → Inv shell s
      → (run_hup s ≡ some t) ⊎ (run_cont s ≡ some t)
      → Inv shell t
  handlers-Inv showing_again f v (inl h) = ground arith
  handlers-Inv showing_again f v (inr h) = ground arith
  handlers-Inv _ f v (inl h) = ground arith
  handlers-Inv _ f v (inr h) = ground arith

  step-Inv : (e : Event) {s t : State} → Inv shell s → step shell e s ≡ some t → Inv shell t
  unfolding step
  step-Inv parent_moves {s} v h = parent_at-Inv s.parent s.child refl refl v h
  step-Inv parent_fails {s} v h = parent_fails_at-Inv s.parent refl v h
  step-Inv child_moves {s} v h = child_at-Inv s.child refl v h
  step-Inv child_fails {s} v h = child_fails_at-Inv s.child refl v h
  step-Inv hup_runs {s} v h = handlers-Inv s.child refl v (inl h)
  step-Inv cont_runs {s} v h = handlers-Inv s.child refl v (inr h)

  pub Reach-Inv : {n : ℕ} {s : State} → Reach shell n s → Inv shell s
  Reach-Inv begin = ground arith
  Reach-Inv (later e r h) = step-Inv e (Reach-Inv r) h
