-- ===== src/ExitHandler/Results.antt =====
-- Executions of inherit_exit_handler.c end, and what they have printed then.
use aup_assignments.Prelude.{
  ℕ, suc, ◌+◌, ◌≤◌, ◌<◌, ◌≡◌, refl, ◌⊎◌, inl, inr, Bool, true, false, none, some, List, [], ◌∷◌,
  arith, append-nil, Option-cases,
}
use aup_assignments.Prelude.Systems.{Steps-bound, Goes}
use aup_assignments.Prelude.Shuffle.{Shuffle, Shuffle-alone}
use aup_assignments.ExitHandler.{
  Handler, Line, handled, child_done, parent_done, Parent, registering, forking, unregistered,
  refused, quitting, failed, Child, unborn, State, Event, parent_moves, child_moves, parent_fails,
  parent_at, child_at, step, Reach,
}
use aup_assignments.ExitHandler.Invariant.{Inv, BirthOk, step-Inv, Reach-Inv}
use aup_assignments.ExitHandler.Whole.{parent_lines, child_lines, Shown, Known, Reach-Known}
use aup_assignments.ExitHandler.Buffered.{Reach-Kept}

-- The moves a process has left beside its handlers.
abbrev parent_left : Parent → ℕ
parent_left registering = 8
parent_left forking = 6
parent_left Parent.printing = 2
parent_left Parent.exiting = 1
parent_left unregistered = 1
parent_left quitting = 1
parent_left _ = 0

abbrev child_left : Child → ℕ
child_left Child.printing = 2
child_left Child.exiting = 1
child_left _ = 0

abbrev handlers_left : List Handler → ℕ
handlers_left [] = 0
handlers_left (h ∷ hs) = suc (handlers_left hs)

work : State → ℕ
work s =
    parent_left s.parent
    + child_left s.child
    + handlers_left s.parent_handlers
    + handlers_left s.child_handlers

module _ (now : Bool) where
  parent_at-work :
      (q : Parent) (hs : List Handler) {s t : State}
      → s.parent ≡ q
      → s.parent_handlers ≡ hs
      → Inv s
      → parent_at now q s ≡ some t
      → work t < work s
  unfolding parent_at work
  parent_at-work Parent.exiting [] e f v h = ground arith
  parent_at-work Parent.exiting (k ∷ hs) e f v h = ground arith
  parent_at-work quitting [] e f v h = ground arith
  parent_at-work quitting (k ∷ hs) e f v h = ground arith
  parent_at-work _ hs e f v h = ground arith

  child_at-work :
      (q : Child) (hs : List Handler) (s : State) {t : State}
      → s.child ≡ q
      → s.child_handlers ≡ hs
      → child_at now q s ≡ some t
      → work t < work s
  unfolding child_at work
  child_at-work Child.exiting [] s e f h = ground arith
  child_at-work Child.exiting (k ∷ hs) s e f h = ground arith
  child_at-work _ hs s e f h = ground arith

  step-work : (e : Event) (s t : State) → Inv s → step now e s ≡ some t → work t < work s
  unfolding step work
  step-work parent_moves s t v h = parent_at-work s.parent s.parent_handlers refl refl v h
  step-work child_moves s t v h = child_at-work s.child s.child_handlers s refl refl h
  step-work (parent_fails e) s t v h = ground arith

  work-bound : {n : ℕ} {s : State} → Reach now n s → n ≤ 8
  unfolding work
  work-bound r = omega (arith, Steps-bound Inv work (ground arith) (step-Inv now) step-work r)

-- The ends.
abbrev Over : Parent → Child → Type 0
Over refused c = c ≡ unborn
Over failed c = c ≡ unborn
Over Parent.ended c = c ≡ Child.ended
Over _ _ = ⊥

stuck :
    (now : Bool) (q : Parent) (c : Child) (s : State)
    → BirthOk q c
    → parent_at now q s ≡ none
    → child_at now c s ≡ none
    → Over q c
unfolding parent_at child_at
stuck now q unborn s v hp hc = ground arith
stuck now q Child.ended s v hp hc = ground arith
stuck now q Child.printing s v hp hc = ground arith
stuck now q Child.exiting s v hp hc = ground arith

-- What has been written when nothing can happen any more.
abbrev pub Ends : Bool → Parent → Child → List Line → Type 0
Ends now q c out =
    ((q ≡ refused) × (c ≡ unborn) × (out ≡ []))
    ⊎ ((q ≡ failed) × (c ≡ unborn) × (out ≡ handled ∷ []))
    ⊎ ((q ≡ Parent.ended)
        × (c ≡ Child.ended)
        × Shuffle (parent_done ∷ handled ∷ []) (child_done ∷ handled ∷ []) out
        × ((now ≡ true)
            ⊎ (out ≡ parent_done ∷ handled ∷ child_done ∷ handled ∷ [])
            ⊎ (out ≡ child_done ∷ handled ∷ parent_done ∷ handled ∷ [])))

all_written :
    {ps cs pb cb out : List Line} → pb ≡ [] → cb ≡ [] → Shown ps cs pb cb out → Shuffle ps cs out
all_written e f v =
    rw
      (v.parent_split, v.child_split, e, f, append-nil v.parent_written, append-nil v.child_written)
      v.shuffled

ends :
    (q : Parent) (c : Child) (s : State)
    → s.parent ≡ q
    → s.child ≡ c
    → Over q c
    → Known s
    → Shuffle (parent_lines q []) (child_lines c []) s.out
ends refused unborn s e f o k =
    all_written (rw e at k.inv.flushed) (rw f at k.inv.child_flushed) (rw (e, f) at k.shown)
ends failed unborn s e f o k =
    all_written (rw e at k.inv.flushed) (rw f at k.inv.child_flushed)
      (rw (e, f, rw e at k.inv.handlers_ok) at k.shown)
ends Parent.ended Child.ended s e f o k =
    all_written (rw e at k.inv.flushed) (rw f at k.inv.child_flushed)
      (rw (e, f, rw e at k.inv.handlers_ok, rw f at k.inv.child_handlers_ok) at k.shown)
ends _ c s e f o k = ground arith

in_blocks :
    (now : Bool) {n : ℕ} {s : State}
    → s.parent ≡ Parent.ended
    → s.child ≡ Child.ended
    → Reach now n s
    → (now ≡ true)
      ⊎ (s.out ≡ parent_done ∷ handled ∷ child_done ∷ handled ∷ [])
      ⊎ (s.out ≡ child_done ∷ handled ∷ parent_done ∷ handled ∷ [])
in_blocks true e f r = inl refl
in_blocks false e f r = inr (rw (e, f) at (Reach-Kept r).out_ok)

ended :
    (now : Bool) (q : Parent) (c : Child) {n : ℕ} {s : State}
    → s.parent ≡ q
    → s.child ≡ c
    → Over q c
    → Reach now n s
    → Ends now q c s.out
ended now refused unborn {s = s} e f o r =
    inl (refl, refl, Shuffle-alone refl (ends refused unborn s e f o (Reach-Known now r)))
ended now failed unborn {s = s} e f o r =
    inr (inl (refl, refl, Shuffle-alone refl (ends failed unborn s e f o (Reach-Known now r))))
ended now Parent.ended Child.ended {s = s} e f o r = inr (
    inr
      (refl, refl, ends Parent.ended Child.ended s e f o (Reach-Known now r), in_blocks now e f r))
ended now _ c e f o r = ground arith

-- An execution has at most eight events, and in every reachable state something can happen next or
-- the execution has ended in one of three ways. atexit failed: there is no child, and nothing has been
-- printed. fork failed: the handler of the parent has run, once. Or both processes have ended, and
-- each has printed its own line and then, once, that of the handler, although the child has never
-- called atexit; these four lines are interleaved if each is written at once, and otherwise the two
-- of one process stand before the two of the other.
pub each_runs_handler :
    (now : Bool) {n : ℕ} {s : State}
    → Reach now n s
    → (n ≤ 8) × (Goes (step now) s ⊎ Ends now s.parent s.child s.out)
unfolding step
each_runs_handler now {s = s} r = (
  work-bound now r,
  elim (Option-cases (parent_at now s.parent s)) [
    | inr (t, h) ↦ inl (parent_moves, t, h)
    | inl hp ↦ elim (Option-cases (child_at now s.child s)) [
      | inr (t, h) ↦ inl (child_moves, t, h)
      | inl hc ↦ inr (
          ended now s.parent s.child refl refl
            (stuck now s.parent s.child s (Reach-Inv now r).birth_ok hp hc) r)
    ]
  ],
)
