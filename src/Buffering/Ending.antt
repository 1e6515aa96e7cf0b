-- ===== src/Buffering/Ending.antt =====
-- Executions of fork_printf_buffering.c end, and what has been written then.
use aup_assignments.Prelude.{
  ℕ, ◌+◌, ◌≤◌, ◌<◌, ◌≡◌, refl, ◌∙◌, ◌⊎◌, inl, inr, Bool, true, false, none, some, List, [], ◌∷◌,
  ◌++◌, arith, Option-cases,
}
use aup_assignments.Prelude.Systems.{Goes}
use aup_assignments.Prelude.Shuffle.{Shuffle, Shuffle-alone}
use aup_assignments.Buffering.{
  Root, Middle, Leaf, State, Event, root_moves, middle_moves, leaf_moves, root_fails, middle_fails,
  middle_over, leaf_over, eager, root_at, middle_at, leaf_at, step, Reach, begin, later,
}
use aup_assignments.Buffering.Full
use aup_assignments.Buffering.Lines
use aup_assignments.Buffering.Full.{RootOk, MiddleOk}

-- The events a process has before it, those of the processes it makes included.
abbrev root_left : Root → ℕ
root_left Root.forking = 12
root_left Root.printing = 4
root_left Root.waiting = 3
root_left Root.finishing = 2
root_left Root.exiting = 1
root_left Root.ended = 0

abbrev middle_left : Middle → ℕ
middle_left Middle.forking = 7
middle_left Middle.printing = 4
middle_left Middle.waiting = 3
middle_left Middle.finishing = 2
middle_left Middle.exiting = 1
middle_left _ = 0

abbrev leaf_left : Leaf → ℕ
leaf_left Leaf.printing = 2
leaf_left Leaf.exiting = 1
leaf_left _ = 0

work : State → ℕ
work s = root_left s.root + middle_left s.middle + leaf_left s.leaf

record Oks (s : State) : Type 0 where
  root_ok : RootOk s.root s.middle
  middle_ok : MiddleOk s.middle s.leaf

-- In both modes.
Oks-at :
    (now : Bool) {tty no_newline : Bool} {n : ℕ} {s : State}
    → eager tty no_newline ≡ now
    → Reach tty no_newline n s
    → Oks s
Oks-at true e r =
    let v = (Lines.Reach-Inv e r).quiet in record { root_ok = v.root_ok; middle_ok = v.middle_ok }
Oks-at false e r =
    let v = Full.Reach-Inv e r in record { root_ok = v.root_ok; middle_ok = v.middle_ok }

Reach-Oks : {tty no_newline : Bool} {n : ℕ} {s : State} → Reach tty no_newline n s → Oks s
Reach-Oks {tty} {no_newline} r = Oks-at (eager tty no_newline) refl r

module _ (now : Bool) where
  root_at-work :
      (q : Root) (s t : State) → s.root ≡ q → Oks s → root_at now q s ≡ some t → work t < work s
  unfolding root_at work
  root_at-work Root.waiting s t e v h = ground arith
  root_at-work _ s t e v h = ground arith

  middle_at-work :
      (q : Middle) (s t : State)
      → s.middle ≡ q
      → Oks s
      → middle_at now q s ≡ some t
      → work t < work s
  unfolding middle_at work
  middle_at-work Middle.waiting s t e v h = ground arith
  middle_at-work _ s t e v h = ground arith

  leaf_at-work : (q : Leaf) (s t : State) → s.leaf ≡ q → leaf_at now q s ≡ some t → work t < work s
  unfolding leaf_at work
  leaf_at-work Leaf.printing s t e h = ground arith
  leaf_at-work _ s t e h = ground arith

  step-work : (e : Event) (s t : State) → Oks s → step now e s ≡ some t → work t < work s
  unfolding step work
  step-work root_moves s t v h = root_at-work s.root s t refl v h
  step-work middle_moves s t v h = middle_at-work s.middle s t refl v h
  step-work leaf_moves s t v h = leaf_at-work s.leaf s t refl h
  step-work root_fails s t v h = ground arith
  step-work middle_fails s t v h = ground arith

work-bound :
    {tty no_newline : Bool} {n : ℕ} {s : State} → Reach tty no_newline n s → n + work s ≤ 12
unfolding work
work-bound begin = omega arith
work-bound {tty} {no_newline} (later {s = s} {t = t} e r h) =
    omega (arith, work-bound r, step-work (eager tty no_newline) e s t (Reach-Oks r) h)

abbrev Over : Root → Middle → Leaf → Type 0
Over r m l = (r ≡ Root.ended) × (middle_over m ≡ true) × (leaf_over l ≡ true)

stuck :
    (now : Bool) (s : State) (r : Root) (m : Middle) (l : Leaf)
    → RootOk r m
    → MiddleOk m l
    → s.middle ≡ m
    → s.leaf ≡ l
    → root_at now r s ≡ none
    → middle_at now m s ≡ none
    → leaf_at now l s ≡ none
    → Over r m l
unfolding root_at middle_at leaf_at
stuck now s r m Leaf.printing ro mo em el hr hm hl = cc
stuck now s r m Leaf.exiting ro mo em el hr hm hl = cc
stuck now s r Middle.waiting Leaf.unborn ro mo em el hr hm hl = ground arith
stuck now s r Middle.waiting Leaf.ended ro mo em el hr hm hl = ground arith
stuck now s Root.waiting m l ro mo em el hr hm hl = ground arith
stuck now s r m l ro mo em el hr hm hl = ground arith

-- What has been written in the end by the processes that there were.
abbrev pub Output : Bool → Middle → Leaf → List ℕ → Type 0
Output false Middle.ended Leaf.ended out = out ≡ 4 ∷ 2 ∷ 3 ∷ 0 ∷ 1 ∷ []
Output false Middle.ended _ out = out ≡ 2 ∷ 3 ∷ 0 ∷ 1 ∷ []
Output true Middle.ended Leaf.ended out =
    (upper : List ℕ) × (lower : List ℕ) × (out ≡ upper ++ 1 ∷ [])
    × Shuffle (0 ∷ []) (lower ++ 3 ∷ []) upper
    × Shuffle (2 ∷ []) (4 ∷ []) lower
Output true Middle.ended _ out =
    (upper : List ℕ) × (out ≡ upper ++ 1 ∷ []) × Shuffle (0 ∷ []) (2 ∷ 3 ∷ []) upper
Output _ _ _ out = out ≡ 0 ∷ 1 ∷ []

lazy_output :
    (m : Middle) (l : Leaf) {tty no_newline : Bool} {n : ℕ} {s : State}
    → eager tty no_newline ≡ false
    → Reach tty no_newline n s
    → s.root ≡ Root.ended
    → s.middle ≡ m
    → s.leaf ≡ l
    → middle_over m ≡ true
    → leaf_over l ≡ true
    → Output false m l s.out
lazy_output m Leaf.ended e r er em el om ol = ground (arith, Full.Reach-Inv e r)
lazy_output m Leaf.unborn e r er em el om ol = ground (arith, Full.Reach-Inv e r)
lazy_output m _ e r er em el om ol = cc

eager_output :
    (m : Middle) (l : Leaf) {tty no_newline : Bool} {n : ℕ} {s : State}
    → eager tty no_newline ≡ true
    → Reach tty no_newline n s
    → s.root ≡ Root.ended
    → s.middle ≡ m
    → s.leaf ≡ l
    → middle_over m ≡ true
    → leaf_over l ≡ true
    → Output true m l s.out
eager_output Middle.ended Leaf.ended e r er em el om ol = Lines.line_output e r er em el
eager_output Middle.ended Leaf.unborn e r er em el om ol =
    let (u, ys, o, (v, f, low), high) = (rw (er, em, el) at (Lines.Reach-Inv e r).whole) in
    (u, o, rw (f, Shuffle-alone refl low) at high)
eager_output Middle.unborn l e r er em el om ol =
    let v = Lines.Reach-Inv e r in
    let (u, ys, o, low, high) = (rw (er, em, rw em at v.quiet.middle_ok) at v.whole) in
    o ∙ rw (Shuffle-alone (Shuffle-alone refl low) high) refl
eager_output _ _ e r er em el om ol = cc

output :
    (now : Bool) (m : Middle) (l : Leaf) {tty no_newline : Bool} {n : ℕ} {s : State}
    → eager tty no_newline ≡ now
    → Reach tty no_newline n s
    → s.root ≡ Root.ended
    → s.middle ≡ m
    → s.leaf ≡ l
    → middle_over m ≡ true
    → leaf_over l ≡ true
    → Output now m l s.out
output true m l e r = eager_output m l e r
output false m l e r = lazy_output m l e r

-- An execution has at most twelve events, and in every reachable state something can happen next, so
-- that no wait blocks for ever, or all processes that there are have ended. If both forks have succeeded
-- and standard output is no terminal, or the lines are printed without newlines, 4, 2, 3, 0, 1 have
-- then been written in this order, however the processes took turns; on a terminal, with newlines, 1
-- comes last, and before it 0 anywhere among the lines of the other two, of which 2 and 4 come in
-- either order, and 3 after both. Without the third process the same holds without 4, and without
-- the second one, which makes it, the output is 0, 1.
pub prints_to_the_end :
    {tty no_newline : Bool} {n : ℕ} {s : State}
    → Reach tty no_newline n s
    → let now = eager tty no_newline in
      (n ≤ 12)
      × (Goes (step now) s
          ⊎ ((s.root ≡ Root.ended)
              × (middle_over s.middle ≡ true)
              × (leaf_over s.leaf ≡ true)
              × Output now s.middle s.leaf s.out))
unfolding step
prints_to_the_end {tty} {no_newline} {s = s} r =
    let now = eager tty no_newline in
    let v = Reach-Oks r in
    (
      omega (arith, work-bound r),
      elim (Option-cases (root_at now s.root s)) [
        | inr (t, h) ↦ inl (root_moves, t, h)
        | inl hr ↦ elim (Option-cases (middle_at now s.middle s)) [
          | inr (t, h) ↦ inl (middle_moves, t, h)
          | inl hm ↦ elim (Option-cases (leaf_at now s.leaf s)) [
            | inr (t, h) ↦ inl (leaf_moves, t, h)
            | inl hl ↦ inr (
                let (er, om, ol) =
                  stuck now s s.root s.middle s.leaf v.root_ok v.middle_ok refl refl hr hm hl in
                (er, om, ol, output now s.middle s.leaf refl r er refl refl om ol))
          ]
        ]
      ],
    )
