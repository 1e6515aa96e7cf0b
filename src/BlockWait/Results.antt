-- ===== src/BlockWait/Results.antt =====
-- sigchld_block_wait.c: what a blocked SIGCHLD does to the parent, and that the program ends.
use aup_assignments.Prelude.{
  ℕ, ◌+◌, ◌≤◌, ◌<◌, ◌≡◌, refl, ◌⊎◌, inl, inr, Bool, true, false, none, some, arith, Option-cases,
}
use aup_assignments.Prelude.Systems.{Steps-bound, Goes, begin}
use aup_assignments.BlockWait.{
  Main, trapping, emptying, adding, masking, forking, sleeping, querying, testing, waiting,
  finished, unwaited, failed, Child, unborn, running, zombie, reaped, State, Event, main_moves,
  main_fails, child_exits, interrupt, main_at, fails_at, interrupt_at, step, Reach,
}
use aup_assignments.BlockWait.Invariant.{Inv, Reach-Inv, step-Inv}

-- In no order of events does wait fail, whether SIGCHLD could be blocked or not; and when the parent
-- has come to its end, the child is waited for.
wait_succeeds :
    {n : ℕ} {s : State}
    → Reach n s
    → (¬ (s.main ≡ unwaited)) × (s.main ≡ finished → s.child ≡ reaped)
wait_succeeds r = ground (arith, Reach-Inv r)

-- If SIGCHLD is blocked, its handler has not run in any reachable state, though the child may have
-- ended; sigpending finds the signal exactly if the child has ended by then; and a parent that has
-- come to its end has printed that the signal is pending exactly if sigpending found it.
pub blocked_stays_pending :
    {n : ℕ} {s : State}
    → Reach n s
    → s.blocked ≡ true
    → (s.caught ≡ false)
      × ((t : State)
          → s.main ≡ querying
          → step main_moves s ≡ some t
          → (s.child ≡ zombie → t.queried ≡ true) × (s.child ≡ running → t.queried ≡ false))
      × (s.main ≡ finished → s.shown ≡ s.queried)
unfolding step main_at
blocked_stays_pending {s} r b =
    let v = Reach-Inv r in (ground (arith, v), (λ t e h. ground (arith, v)), λ e. ground (arith, v))

-- If sigprocmask failed and the child has ended, either the signal is still to be delivered or its
-- handler has run, and not both.
unblocked_is_caught :
    {n : ℕ} {s : State}
    → Reach n s
    → s.blocked ≡ false
    → (s.child ≡ zombie) ⊎ (s.child ≡ reaped)
    → ((s.pending ≡ true) × (s.caught ≡ false)) ⊎ ((s.pending ≡ false) × (s.caught ≡ true))
unblocked_is_caught r b c = ground (arith, Reach-Inv r)

-- The weight of what is left to do.
abbrev left_main : Main → ℕ
left_main trapping = 9
left_main emptying = 8
left_main adding = 7
left_main masking = 6
left_main forking = 5
left_main sleeping = 4
left_main querying = 3
left_main testing = 2
left_main waiting = 1
left_main _ = 0

abbrev left_child : Child → ℕ
left_child unborn = 2
left_child running = 2
left_child _ = 0

abbrev left_signal : Bool → ℕ
left_signal true = 1
left_signal false = 0

abbrev work : State → ℕ
work s = left_main s.main + (left_child s.child + left_signal s.pending)

main_at-lt : (q : Main) {s t : State} → s.main ≡ q → Inv s → main_at q s ≡ some t → work t < work s
unfolding main_at
main_at-lt waiting e v h = ground arith
main_at-lt _ e v h = ground arith

fails_at-lt : (q : Main) (s t : State) → s.main ≡ q → fails_at q s ≡ some t → work t < work s
unfolding fails_at
fails_at-lt masking s t e h = ground arith
fails_at-lt _ s t e h = ground arith

interrupt_at-lt : (q : Main) (s t : State) → interrupt_at q s ≡ some t → work t < work s
unfolding interrupt_at
interrupt_at-lt trapping s t h = ground arith
interrupt_at-lt _ s t h = ground arith

step-lt : (e : Event) {s t : State} → Inv s → step e s ≡ some t → work t < work s
unfolding step
step-lt main_moves {s} v h = main_at-lt s.main refl v h
step-lt main_fails {s} {t} v h = fails_at-lt s.main s t refl h
step-lt child_exits v h = ground arith
step-lt interrupt {s} {t} v h = interrupt_at-lt s.main s t h

work-bound : {n : ℕ} {s : State} → Reach n s → n + work s ≤ 11
work-bound =
    Steps-bound Inv work (Reach-Inv begin) (λ e s t v h. step-Inv e v h)
      (λ e s t v h. step-lt e v h)

stuck :
    {s : State}
    → Inv s
    → step main_moves s ≡ none
    → step child_exits s ≡ none
    → (s.main ≡ finished) ⊎ (s.main ≡ failed)
unfolding step main_at
stuck v a b = ground arith

-- An execution has at most eleven events, and in every reachable state `main` can make a call, or
-- the child can end, or the parent has ended, with its last line or at a call that failed.
blocked_run_ends :
    {n : ℕ} {s : State}
    → Reach n s
    → (n ≤ 11) × (Goes step s ⊎ ((s.main ≡ finished) ⊎ (s.main ≡ failed)))
blocked_run_ends {s} r = (
  omega (arith, work-bound r),
  elim (Option-cases (step main_moves s)) [
    | inr (t, h) ↦ inl (main_moves, t, h)
    | inl hm ↦ elim (Option-cases (step child_exits s)) [
      | inr (t, h) ↦ inl (child_exits, t, h)
      | inl hc ↦ inr (stuck (Reach-Inv r) hm hc)
    ]
  ],
)
