-- ===== src/WaitSync/Results.antt =====
-- sigchld_wait_sync.c: which call of wait gets the child, and that the program ends.
use aup_assignments.Prelude.{
  ℕ, ◌+◌, ◌≤◌, ◌<◌, ◌≡◌, refl, ◌⊎◌, inl, inr, Bool, true, false, none, some, arith, Option-cases,
}
use aup_assignments.Prelude.Systems.{Steps-bound, Goes, begin}
use aup_assignments.WaitSync.{
  Main, trapping, forking, announcing, waiting, telling, exited, Handler, idle, entered, in_wait,
  reporting, Child, unborn, asleep, reaped, State, Event, main_moves, main_fails, child_exits,
  interrupt, handler_moves, main_at, main_step, handler_at, step, Reach,
}
use aup_assignments.WaitSync.Invariant.{Inv, Reach-Inv, step-Inv}

-- Whatever the order of events, when `main` of the parent has ended after a fork that succeeded, no
-- zombie is left, and exactly one of the two calls of wait has got the child: either the wait of
-- `main` succeeded, and that of the handler failed or was not made, or the wait of `main` failed and
-- that of the handler succeeded.
one_wait_succeeds :
    {n : ℕ} {s : State}
    → Reach n s
    → s.main ≡ exited
    → (¬ (s.child ≡ unborn))
    → (s.child ≡ reaped)
      × (((s.parent_wait ≡ some true) × (¬ (s.handler_wait ≡ some true)))
          ⊎ ((s.parent_wait ≡ some false) × (s.handler_wait ≡ some true)))
one_wait_succeeds r e b = ground (arith, Reach-Inv r)

-- The weight of what is left to do.
abbrev left_main : Main → ℕ
left_main trapping = 5
left_main forking = 4
left_main announcing = 3
left_main waiting = 2
left_main telling = 1
left_main exited = 0

abbrev left_handler : Handler → ℕ
left_handler idle = 0
left_handler entered = 3
left_handler in_wait = 2
left_handler reporting = 1

abbrev left_child : Child → ℕ
left_child unborn = 5
left_child asleep = 5
left_child _ = 0

abbrev left_signal : Bool → ℕ
left_signal true = 4
left_signal false = 0

abbrev work : State → ℕ
work s = left_main s.main + left_handler s.handler + (left_child s.child + left_signal s.pending)

main_at-lt : (q : Main) {s t : State} → s.main ≡ q → Inv s → main_at q s ≡ some t → work t < work s
unfolding main_at
main_at-lt waiting e v h = ground arith
main_at-lt _ e v h = ground arith

main_step-lt :
    (k : Handler) {s t : State} → s.handler ≡ k → Inv s → main_step k s ≡ some t → work t < work s
unfolding main_step
main_step-lt idle {s} e v h = main_at-lt s.main refl v h
main_step-lt _ e v h = cc

step-lt : (e : Event) {s t : State} → Inv s → step e s ≡ some t → work t < work s
unfolding step
step-lt main_moves {s} v h = main_step-lt s.handler refl v h
step-lt handler_moves v h = ground arith
step-lt main_fails v h = ground arith
step-lt child_exits v h = ground arith
step-lt interrupt v h = ground arith

work-bound : {n : ℕ} {s : State} → Reach n s → n + work s ≤ 10
work-bound =
    Steps-bound Inv work (Reach-Inv begin) (λ e s t v h. step-Inv e v h)
      (λ e s t v h. step-lt e v h)

stuck :
    {s : State}
    → Inv s
    → step main_moves s ≡ none
    → step handler_moves s ≡ none
    → step child_exits s ≡ none
    → s.main ≡ exited
unfolding step main_at main_step handler_at
stuck v a b c = ground arith

-- An execution has at most ten events, and in every reachable state in which `main` of the parent
-- has not ended, it or its handler can move or the child can exit: neither wait blocks for ever, the
-- one inside the handler included.
waits_end : {n : ℕ} {s : State} → Reach n s → (n ≤ 10) × (Goes step s ⊎ (s.main ≡ exited))
waits_end {s} r = (
  omega (arith, work-bound r),
  elim (Option-cases (step main_moves s)) [
    | inr (t, h) ↦ inl (main_moves, t, h)
    | inl hm ↦ elim (Option-cases (step handler_moves s)) [
      | inr (t, h) ↦ inl (handler_moves, t, h)
      | inl hh ↦ elim (Option-cases (step child_exits s)) [
        | inr (t, h) ↦ inl (child_exits, t, h)
        | inl hc ↦ inr (stuck (Reach-Inv r) hm hh hc)
      ]
    ]
  ],
)

-- In every reachable state in which the handler is about to call wait, the child has ended, so that
-- call returns at once; and the handler never runs once `main` has ended.
handler_never_blocks :
    {n : ℕ} {s : State}
    → Reach n s
    → s.handler ≡ in_wait
    → (¬ (s.child ≡ asleep)) × (¬ (s.main ≡ exited)) × (¬ (step handler_moves s ≡ none))
unfolding step handler_at
handler_never_blocks r e = ground (arith, Reach-Inv r)

born-cases : (c : Child) → (c ≡ unborn) ⊎ (¬ (c ≡ unborn))
born-cases unborn = inl refl
born-cases asleep = inr (λ h. cc)
born-cases _ = inr (λ h. cc)

-- An execution has at most ten events, and in every reachable state in which `main` of the parent has
-- not ended, something can happen next: no wait blocks for ever, the one inside the handler included.
-- When `main` has ended after a fork that succeeded, whatever the order of events, no zombie is left
-- and exactly one of the two calls of wait has got the child: the wait of `main`, and that of the
-- handler failed or was not made; or that of the handler, and the wait of `main` failed.
pub one_wait_gets_child :
    {n : ℕ} {s : State}
    → Reach n s
    → (n ≤ 10)
      × (Goes step s
          ⊎ ((s.main ≡ exited)
              × ((s.child ≡ unborn)
                  ⊎ ((s.child ≡ reaped)
                      × (((s.parent_wait ≡ some true) × (¬ (s.handler_wait ≡ some true)))
                          ⊎ ((s.parent_wait ≡ some false) × (s.handler_wait ≡ some true)))))))
one_wait_gets_child {s = s} r =
    let (b, e) = waits_end r in
    (
      b,
      elim e [
        | inl go ↦ inl go
        | inr over ↦ inr (
          over,
          elim (born-cases s.child) [ inl u ↦ inl u | inr u ↦ inr (one_wait_succeeds r over u) ],
        )
      ],
    )
