-- ===== src/Monitor/Progress.antt =====
-- No deadlock and no lost wake-up: short of the end, some thread can make a step.
use aup_assignments.Prelude.{ℕ, ◌≡◌, refl, ◌⊎◌, inl, inr, none, arith, Option-cases}
use aup_assignments.Monitor.{
  Pc, start, exited, State, produce_at, produce, consume_at, consume, Step, by_p, by_c, Reach,
}
use aup_assignments.Monitor.Invariant.{Core, Reach-Inv}

-- If both threads are blocked or at their end, both are at their end.
stuck :
    (p c : Pc) {s : State}
    → s.p ≡ p
    → s.c ≡ c
    → Core s
    → produce_at p s ≡ none
    → consume_at c s ≡ none
    → (s.p ≡ exited) × (s.c ≡ exited)
unfolding produce_at consume_at
stuck start c ep ec v hp hc = ground arith
stuck _ start ep ec v hp hc = ground arith
stuck _ _ ep ec v hp hc = ground arith

-- In every reachable state a thread can make a step, or both threads have exited; a spurious
-- wake-up is not needed for this.
pub no_deadlock :
    {buf : ℕ → ℕ} {n m : ℕ} {s : State}
    → Reach buf n m s
    → ((t : State) × Step s t) ⊎ ((s.p ≡ exited) × (s.c ≡ exited))
unfolding produce consume
no_deadlock {s} r = elim (Option-cases (produce_at s.p s)) [
  | inr (t, h) ↦ inl (t, by_p h)
  | inl hp ↦ elim (Option-cases (consume_at s.c s)) [
    | inr (t, h) ↦ inl (t, by_c h)
    | inl hc ↦ inr (stuck s.p s.c refl refl (Reach-Inv r).core hp hc)
  ]
]
