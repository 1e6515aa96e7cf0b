-- ===== src/Spin/Results.antt =====
-- The busy-waiting buffer: its bounds, its progress and its end.
use aup_assignments.Prelude.{
  ℕ, ◌+◌, ◌-◌, ◌*◌, ◌≤◌, ◌<◌, ◌≡◌, refl, ◌⊎◌, inl, inr, true, none, some, arith, replicate,
  All-replicate, Option-cases,
}
use aup_assignments.Spin.{
  Pc, start, spinning, wanting, access, adjust, unlock, exited, State, max_size, rounds, produce_at,
  produce, consume_at, consume, Step, by_p, by_c, Reach, begin, later,
}
use aup_assignments.Spin.Invariant.{critical, Core, Reach-Inv}

-- In every reachable state at most one thread is inside the mutex, `count` is at most MAX_SIZE, the
-- producer stores below MAX_SIZE, and the consumer reads below MAX_SIZE with `count` above 0, though
-- both test `count` before they take the mutex.
early_test_is_safe :
    {buf : ℕ → ℕ} {n : ℕ} {s : State}
    → Reach buf n s
    → (¬ ((critical s.p ≡ true) × (critical s.c ≡ true)))
      × (s.count ≤ max_size)
      × (s.p ≡ access → s.count < max_size)
      × (s.c ≡ access → (0 < s.count) × (s.count - 1 < max_size))
early_test_is_safe {s} r = ground (arith, (Reach-Inv r).core)

stuck :
    (p c : Pc) {s : State}
    → s.p ≡ p
    → s.c ≡ c
    → Core s
    → produce_at p s ≡ none
    → consume_at c s ≡ none
    → (s.p ≡ exited) × (s.c ≡ exited)
unfolding produce_at consume_at
stuck start c ep ec v hp hc = ground arith
stuck _ start ep ec v hp hc = ground arith
stuck _ _ ep ec v hp hc = ground arith

-- The weight of what is left of a round.
abbrev left : Pc → ℕ
left start = 6
left spinning = 5
left wanting = 4
left access = 3
left adjust = 2
left unlock = 1
left exited = 0

abbrev work : State → ℕ
work s = 6 * (rounds - s.i) + left s.p + (6 * (rounds - s.j) + left s.c)

produce_at-lt :
    (q : Pc) {s t : State} → s.p ≡ q → Core s → produce_at q s ≡ some t → work t < work s
unfolding produce_at
produce_at-lt start e v h = ground arith
produce_at-lt _ e v h = ground arith

consume_at-lt :
    (q : Pc) {s t : State} → s.c ≡ q → Core s → consume_at q s ≡ some t → work t < work s
unfolding consume_at
consume_at-lt start e v h = ground arith
consume_at-lt _ e v h = ground arith

Step-lt : {s t : State} → Step s t → Core s → work t < work s
unfolding produce consume
Step-lt {s} (by_p h) v = produce_at-lt s.p refl v h
Step-lt {s} (by_c h) v = consume_at-lt s.c refl v h

work-bound : {buf : ℕ → ℕ} {n : ℕ} {s : State} → Reach buf n s → n + work s ≤ 120
work-bound begin = omega arith
work-bound (later r st) = omega (arith, work-bound r, Step-lt st (Reach-Inv r).core)

-- In every reachable state the threads have made at most 120 steps (idle rounds of the busy loops
-- not counted), and either a thread can make a step or both have exited: a schedule that is fair to
-- both threads ends.
always_ends :
    {buf : ℕ → ℕ} {n : ℕ} {s : State}
    → Reach buf n s
    → (n ≤ 120) × (((t : State) × Step s t) ⊎ ((s.p ≡ exited) × (s.c ≡ exited)))
unfolding produce consume
always_ends {s} r = (
  omega (arith, work-bound r),
  elim (Option-cases (produce_at s.p s)) [
    | inr (t, h) ↦ inl (t, by_p h)
    | inl hp ↦ elim (Option-cases (consume_at s.c s)) [
      | inr (t, h) ↦ inl (t, by_c h)
      | inl hc ↦ inr (stuck s.p s.c refl refl (Reach-Inv r).core hp hc)
    ]
  ],
)

-- When both threads have exited, the consumer has printed 'p' nine times and nothing else, and
-- `count` is back at 0.
final_output :
    {buf : ℕ → ℕ} {n : ℕ} {s : State}
    → Reach buf n s
    → s.p ≡ exited
    → s.c ≡ exited
    → (s.out ≡ replicate 9 b'p') × (s.count ≡ 0)
final_output {s} r hp hc =
    let v = Reach-Inv r in
    (All-replicate b'p' s.out 9 v.printed (ground (arith, v.core)), ground (arith, v.core))

-- In every reachable state the threads have made at most 120 steps (idle rounds of the busy loops
-- not counted), and either a thread can make a step or both have exited: a schedule that is fair to
-- both threads ends. The consumer has then printed 'p' nine times and nothing else, and `count` is
-- back at 0.
pub runs_dry :
    {buf : ℕ → ℕ} {n : ℕ} {s : State}
    → Reach buf n s
    → (n ≤ 120)
      × (((t : State) × Step s t)
          ⊎ ((s.p ≡ exited) × (s.c ≡ exited) × (s.out ≡ replicate 9 b'p') × (s.count ≡ 0)))
runs_dry r =
    let (b, e) = always_ends r in
    (
      b,
      elim e [ inl go ↦ inl go | inr (p, c) ↦ let (o, k) = final_output r p c in inr (p, c, o, k) ],
    )
