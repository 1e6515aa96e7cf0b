-- ===== src/Monitor/Ending.antt =====
-- The bounded buffer runs to its end: a measure that every step lowers, and the final state.
use aup_assignments.Prelude.{
  ℕ, ◌+◌, ◌-◌, ◌*◌, ◌≤◌, ◌<◌, ◌≡◌, refl, ◌⊎◌, inl, inr, some, arith, replicate, All-replicate,
}
use aup_assignments.Monitor.{
  Pc, start, wanting, testing, waiting, woken, access, adjust, signal, unlock, exited, free, State,
  rounds, produce_at, produce, consume_at, consume, Step, by_p, by_c, Spurious, of_p, of_c, Reach,
  begin, later, stray,
}
use aup_assignments.Monitor.Invariant.{Core, Reach-Inv}
use aup_assignments.Monitor.Progress.{no_deadlock}

-- The weight of what is left of a round. The signal pays for the wake-up that it may cause.
abbrev left : Pc → ℕ
left start = 9
left wanting = 8
left woken = 8
left testing = 7
left waiting = 6
left access = 6
left adjust = 5
left signal = 4
left unlock = 1
left exited = 0

abbrev work : State → ℕ
work s = 10 * (rounds - s.i) + left s.p + (10 * (rounds - s.j) + left s.c)

produce_at-lt :
    (q : Pc) {s t : State} → s.p ≡ q → Core s → produce_at q s ≡ some t → work t < work s
unfolding produce_at
produce_at-lt start e v h = ground arith
produce_at-lt _ e v h = ground arith

consume_at-lt :
    (q : Pc) {s t : State} → s.c ≡ q → Core s → consume_at q s ≡ some t → work t < work s
unfolding consume_at
consume_at-lt start e v h = ground arith
consume_at-lt _ e v h = ground arith

Step-lt : {s t : State} → Step s t → Core s → work t < work s
unfolding produce consume
Step-lt {s} (by_p h) v = produce_at-lt s.p refl v h
Step-lt {s} (by_c h) v = consume_at-lt s.c refl v h

Spurious-work : {s t : State} → Spurious s t → work t ≡ work s + 2
Spurious-work (of_p h e) = ground arith
Spurious-work (of_c h e) = ground arith

work-bound : {buf : ℕ → ℕ} {n m : ℕ} {s : State} → Reach buf n m s → n + work s ≤ 198 + 2 * m
work-bound begin = omega arith
work-bound (later r st) = omega (arith, work-bound r, Step-lt st (Reach-Inv r).core)
work-bound (stray r st) = omega (arith, work-bound r, Spurious-work st)

-- Every execution with `m` spurious wake-ups has at most 198 + 2 * m steps of the threads: neither
-- thread loops or waits for ever.
terminates : {buf : ℕ → ℕ} {n m : ℕ} {s : State} → Reach buf n m s → n ≤ 198 + 2 * m
terminates r = omega (arith, work-bound r)

-- When both threads have exited, the consumer has printed the character 'p' nine times and nothing
-- else, `count` is back at 0 and the mutex is free.
final_state :
    {buf : ℕ → ℕ} {n m : ℕ} {s : State}
    → Reach buf n m s
    → s.p ≡ exited
    → s.c ≡ exited
    → (s.out ≡ replicate 9 b'p') × (s.count ≡ 0) × (s.lock ≡ free)
final_state {s} r hp hc =
    let v = Reach-Inv r in
    (
      All-replicate b'p' s.out 9 v.printed (ground (arith, v.core)),
      ground (arith, v.core),
      ground (arith, v.core),
    )

-- Every execution with `m` spurious wake-ups has at most 198 + 2 * m steps of the threads, and in
-- every reachable state a thread can make a step, without a spurious wake-up, or both have exited.
-- The consumer has then printed the character 'p' nine times and nothing else, `count` is back at 0,
-- and the mutex is free.
pub runs_to_the_end :
    {buf : ℕ → ℕ} {n m : ℕ} {s : State}
    → Reach buf n m s
    → (n ≤ 198 + 2 * m)
      × (((t : State) × Step s t)
          ⊎ ((s.p ≡ exited)
              × (s.c ≡ exited)
              × (s.out ≡ replicate 9 b'p')
              × (s.count ≡ 0)
              × (s.lock ≡ free)))
runs_to_the_end r = (
  terminates r,
  elim (no_deadlock r) [
    | inl go ↦ inl go
    | inr (p, c) ↦ let (o, k, l) = final_state r p c in inr (p, c, o, k, l)
  ],
)
