-- ===== src/Counter/Results.antt =====
-- The two counting threads: what is printed, the final count, progress and termination.
use aup_assignments.Prelude.{
  ℕ, zero, suc, ◌+◌, ◌-◌, ◌*◌, ◌≤◌, ◌<◌, ◌≡◌, refl, sym, ◌∙◌, ap, ◌⊎◌, inl, inr, none, some, arith,
  length, Option-cases,
}
use aup_assignments.Counter.{
  Pc, locking, testing, waiting, woken, signalling, unlocking, wanting, adding, printing, releasing,
  checking, returned, State, count1_at, count1, count2_at, count2, Step, by_one, by_two, Reach,
  begin, later, stray,
}
use aup_assignments.Counter.Invariant.{countdown, unprinted, Inv, Reach-Inv}

length-countdown : (n : ℕ) → length (countdown n) ≡ n
length-countdown zero = refl
length-countdown (suc n) = ap suc (length-countdown n)

-- In every reachable state the lines printed by the two threads together are 1, 2, 3, … in order,
-- with no value twice and none left out, and `count` is ahead of them by at most 1.
lines_in_order :
    {n m : ℕ} {s : State}
    → Reach n m s
    → (s.out ≡ countdown (length s.out)) × (length s.out ≤ s.count) × (s.count ≤ length s.out + 1)
lines_in_order {s} r =
    let v = Reach-Inv r in
    let e : length s.out ≡ s.count - (unprinted s.one + unprinted s.two) =
      ap length v.printed ∙ length-countdown _ in
    (v.printed ∙ ap countdown (sym e), omega arith, ground (arith, v.counting))

-- When both threads have returned, `count` is 10 or 11, and every value up to it has been printed.
final_count :
    {n m : ℕ} {s : State}
    → Reach n m s
    → s.one ≡ returned
    → s.two ≡ returned
    → ((s.count ≡ 10) ⊎ (s.count ≡ 11)) × (s.out ≡ countdown s.count)
final_count r h1 h2 = ground (arith, Reach-Inv r)

stuck :
    (p q : Pc) {s : State}
    → s.one ≡ p
    → s.two ≡ q
    → Inv s
    → count1_at p s ≡ none
    → count2_at q s ≡ none
    → (s.one ≡ returned) × (s.two ≡ returned)
unfolding count1_at count2_at
stuck locking q ep eq v hp hq = ground arith
stuck _ locking ep eq v hp hq = ground arith
stuck _ _ ep eq v hp hq = ground arith

-- In every reachable state a thread can make a step, or both have returned: the wake-up of the first
-- thread is never lost.
never_stuck :
    {n m : ℕ} {s : State}
    → Reach n m s
    → ((t : State) × Step s t) ⊎ ((s.one ≡ returned) × (s.two ≡ returned))
unfolding count1 count2
never_stuck {s} r = elim (Option-cases (count1_at s.one s)) [
  | inr (t, h) ↦ inl (t, by_one h)
  | inl h1 ↦ elim (Option-cases (count2_at s.two s)) [
    | inr (t, h) ↦ inl (t, by_two h)
    | inl h2 ↦ inr (stuck s.one s.two refl refl (Reach-Inv r) h1 h2)
  ]
]

-- The weight of a position; the increment pays for the next round, a signal for the wake-up.
abbrev left : Pc → ℕ
left locking = 12
left woken = 12
left testing = 11
left waiting = 10
left signalling = 10
left unlocking = 7
left wanting = 6
left adding = 5
left printing = 15
left releasing = 14
left checking = 13
left returned = 0

abbrev work : State → ℕ
work s = 11 * (11 - s.count) + left s.one + left s.two

count1_at-lt : (q : Pc) {s t : State} → s.one ≡ q → Inv s → count1_at q s ≡ some t → work t < work s
unfolding count1_at
count1_at-lt locking e v h = ground arith
count1_at-lt _ e v h = ground arith

count2_at-lt : (q : Pc) {s t : State} → s.two ≡ q → Inv s → count2_at q s ≡ some t → work t < work s
unfolding count2_at
count2_at-lt locking e v h = ground arith
count2_at-lt _ e v h = ground arith

Step-lt : {s t : State} → Step s t → Inv s → work t < work s
unfolding count1 count2
Step-lt {s} (by_one h) v = count1_at-lt s.one refl v h
Step-lt {s} (by_two h) v = count2_at-lt s.two refl v h

work-bound : {n m : ℕ} {s : State} → Reach n m s → n + work s ≤ 145 + 2 * m
work-bound begin = omega arith
work-bound (later r st) = omega (arith, work-bound r, Step-lt st (Reach-Inv r))
work-bound (stray r w e) = ground (arith, work-bound r)

-- Every execution with `m` spurious wake-ups has at most 145 + 2 * m steps, and `count` never
-- exceeds 11.
counting_ends : {n m : ℕ} {s : State} → Reach n m s → (n ≤ 145 + 2 * m) × (s.count ≤ 11)
counting_ends r = (omega (arith, work-bound r), ground (arith, Reach-Inv r))

-- Every execution with `m` spurious wake-ups has at most 145 + 2 * m steps, and in every reachable
-- state a thread can make a step, or both have returned. The wake-up of the first thread is never
-- lost; and when both have returned, `count` is 10 or 11, and the values up to it have been printed
-- in order, each once.
pub counts_to_the_end :
    {n m : ℕ} {s : State}
    → Reach n m s
    → (n ≤ 145 + 2 * m)
      × (((t : State) × Step s t)
          ⊎ ((s.one ≡ returned)
              × (s.two ≡ returned)
              × ((s.count ≡ 10) ⊎ (s.count ≡ 11))
              × (s.out ≡ countdown s.count)))
counts_to_the_end r = (
  (counting_ends r).0,
  elim (never_stuck r) [
    | inl go ↦ inl go
    | inr (one, two) ↦ let (c, o) = final_count r one two in inr (one, two, c, o)
  ],
)
