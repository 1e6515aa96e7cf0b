-- ===== src/Monitor/Invariant.antt =====
-- The invariant of the bounded buffer: who holds the mutex, how `count` follows from the rounds
-- done, what is in the buffer, and that no wake-up is lost.
use aup_assignments.Prelude.{
  ℕ, ◌+◌, ◌-◌, ◌≤◌, ◌<◌, ◌≡◌, refl, Bool, true, false, some, arith, length, All,
}
use aup_assignments.Monitor.{
  Pc, start, testing, waiting, access, adjust, signal, unlock, exited, Owner, free, by_producer,
  by_consumer, State, max_size, rounds, produce_at, produce, consume_at, consume, Step, by_p, by_c,
  Spurious, of_p, of_c, Reach, begin, later, stray,
}

-- Between pthread_mutex_lock and pthread_mutex_unlock, outside pthread_cond_wait.
abbrev pub critical : Pc → Bool
critical testing = true
critical access = true
critical adjust = true
critical signal = true
critical unlock = true
critical _ = false

-- 1 where the update of `count` of the current round is done.
abbrev pub moved : Pc → ℕ
moved signal = 1
moved unlock = 1
moved _ = 0

-- 1 where the access to the buffer of the current round is done.
abbrev pub accessed : Pc → ℕ
accessed adjust = 1
accessed q = moved q

-- 1 inside a round.
abbrev pub inside : Pc → ℕ
inside start = 0
inside exited = 0
inside _ = 1

-- 1 where the inner `while` has been passed and `count` not yet updated.
abbrev pub passed : Pc → ℕ
passed access = 1
passed adjust = 1
passed _ = 0

abbrev pub LoopOk : Pc → ℕ → Type 0
LoopOk exited n = n ≡ rounds
LoopOk q n = n + inside q ≤ rounds

abbrev pub OwnerOk : Owner → Pc → Pc → Type 0
OwnerOk free p c = (critical p ≡ false) × (critical c ≡ false)
OwnerOk by_producer p c = (critical p ≡ true) × (critical c ≡ false)
OwnerOk by_consumer p c = (critical p ≡ false) × (critical c ≡ true)

-- A thread waits only while its condition fails, or while the other is about to signal.
abbrev pub FullOk : Pc → Pc → ℕ → Type 0
FullOk waiting signal n = Unit
FullOk waiting _ n = n ≡ max_size
FullOk _ _ n = Unit

abbrev pub EmptyOk : Pc → Pc → ℕ → Type 0
EmptyOk waiting signal n = Unit
EmptyOk waiting _ n = n ≡ 0
EmptyOk _ _ n = Unit

-- Every byte below `n` has been written by the producer.
abbrev pub Filled : (ℕ → ℕ) → ℕ → Type 0
Filled buf n = (k : ℕ) → k < n → buf k ≡ b'p'

-- With the byte that the producer has stored and not yet counted.
abbrev pub filled_to : Pc → ℕ → ℕ
filled_to adjust n = n + 1
filled_to _ n = n

pub record Core (s : State) : Type 0 where
  pub owner : OwnerOk s.lock s.p s.c
  pub balance : s.count + (s.j + moved s.c) ≡ s.i + moved s.p
  pub bound : s.count + passed s.p ≤ max_size
  pub stock : passed s.c ≤ s.count
  pub loop_p : LoopOk s.p s.i
  pub loop_c : LoopOk s.c s.j
  pub full : FullOk s.p s.c s.count
  pub empty : EmptyOk s.c s.p s.count
  pub amount : length s.out ≡ s.j + accessed s.c

pub record Inv (s : State) : Type 0 where
  pub core : Core s
  pub open core use *
  pub filled : Filled s.buf (filled_to s.p s.count)
  pub printed : All (λ ch. ch ≡ b'p') s.out

produce_at-Core : (q : Pc) {s t : State} → s.p ≡ q → Core s → produce_at q s ≡ some t → Core t
unfolding produce_at
produce_at-Core start e v h = ground arith
produce_at-Core _ e v h = ground arith

consume_at-Core : (q : Pc) {s t : State} → s.c ≡ q → Core s → consume_at q s ≡ some t → Core t
unfolding consume_at
consume_at-Core start e v h = ground arith
consume_at-Core _ e v h = ground arith

produce_at-Filled :
    (q : Pc) {s t : State}
    → s.p ≡ q
    → Inv s
    → produce_at q s ≡ some t
    → Filled t.buf (filled_to t.p t.count)
unfolding produce_at
produce_at-Filled start e v h k lt = ground (arith, v.filled k)
produce_at-Filled _ e v h k lt = ground (arith, v.filled k)

consume_at-Filled :
    (q : Pc) {s t : State}
    → s.c ≡ q
    → Inv s
    → consume_at q s ≡ some t
    → Filled t.buf (filled_to t.p t.count)
unfolding consume_at
consume_at-Filled start e v h k lt = ground (arith, v.filled k)
consume_at-Filled _ e v h k lt = ground (arith, v.filled k)

produce_at-printed :
    (q : Pc) {s t : State} → Inv s → produce_at q s ≡ some t → All (λ ch. ch ≡ b'p') t.out
unfolding produce_at
produce_at-printed start {s} {t} v h = let e : t.out ≡ s.out = ground arith in rw e v.printed
produce_at-printed _ {s} {t} v h = let e : t.out ≡ s.out = ground arith in rw e v.printed

consume_at-printed :
    (q : Pc) {s t : State} → s.c ≡ q → Inv s → consume_at q s ≡ some t → All (λ ch. ch ≡ b'p') t.out
unfolding consume_at
consume_at-printed start {s} e v h = ground (arith, v.filled (s.count - 1))
consume_at-printed _ {s} e v h = ground (arith, v.filled (s.count - 1))

-- A step of either thread keeps the invariant.
pub Step-Inv : {s t : State} → Step s t → Inv s → Inv t
unfolding produce consume
Step-Inv {s} {t} (by_p h) v = record {
  core = produce_at-Core s.p refl v.core h;
  filled = produce_at-Filled s.p refl v h;
  printed = produce_at-printed s.p v h;
}
Step-Inv {s} {t} (by_c h) v = record {
  core = consume_at-Core s.c refl v.core h;
  filled = consume_at-Filled s.c refl v h;
  printed = consume_at-printed s.c refl v h;
}

Spurious-Inv : {s t : State} → Spurious s t → Inv s → Inv t
Spurious-Inv {s} (of_p h e) v = rw e (record {
  core = ground arith;
  filled = λ k lt. ground (arith, v.filled k);
  printed = v.printed;
})
Spurious-Inv {s} (of_c h e) v =
    rw e (record { core = ground arith; filled = v.filled; printed = v.printed })

pub Reach-Inv : {buf : ℕ → ℕ} {n m : ℕ} {s : State} → Reach buf n m s → Inv s
Reach-Inv begin = record {
  core = ground arith;
  filled = λ k lt. absurd (omega arith);
  printed = tt;
}
Reach-Inv (later r st) = Step-Inv st (Reach-Inv r)
Reach-Inv (stray r st) = Spurious-Inv st (Reach-Inv r)
