-- ===== src/Spin/Invariant.antt =====
-- The invariant of the busy-waiting buffer. A test made outside the mutex stays true until the
-- thread has used it, since only the other thread moves `count`, and moves it the other way.
use aup_assignments.Prelude.{
  ℕ, ◌+◌, ◌-◌, ◌≤◌, ◌<◌, ◌≡◌, refl, Bool, true, false, some, arith, length, All,
}
use aup_assignments.Spin.{
  Pc, start, wanting, access, adjust, unlock, exited, Owner, free, by_producer, by_consumer, State,
  max_size, rounds, produce_at, produce, consume_at, consume, Step, by_p, by_c, Reach, begin, later,
}

-- Between pthread_mutex_lock and pthread_mutex_unlock.
abbrev pub critical : Pc → Bool
critical access = true
critical adjust = true
critical unlock = true
critical _ = false

-- 1 where the update of `count` of the current round is done.
abbrev pub moved : Pc → ℕ
moved unlock = 1
moved _ = 0

-- 1 where the access to the buffer of the current round is done.
abbrev pub accessed : Pc → ℕ
accessed adjust = 1
accessed unlock = 1
accessed _ = 0

abbrev pub LoopOk : Pc → ℕ → Type 0
LoopOk start n = n ≤ rounds
LoopOk exited n = n ≡ rounds
LoopOk _ n = n < rounds

-- 1 where the busy loop has been left and `count` not yet updated.
abbrev pub passed : Pc → ℕ
passed wanting = 1
passed access = 1
passed adjust = 1
passed _ = 0

abbrev pub OwnerOk : Owner → Pc → Pc → Type 0
OwnerOk free p c = (critical p ≡ false) × (critical c ≡ false)
OwnerOk by_producer p c = (critical p ≡ true) × (critical c ≡ false)
OwnerOk by_consumer p c = (critical p ≡ false) × (critical c ≡ true)

abbrev pub Filled : (ℕ → ℕ) → ℕ → Type 0
Filled buf n = (k : ℕ) → k < n → buf k ≡ b'p'

abbrev pub filled_to : Pc → ℕ → ℕ
filled_to adjust n = n + 1
filled_to _ n = n

pub record Core (s : State) : Type 0 where
  pub owner : OwnerOk s.lock s.p s.c
  pub balance : s.count + (s.j + moved s.c) ≡ s.i + moved s.p
  pub bound : s.count + passed s.p ≤ max_size
  pub stock : passed s.c ≤ s.count
  pub loop_p : LoopOk s.p s.i
  pub loop_c : LoopOk s.c s.j
  pub amount : length s.out ≡ s.j + accessed s.c

pub record Inv (s : State) : Type 0 where
  pub core : Core s
  pub open core use *
  pub filled : Filled s.buf (filled_to s.p s.count)
  pub printed : All (λ ch. ch ≡ b'p') s.out

produce_at-Core : (q : Pc) {s t : State} → s.p ≡ q → Core s → produce_at q s ≡ some t → Core t
unfolding produce_at
produce_at-Core start e v h = ground arith
produce_at-Core _ e v h = ground arith

consume_at-Core : (q : Pc) {s t : State} → s.c ≡ q → Core s → consume_at q s ≡ some t → Core t
unfolding consume_at
consume_at-Core start e v h = ground arith
consume_at-Core _ e v h = ground arith

module _ {s t : State} (v : Inv s) where
  produce_at-Filled :
      (q : Pc) → s.p ≡ q → produce_at q s ≡ some t → Filled t.buf (filled_to t.p t.count)
  unfolding produce_at
  produce_at-Filled start e h k lt = ground (arith, v.filled k)
  produce_at-Filled _ e h k lt = ground (arith, v.filled k)

  consume_at-Filled :
      (q : Pc) → s.c ≡ q → consume_at q s ≡ some t → Filled t.buf (filled_to t.p t.count)
  unfolding consume_at
  consume_at-Filled start e h k lt = ground (arith, v.filled k)
  consume_at-Filled _ e h k lt = ground (arith, v.filled k)

  consume_at-printed : (q : Pc) → s.c ≡ q → consume_at q s ≡ some t → All (λ ch. ch ≡ b'p') t.out
  unfolding consume_at
  consume_at-printed start e h = ground (arith, v.filled (s.count - 1))
  consume_at-printed _ e h = ground (arith, v.filled (s.count - 1))

out-produce_at : (q : Pc) (s t : State) → produce_at q s ≡ some t → t.out ≡ s.out
unfolding produce_at
out-produce_at start s t h = ground arith
out-produce_at _ s t h = ground arith

pub Step-Inv : {s t : State} → Step s t → Inv s → Inv t
unfolding produce consume
Step-Inv {s} {t} (by_p h) v = record {
  core = produce_at-Core s.p refl v.core h;
  filled = produce_at-Filled v s.p refl h;
  printed = rw (out-produce_at s.p s t h) v.printed;
}
Step-Inv {s} (by_c h) v = record {
  core = consume_at-Core s.c refl v.core h;
  filled = consume_at-Filled v s.c refl h;
  printed = consume_at-printed v s.c refl h;
}

pub Reach-Inv : {buf : ℕ → ℕ} {n : ℕ} {s : State} → Reach buf n s → Inv s
Reach-Inv begin = record {
  core = ground arith;
  filled = λ k lt. absurd (omega arith);
  printed = tt;
}
Reach-Inv (later r st) = Step-Inv st (Reach-Inv r)
