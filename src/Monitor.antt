-- ===== src/Monitor.antt =====
-- test_pthreads/condition_variable_mutex_lock_unlock.c: a producer and a consumer share a buffer of
-- MAX_SIZE bytes under one mutex and two condition variables. Each thread is a function from the
-- state to its next state, `none` where the thread is blocked; the threads interleave freely.
pub mod Invariant
pub mod Safety
pub mod Progress
pub mod Ending
pub mod Refines
mod Tests
use aup_assignments.Prelude.{
  ℕ, suc, ◌+◌, ◌-◌, ◌≡◌, Bool, true, false, Option, none, some, List, [], ◌∷◌, ◌++◌, ltb, ◌==◌,
  if◌then◌else◌,
}

abbrev pub max_size : ℕ
max_size = 5

-- The bound of both `for` loops.
abbrev pub rounds : ℕ
rounds = 9

-- Where a thread stands in its loop body: `start` is the test of the `for`, `wanting` the call of
-- pthread_mutex_lock, `testing` the test of the inner `while`, `waiting` inside pthread_cond_wait
-- before it is woken, `woken` after that and before it has the mutex back, `access` the access to
-- `buf`, `adjust` the update of `count`, `signal` the call of pthread_cond_signal, `unlock` that of
-- pthread_mutex_unlock, `exited` after pthread_exit.
pub data Pc : Type 0 where
  start wanting testing waiting woken access adjust signal unlock exited : Pc

pub data Owner : Type 0 where
  free by_producer by_consumer : Owner

-- The shared variables, the mutex, and each thread's position and loop variable `i`. `out` lists
-- the characters that the consumer has printed, the last one first.
pub record State : Type 0 where
  pub count : ℕ
  pub buf : ℕ → ℕ
  pub lock : Owner
  pub p : Pc
  pub i : ℕ
  pub c : Pc
  pub j : ℕ
  pub out : List ℕ

abbrev pub is_free : Owner → Bool
is_free free = true
is_free _ = false

-- The effect of pthread_cond_signal on the one thread that can wait for the condition.
abbrev pub wake : Pc → Pc
wake waiting = woken
wake q = q

abbrev pub store : (ℕ → ℕ) → ℕ → ℕ → ℕ → ℕ
store buf k v n = if n == k then v else buf n

-- One step of `producer`, at its position.
pub produce_at : Pc → State → Option State
produce_at start s = some (record s { p = if ltb s.i rounds then wanting else exited })
produce_at wanting s =
    if is_free s.lock then some (record s { p = testing; lock = by_producer }) else none
produce_at testing s =
    some (
      if s.count == max_size
      then record s { p = waiting; lock = free }
      else record s { p = access })
produce_at waiting s = none
produce_at woken s =
    if is_free s.lock then some (record s { p = testing; lock = by_producer }) else none
produce_at access s = some (record s { p = adjust; buf = store s.buf s.count b'p' })
produce_at adjust s = some (record s { p = signal; count = s.count + 1 })
produce_at signal s = some (record s { p = unlock; c = wake s.c })
produce_at unlock s = some (record s { p = start; lock = free; i = s.i + 1 })
produce_at exited s = none

pub produce : State → Option State
unfolding produce_at
produce s = produce_at s.p s

-- One step of `consumer`, at its position.
pub consume_at : Pc → State → Option State
consume_at start s = some (record s { c = if ltb s.j rounds then wanting else exited })
consume_at wanting s =
    if is_free s.lock then some (record s { c = testing; lock = by_consumer }) else none
consume_at testing s =
    some (if s.count == 0 then record s { c = waiting; lock = free } else record s { c = access })
consume_at waiting s = none
consume_at woken s =
    if is_free s.lock then some (record s { c = testing; lock = by_consumer }) else none
consume_at access s = some (record s { c = adjust; out = s.buf (s.count - 1) ∷ s.out })
consume_at adjust s = some (record s { c = signal; count = s.count - 1 })
consume_at signal s = some (record s { c = unlock; p = wake s.p })
consume_at unlock s = some (record s { c = start; lock = free; j = s.j + 1 })
consume_at exited s = none

pub consume : State → Option State
unfolding consume_at
consume s = consume_at s.c s

-- `main` sets `count` and creates the threads; the buffer is not initialised.
abbrev pub init : (ℕ → ℕ) → State
init buf = record {
  count = 0;
  buf = buf;
  lock = free;
  p = start;
  i = 0;
  c = start;
  j = 0;
  out = [];
}

-- A step of a thread.
pub data Step (s t : State) : Type 0 where
  by_p : produce s ≡ some t → Step s t
  by_c : consume s ≡ some t → Step s t

-- pthread_cond_wait may also return with no signal.
pub data Spurious (s t : State) : Type 0 where
  of_p : s.p ≡ waiting → t ≡ record s { p = woken } → Spurious s t
  of_c : s.c ≡ waiting → t ≡ record s { c = woken } → Spurious s t

-- The states that the program can come to, after `n` steps of the threads in any order and `m`
-- spurious wake-ups.
pub data Reach (buf : ℕ → ℕ) : ℕ → ℕ → State → Type 0 where
  begin : Reach buf 0 0 (init buf)
  later : {n m : ℕ} {s t : State} → Reach buf n m s → Step s t → Reach buf (suc n) m t
  stray : {n m : ℕ} {s t : State} → Reach buf n m s → Spurious s t → Reach buf n (suc m) t
