-- ===== src/Spin.antt =====
-- test_pthreads/mutex_lock_unlock.c: a producer and a consumer that wait for room, or for a byte, in
-- a busy loop outside the mutex. Each thread is a function from the state to its next state; `none`
-- is a thread that waits for the mutex, or whose busy loop goes round once more and changes nothing.
-- The threads interleave freely, one access to a shared variable at a time.
pub mod Invariant
pub mod Results
pub mod Refines
mod Tests
use aup_assignments.Prelude.{
  ℕ, suc, ◌+◌, ◌-◌, ◌≡◌, Bool, true, false, Option, none, some, List, [], ◌∷◌, ltb, ◌==◌,
  if◌then◌else◌,
}

abbrev pub max_size : ℕ
max_size = 5

abbrev pub rounds : ℕ
rounds = 9

-- Where a thread stands in its loop body: `start` is the test of the `for`, `spinning` the busy loop
-- on `count`, `wanting` the call of pthread_mutex_lock, `access` the access to `buf`, `adjust` the
-- update of `count`, `unlock` the call of pthread_mutex_unlock, `exited` after pthread_exit.
pub data Pc : Type 0 where
  start spinning wanting access adjust unlock exited : Pc

pub data Owner : Type 0 where
  free by_producer by_consumer : Owner

-- The shared variables, the mutex, each thread's position and loop variable `i`, and the characters
-- printed by the consumer, the last one first.
pub record State : Type 0 where
  pub count : ℕ
  pub buf : ℕ → ℕ
  pub lock : Owner
  pub p : Pc
  pub i : ℕ
  pub c : Pc
  pub j : ℕ
  pub out : List ℕ

abbrev pub is_free : Owner → Bool
is_free free = true
is_free _ = false

abbrev pub store : (ℕ → ℕ) → ℕ → ℕ → ℕ → ℕ
store buf k v n = if n == k then v else buf n

-- One step of `producer`, at its position.
pub produce_at : Pc → State → Option State
produce_at start s = some (record s { p = if ltb s.i rounds then spinning else exited })
produce_at spinning s = if s.count == max_size then none else some (record s { p = wanting })
produce_at wanting s =
    if is_free s.lock then some (record s { p = access; lock = by_producer }) else none
produce_at access s = some (record s { p = adjust; buf = store s.buf s.count b'p' })
produce_at adjust s = some (record s { p = unlock; count = s.count + 1 })
produce_at unlock s = some (record s { p = start; lock = free; i = s.i + 1 })
produce_at exited s = none

pub produce : State → Option State
unfolding produce_at
produce s = produce_at s.p s

-- One step of `consumer`, at its position.
pub consume_at : Pc → State → Option State
consume_at start s = some (record s { c = if ltb s.j rounds then spinning else exited })
consume_at spinning s = if s.count == 0 then none else some (record s { c = wanting })
consume_at wanting s =
    if is_free s.lock then some (record s { c = access; lock = by_consumer }) else none
consume_at access s = some (record s { c = adjust; out = s.buf (s.count - 1) ∷ s.out })
consume_at adjust s = some (record s { c = unlock; count = s.count - 1 })
consume_at unlock s = some (record s { c = start; lock = free; j = s.j + 1 })
consume_at exited s = none

pub consume : State → Option State
unfolding consume_at
consume s = consume_at s.c s

-- `main` sets `count`, creates one producer and runs the consumer itself.
abbrev pub init : (ℕ → ℕ) → State
init buf = record {
  count = 0;
  buf = buf;
  lock = free;
  p = start;
  i = 0;
  c = start;
  j = 0;
  out = [];
}

pub data Step (s t : State) : Type 0 where
  by_p : produce s ≡ some t → Step s t
  by_c : consume s ≡ some t → Step s t

-- The states after `n` steps, in any order of the threads.
pub data Reach (buf : ℕ → ℕ) : ℕ → State → Type 0 where
  begin : Reach buf 0 (init buf)
  later : {n : ℕ} {s t : State} → Reach buf n s → Step s t → Reach buf (suc n) t
