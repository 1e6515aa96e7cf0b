-- ===== src/Counter.antt =====
-- test_pthreads/condition_variable.c: two threads add to `count` under `count_mutex`; the first one
-- pauses on a condition variable, under `condition_mutex`, while `count` is between COUNT_HALT1 and
-- COUNT_HALT2. Each thread is a function from the state to its next state, `none` where it is
-- blocked; the threads interleave freely.
pub mod Invariant
pub mod Results
mod Tests
use aup_assignments.Prelude.{
  ℕ, suc, ◌+◌, ◌≡◌, Bool, true, false, Option, none, some, List, [], ◌∷◌, ltb, leb, ◌&&◌, ◌||◌,
  if◌then◌else◌,
}

abbrev pub count_done : ℕ
count_done = 10

abbrev pub count_halt1 : ℕ
count_halt1 = 3

abbrev pub count_halt2 : ℕ
count_halt2 = 6

-- Where a thread stands in its endless loop: `locking` and `unlocking` are the calls on
-- `condition_mutex`, `testing` the test of `count` under it, `waiting` and `woken` the two parts of
-- pthread_cond_wait, `signalling` pthread_cond_signal, `wanting` and `releasing` the calls on
-- `count_mutex`, `adding` the increment, `printing` the printf, `checking` the test of COUNT_DONE,
-- `returned` after the return.
pub data Pc : Type 0 where
  locking testing waiting woken signalling unlocking wanting adding printing releasing checking
        returned :
      Pc

pub data Owner : Type 0 where
  free first second : Owner

-- `out` lists the values printed, the last one first.
pub record State : Type 0 where
  pub count : ℕ
  pub condition_mutex : Owner
  pub count_mutex : Owner
  pub one : Pc
  pub two : Pc
  pub out : List ℕ

abbrev pub is_free : Owner → Bool
is_free free = true
is_free _ = false

abbrev pub wake : Pc → Pc
wake waiting = woken
wake q = q

-- One step of `functionCount1`, at its position.
pub count1_at : Pc → State → Option State
count1_at locking s =
    if is_free s.condition_mutex
    then some (record s { one = testing; condition_mutex = first })
    else none
count1_at testing s = some (
    if leb count_halt1 s.count && leb s.count count_halt2
    then record s { one = waiting; condition_mutex = free }
    else record s { one = unlocking })
count1_at waiting s = none
count1_at woken s =
    if is_free s.condition_mutex
    then some (record s { one = testing; condition_mutex = first })
    else none
count1_at signalling s = none
count1_at unlocking s = some (record s { one = wanting; condition_mutex = free })
count1_at wanting s =
    if is_free s.count_mutex then some (record s { one = adding; count_mutex = first }) else none
count1_at adding s = some (record s { one = printing; count = s.count + 1 })
count1_at printing s = some (record s { one = releasing; out = s.count ∷ s.out })
count1_at releasing s = some (record s { one = checking; count_mutex = free })
count1_at checking s =
    some (record s { one = if leb count_done s.count then returned else locking })
count1_at returned s = none

pub count1 : State → Option State
unfolding count1_at
count1 s = count1_at s.one s

-- One step of `functionCount2`, at its position.
pub count2_at : Pc → State → Option State
count2_at locking s =
    if is_free s.condition_mutex
    then some (record s { two = testing; condition_mutex = second })
    else none
count2_at testing s = some (record s {
  two = if ltb s.count count_halt1 || ltb count_halt2 s.count then signalling else unlocking;
})
count2_at waiting s = none
count2_at woken s = none
count2_at signalling s = some (record s { two = unlocking; one = wake s.one })
count2_at unlocking s = some (record s { two = wanting; condition_mutex = free })
count2_at wanting s =
    if is_free s.count_mutex then some (record s { two = adding; count_mutex = second }) else none
count2_at adding s = some (record s { two = printing; count = s.count + 1 })
count2_at printing s = some (record s { two = releasing; out = s.count ∷ s.out })
count2_at releasing s = some (record s { two = checking; count_mutex = free })
count2_at checking s =
    some (record s { two = if leb count_done s.count then returned else locking })
count2_at returned s = none

pub count2 : State → Option State
unfolding count2_at
count2 s = count2_at s.two s

abbrev pub init : State
init = record {
  count = 0;
  condition_mutex = free;
  count_mutex = free;
  one = locking;
  two = locking;
  out = [];
}

pub data Step (s t : State) : Type 0 where
  by_one : count1 s ≡ some t → Step s t
  by_two : count2 s ≡ some t → Step s t

-- The states after `n` steps in any order and `m` spurious wake-ups of the first thread.
pub data Reach : ℕ → ℕ → State → Type 0 where
  begin : Reach 0 0 init
  later : {n m : ℕ} {s t : State} → Reach n m s → Step s t → Reach (suc n) m t
  stray :
      {n m : ℕ} {s t : State}
      → Reach n m s
      → s.one ≡ waiting
      → t ≡ record s { one = woken }
      → Reach n (suc m) t
