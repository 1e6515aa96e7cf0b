-- ===== src/Monitor/Refines.antt =====
-- The program with condition variables implements the bounded buffer.
use aup_assignments.Prelude.{List, [], ◌∷◌, Option, none, ℕ, ◌-◌, ◌≡◌, refl, some, arith}
use aup_assignments.Bounded.{
  Buffer, Op, push, pop, held, does, does-none, does-push, does-pop, runs, runs-next, runs-start,
}
use aup_assignments.Monitor.{
  Pc, start, access, adjust, State, max_size, produce_at, produce, consume_at, consume, Step, by_p,
  by_c, Spurious, of_p, of_c, Reach, begin, later, stray,
}
use aup_assignments.Monitor.Invariant.{Inv, Reach-Inv}

-- The character that the consumer has printed and not yet counted.
abbrev taken : Pc → ℕ
taken adjust = 1
taken _ = 0

abbrev pub size : State → ℕ
size s = s.count - taken s.c

abbrev pub contents : State → Buffer
contents s = held s.buf (size s) s.out

-- What a step does to the buffer: the producer puts the character 'p' on it where it counts it, the
-- consumer takes one where it prints it, and all else leaves it alone.
abbrev pub producer_op : Pc → Option Op
producer_op adjust = some (push b'p')
producer_op _ = none

abbrev pub consumer_op : Pc → Option Op
consumer_op access = some pop
consumer_op _ = none

abbrev pub op_of : {s t : State} → Step s t → Option Op
op_of {s} (by_p h) = producer_op s.p
op_of {s} (by_c h) = consumer_op s.c

-- The operations of an execution, the last one first.
pub trace : {buf : ℕ → ℕ} {n m : ℕ} {s : State} → Reach buf n m s → List (Option Op)
trace begin = []
trace (later r st) = op_of st ∷ trace r
trace (stray r st) = none ∷ trace r

produce_at-does :
    (q : Pc) (s t : State)
    → s.p ≡ q
    → Inv s
    → produce_at q s ≡ some t
    → does max_size (producer_op q) (contents s) ≡ some (contents t)
unfolding produce_at
produce_at-does adjust s t e v h =
    does-push max_size b'p' (ground (arith, v.core)) (ground (arith, v.core, v.filled (size s)))
      (λ k. ground arith) (ground (arith, v.core)) (ground arith)
produce_at-does access s t e v h =
    does-none max_size (λ k lt. ground (arith, v.core)) (ground (arith, v.core)) (ground arith)
produce_at-does start s t e v h =
    does-none max_size (λ k lt. ground arith) (ground arith) (ground arith)
produce_at-does _ s t e v h =
    does-none max_size (λ k lt. ground arith) (ground arith) (ground arith)

consume_at-does :
    (q : Pc) (s t : State)
    → s.c ≡ q
    → Inv s
    → consume_at q s ≡ some t
    → does max_size (consumer_op q) (contents s) ≡ some (contents t)
unfolding consume_at
consume_at-does access s t e v h =
    does-pop max_size (λ k. ground arith) (ground (arith, v.core)) (ground (arith, v.core))
consume_at-does start s t e v h =
    does-none max_size (λ k lt. ground arith) (ground arith) (ground arith)
consume_at-does _ s t e v h =
    does-none max_size (λ k lt. ground arith) (ground arith) (ground arith)

Step-does :
    {s t : State} (st : Step s t)
    → Inv s
    → does max_size (op_of st) (contents s) ≡ some (contents t)
unfolding produce consume
Step-does {s} {t} (by_p h) v = produce_at-does s.p s t refl v h
Step-does {s} {t} (by_c h) v = consume_at-does s.c s t refl v h

Spurious-does : {s t : State} → Spurious s t → does max_size none (contents s) ≡ some (contents t)
Spurious-does (of_p h e) = does-none max_size (λ k lt. ground arith) (ground arith) (ground arith)
Spurious-does (of_c h e) = does-none max_size (λ k lt. ground arith) (ground arith) (ground arith)

-- The operations that an execution consists of, run on an empty bounded stack of MAX_SIZE characters,
-- one for each step at which the producer counts its character and one for each at which the consumer
-- prints, never find the stack full at a push or empty at a pop, and give the characters in the array
-- below `count`, without one that has been printed already, and those that have been printed, the last
-- one first: each character printed is the one pushed last of those not yet printed.
pub monitor_refines :
    {buf : ℕ → ℕ} {n m : ℕ} {s : State} (r : Reach buf n m s)
    → runs max_size (trace r) ≡ some (contents s)
unfolding trace
monitor_refines begin = runs-start max_size
monitor_refines (later r st) =
    runs-next max_size (op_of st) (trace r) (monitor_refines r) (Step-does st (Reach-Inv r))
monitor_refines (stray r st) =
    runs-next max_size none (trace r) (monitor_refines r) (Spurious-does st)
