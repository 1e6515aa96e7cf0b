-- ===== src/Monitor/Safety.antt =====
-- What holds in every reachable state of the bounded buffer.
use aup_assignments.Prelude.{ℕ, ◌-◌, ◌≤◌, ◌<◌, ◌≡◌, true, arith}
use aup_assignments.Monitor.{access, State, max_size, Reach}
use aup_assignments.Monitor.Invariant.{critical, Reach-Inv}

-- In no reachable state are both threads between pthread_mutex_lock and pthread_mutex_unlock.
mutual_exclusion :
    {buf : ℕ → ℕ} {n m : ℕ} {s : State}
    → Reach buf n m s
    → ¬ ((critical s.p ≡ true) × (critical s.c ≡ true))
mutual_exclusion {s} r h = ground (arith, (Reach-Inv r).owner)

-- In every reachable state `count` is at most MAX_SIZE, the producer stores at an index below
-- MAX_SIZE, and the consumer reads at an index below MAX_SIZE with `count` above 0.
pub access_in_bounds :
    {buf : ℕ → ℕ} {n m : ℕ} {s : State}
    → Reach buf n m s
    → (s.count ≤ max_size)
      × (s.p ≡ access → s.count < max_size)
      × (s.c ≡ access → (0 < s.count) × (s.count - 1 < max_size))
access_in_bounds {s} r = ground (arith, (Reach-Inv r).core)
