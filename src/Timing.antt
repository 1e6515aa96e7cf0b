-- ===== src/Timing.antt =====
-- assignment_6/execution_time.c: ten rounds that take the time of getpid and of fork.
pub mod Clock
pub mod Rounds
pub mod Results
mod Tests
use aup_assignments.Prelude.{
  ℕ, zero, suc, ◌+◌, ◌%◌, Bool, Option, none, some, List, [], ◌∷◌, ◌++◌, first_or, rest_of,
}
use aup_assignments.Prelude.Int.{ℤ, pos, minus, ◌+ℤ◌}
use aup_assignments.Unix.Proc.{Exec, done, exited, pure, exit, ◌>>=◌, ◌>>◌}
use aup_assignments.Unix.Stdio.{left, written}

-- The lines printed: the number of a round and a difference of microseconds; and the averages, each
-- a sum and what it is divided by, for the float that is nearest to the quotient.
pub data Line : Type 0 where
  title : Line
  getpid_took fork_took : ℕ → ℤ → Line
  getpid_avg fork_avg : ℤ → ℕ → Line

-- `clock` is the time in microseconds; each call takes the first of `ticks`, and no time if there is
-- none; gettimeofday or fork fails with the first of `faults` if that is an `errno`. `children` holds
-- what stands in the buffer of each child, which the child writes at its exit. The sums are floats,
-- exact at the sizes that occur here.
pub record State : Type 0 where
  pub clock : ℕ
  pub ticks : List ℕ
  pub faults : List (Option ℕ)
  pub getpid_t : ℤ
  pub fork_t : ℤ
  pub buf : List Line
  pub out : List Line
  pub children : List (List Line)

abbrev pub Proc : Type 0 → Type 0
Proc A = State → Exec A × State

-- The microseconds in a second.
abbrev pub second : ℕ
second = 1000000

abbrev pub enter : State → State
enter s = record s { clock = s.clock + first_or 0 s.ticks; ticks = rest_of s.ticks }

abbrev pub outcome : Option ℕ → Proc (Unit {0}) → Proc (Unit {0})
outcome none m s = m s
outcome (some errno) m s = (exited errno, s)

-- A call, and the return of `errno` if it fails.
abbrev pub call : Proc (Unit {0}) → Proc (Unit {0})
call m s = outcome (first_or none s.faults) m (record (enter s) { faults = rest_of s.faults })

abbrev tv_usec : Proc ℕ
tv_usec s = (done (s.clock % second), s)

-- The microseconds within the second, tv_usec.
abbrev pub gettimeofday : Proc ℕ
gettimeofday = do call (pure tt); tv_usec

abbrev pub getpid : Proc (Unit {0})
getpid s = (done tt, enter s)

-- The child does nothing but exit.
abbrev pub fork : Proc (Unit {0})
fork = call (λ s. (done tt, record s { children = s.children ++ s.buf ∷ [] }))

abbrev pub print : Bool → Line → Proc (Unit {0})
print now l s = (done tt, record s { buf = left now s.buf l; out = written now s.buf l s.out })

abbrev pub add_getpid : ℤ → Proc (Unit {0})
add_getpid z s = (done tt, record s { getpid_t = s.getpid_t +ℤ z })

abbrev pub add_fork : ℤ → Proc (Unit {0})
add_fork z s = (done tt, record s { fork_t = s.fork_t +ℤ z })

abbrev pub round : Bool → ℕ → Proc (Unit {0})
round now i = do
  initial_t ← gettimeofday
  getpid
  t ← gettimeofday
  print now (getpid_took (suc i) (minus t initial_t))
  add_getpid (minus t initial_t)
  initial_t2 ← gettimeofday
  fork
  t2 ← gettimeofday
  print now (fork_took (suc i) (minus t2 initial_t2))
  add_fork (minus t2 initial_t2)

-- The rounds from `i` on.
pub rounds : Bool → ℕ → ℕ → Proc (Unit {0})
rounds now i zero = pure tt
rounds now i (suc n) = do round now i; rounds now (suc i) n

abbrev pub averages : Bool → Proc (Unit {0})
averages now s = (do print now (getpid_avg s.getpid_t 10); print now (fork_avg s.fork_t 10)) s

abbrev pub ending : Bool → Proc (Unit {0})
ending now = do averages now; exit 0

-- The buffer is written out at the end, also after a failing call.
abbrev pub flushed : Exec (Unit {0}) × State → Exec (Unit {0}) × State
flushed (r, s) = (r, record s { buf = []; out = s.out ++ s.buf })

-- main with a number of rounds.
pub program : Bool → ℕ → Proc (Unit {0})
program now n s = flushed ((do print now title; rounds now 0 n; ending now) s)

pub main : Bool → Proc (Unit {0})
main now = program now 10
