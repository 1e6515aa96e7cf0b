-- ===== src/Pending.antt =====
-- assignment_8/child_pending_signals_and_mask.c: two signals blocked, sent, and one of them
-- unblocked; then a child that looks at what it inherits.
pub mod Results
mod Tests
use aup_assignments.Prelude.{ℕ, ◌+◌, Bool, true, false, List, [], ◌∷◌, ◌&&◌, not, if◌then◌else◌}
use aup_assignments.Unix.Proc.{Exec, done, exited, pure, when, ◌>>=◌, ◌>>◌}

-- SIGUSR1 and SIGUSR2, the only signals that the program uses.
pub data Signal : Type 0 where
  usr1 usr2 : Signal

-- A `sigset_t`, as far as those two go.
pub record SigSet : Type 0 where
  pub one : Bool
  pub two : Bool

abbrev pub member : SigSet → Signal → Bool
member m usr1 = m.one
member m usr2 = m.two

abbrev pub with : SigSet → Signal → Bool → SigSet
with m usr1 b = record m { one = b }
with m usr2 b = record m { two = b }

abbrev pub empty : SigSet
empty = record { one = false; two = false }

-- After sigemptyset and both calls of sigaddset.
abbrev pub both : SigSet
both = record { one = true; two = true }

pub data Who : Type 0 where
  parent child : Who

-- The lines that the program prints.
pub data Line : Type 0 where
  before_kill after_kill after_delset : Line
  blocked not_blocked pending not_pending : Who → Signal → Line
  received : Signal → Line

-- What the environment does to the next call.
pub data Fault : Type 0 where
  clear : Fault
  fail : ℕ → Fault

-- A process: its signal mask, its pending signals, the signals that it has a handler for, the lines
-- that it has printed, the last one first, the faults to come, and `errno`. No other process sends
-- it a signal.
pub record State : Type 0 where
  pub mask : SigSet
  pub waiting : SigSet
  pub caught : SigSet
  pub log : List Line
  pub faults : List Fault
  pub errno : ℕ

abbrev pub Proc : Type 0 → Type 0
Proc A = State → Exec A × State

abbrev pub next_fault : List Fault → Fault
next_fault [] = clear
next_fault (f ∷ fs) = f

abbrev pub later_faults : List Fault → List Fault
later_faults [] = []
later_faults (f ∷ fs) = fs

abbrev pub signo : Signal → ℕ
signo usr1 = 10
signo usr2 = 12

abbrev pub print : Line → Proc (Unit {0})
print l s = (done tt, record s { log = l ∷ s.log })

-- A pending signal that is not blocked is delivered: its handler prints a line, or, if there is
-- none, the process ends, with the status that a shell reports.
abbrev pub deliver : Signal → Proc (Unit {0})
deliver g s =
    if not (member s.mask g) && member s.waiting g
    then if member s.caught g
      then (done tt, record s { waiting = with s.waiting g false; log = received g ∷ s.log })
      else (exited (128 + signo g), s)
    else (done tt, s)

-- A call that may fail: `false` is the result -1.
abbrev guarded : Fault → Proc (Unit {0}) → Proc Bool
guarded clear m s = (m >>= λ _. pure true) s
guarded (fail e) m s = (done false, record s { errno = e })

pub call : Proc (Unit {0}) → Proc Bool
call m s = guarded (next_fault s.faults) m (record s { faults = later_faults s.faults })

-- A call whose effect is on the caller's variables alone.
abbrev pub local : Proc Bool
local = call (pure tt)

abbrev pub set_mask : SigSet → Proc (Unit {0})
set_mask m s = (done tt, record s { mask = m })

abbrev pub sigprocmask : SigSet → Proc Bool
sigprocmask m = call (do set_mask m; deliver usr1; deliver usr2)

abbrev pub catch : Signal → Proc (Unit {0})
catch g s = (done tt, record s { caught = with s.caught g true })

abbrev pub signal : Signal → Proc Bool
signal g = call (catch g)

abbrev pub send : Signal → Proc (Unit {0})
send g s = (done tt, record s { waiting = with s.waiting g true })

-- kill(getpid(), g): a signal that is not blocked is delivered before the call returns.
abbrev pub kill : Signal → Proc Bool
kill g = call (do send g; deliver g)

abbrev pub get_pending : Proc SigSet
get_pending s = (done s.waiting, s)

abbrev pub return_errno : Proc (Unit {0})
return_errno s = (exited s.errno, s)

-- `if (call == -1) return errno;`
abbrev pub need : Proc Bool → Proc (Unit {0})
need m = do ok ← m; when (not ok) return_errno

-- `if (call == -1) perror(…);`
abbrev pub try : Proc Bool → Proc (Unit {0})
try m = do ok ← m; pure tt

abbrev pub report : Bool → Line → Line → Proc (Unit {0})
report b yes' no' = print (if b then yes' else no')

-- The two `if`s on a set of pending signals.
abbrev pub report_pending : Who → SigSet → Proc (Unit {0})
report_pending w m = do
  report (member m usr1) (pending w usr1) (not_pending w usr1)
  report (member m usr2) (pending w usr2) (not_pending w usr2)

-- Lines 18 to 105: up to the fork. The result is the variable `sigset`.
pub before_fork : Proc SigSet
unfolding call
before_fork = do
  need local
  need local
  need local
  let sigset = both
  try (sigprocmask sigset)
  need (signal usr1)
  need (signal usr2)
  print before_kill
  when (member sigset usr1) (print (blocked parent usr1))
  when (member sigset usr2) (print (blocked parent usr2))
  need (kill usr1)
  need (kill usr2)
  need local
  first ← get_pending
  print after_kill
  report_pending parent first
  need local
  let fewer = with sigset usr1 false
  try (sigprocmask fewer)
  need local
  second ← get_pending
  print after_delset
  report_pending parent second
  pure fewer

-- Lines 110 to 172: the child.
pub in_child : SigSet → Proc (Unit {0})
unfolding call
in_child sigset = do
  report (member sigset usr1) (blocked child usr1) (not_blocked child usr1)
  report (member sigset usr2) (blocked child usr2) (not_blocked child usr2)
  need local
  first ← get_pending
  report_pending child first
  need local
  try (sigprocmask (with sigset usr2 false))
  need local
  second ← get_pending
  print after_delset
  report_pending child second

-- fork: the child starts with no pending signal, and here with an empty log of its own.
abbrev pub fork : Who → Proc Bool
fork parent s = call (pure tt) s
fork child s = call (λ s'. (done tt, record s' { waiting = empty; log = [] })) s

abbrev pub branch : Who → SigSet → Proc (Unit {0})
branch parent sigset = pure tt
branch child sigset = in_child sigset

-- `main`, as the parent runs it or as the child does.
unfoldable pub main : Who → Proc ℕ
unfolding before_fork in_child
main w = do sigset ← before_fork; need (fork w); branch w sigset; pure 0
