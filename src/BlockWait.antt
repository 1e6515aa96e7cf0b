-- ===== src/BlockWait.antt =====
-- assignment_9/sigchld_block_wait.c: a parent that blocks SIGCHLD, and then waits for its child. An
-- event says what happens next; `none` means that it cannot happen.
pub mod Invariant
pub mod Results
mod Tests
use aup_assignments.Prelude.Systems.{Steps}
use aup_assignments.Prelude.{ℕ, suc, ◌≡◌, Bool, true, false, Option, none, some}

-- `main`, by the call that comes next: signal, sigemptyset, sigaddset, sigprocmask, fork, sleep,
-- sigpending, sigismember, wait; then the ends: all done, wait failed, another call failed.
pub data Main : Type 0 where
  trapping emptying adding masking forking sleeping querying testing waiting finished unwaited
        failed :
      Main

-- The child: not yet created, running, ended and not waited for, waited for.
pub data Child : Type 0 where
  unborn running zombie reaped : Child

-- `blocked` is the mask, `pending` a SIGCHLD sent and not delivered, `queried` the set that
-- sigpending has filled in, `shown` whether the program has printed that SIGCHLD is pending, `caught`
-- whether the handler has run.
pub record State : Type 0 where
  pub main : Main
  pub child : Child
  pub blocked : Bool
  pub pending : Bool
  pub queried : Bool
  pub shown : Bool
  pub caught : Bool

pub data Event : Type 0 where
  main_moves main_fails child_exits interrupt : Event

-- SIGCHLD is not blocked when the program starts.
abbrev pub init : State
init = record {
  main = trapping;
  child = unborn;
  blocked = false;
  pending = false;
  queried = false;
  shown = false;
  caught = false;
}

-- wait: it blocks while the child runs, and fails when there is no child.
abbrev pub wait_at : Child → State → Option State
wait_at running s = none
wait_at zombie s = some (record s { main = finished; child = reaped })
wait_at _ s = some (record s { main = unwaited })

unfoldable pub main_at : Main → State → Option State
main_at trapping s = some (record s { main = emptying })
main_at emptying s = some (record s { main = adding })
main_at adding s = some (record s { main = masking })
main_at masking s = some (record s { main = forking; blocked = true })
main_at forking s = some (record s { main = sleeping; child = running })
main_at sleeping s = some (record s { main = querying })
main_at querying s = some (record s { main = testing; queried = s.pending })
main_at testing s = some (record s { main = waiting; shown = s.queried })
main_at waiting s = wait_at s.child s
main_at _ s = none

-- A call that fails ends the program, but for sigprocmask.
unfoldable pub fails_at : Main → State → Option State
fails_at masking s = some (record s { main = forking })
fails_at sleeping s = none
fails_at waiting s = none
fails_at finished s = none
fails_at unwaited s = none
fails_at failed s = none
fails_at _ s = some (record s { main = failed })

abbrev pub exit_at : Child → State → Option State
exit_at running s = some (record s { child = zombie; pending = true })
exit_at _ s = none

-- The handler, which prints a line. A process that has ended gets no signal.
unfoldable pub interrupt_at : Main → State → Option State
interrupt_at finished s = none
interrupt_at unwaited s = none
interrupt_at failed s = none
interrupt_at _ s = elim s.blocked [
  | true ↦ none
  | false ↦ elim s.pending [
    | true ↦ some (record s { pending = false; caught = true })
    | false ↦ none
  ]
]

unfoldable pub step : Event → State → Option State
unfolding main_at fails_at interrupt_at
step main_moves s = main_at s.main s
step main_fails s = fails_at s.main s
step child_exits s = exit_at s.child s
step interrupt s = interrupt_at s.main s

-- The states that the program can come to in `n` events.
abbrev pub Reach : ℕ → State → Type 0
Reach = Steps init step
