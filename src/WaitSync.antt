-- ===== src/WaitSync.antt =====
-- assignment_9/sigchld_wait_sync.c: a parent that waits for its child both in `main` and in the
-- handler of SIGCHLD. An event says what happens next; `none` means that it cannot happen.
pub mod Invariant
pub mod Results
mod Tests
use aup_assignments.Prelude.Systems.{Steps}
use aup_assignments.Prelude.{ℕ, suc, ◌≡◌, Bool, true, false, Option, none, some}

-- `main` of the parent: signal, fork, printf, wait, the printf on its result, and the end.
pub data Main : Type 0 where
  trapping forking announcing waiting telling exited : Main

-- `sig_chld`: not running, its first two printf, wait, and the printf on its result.
pub data Handler : Type 0 where
  idle entered in_wait reporting : Handler

-- The child: not yet created, in its sleep, ended and not waited for, waited for.
pub data Child : Type 0 where
  unborn asleep zombie reaped : Child

-- `pending` is a SIGCHLD that is sent and not yet delivered. `parent_wait` and `handler_wait` tell
-- whether the two calls of wait have returned, and whether with a process id.
pub record State : Type 0 where
  pub main : Main
  pub handler : Handler
  pub child : Child
  pub pending : Bool
  pub parent_wait : Option Bool
  pub handler_wait : Option Bool

pub data Event : Type 0 where
  main_moves main_fails child_exits interrupt handler_moves : Event

abbrev pub init : State
init = record {
  main = trapping;
  handler = idle;
  child = unborn;
  pending = false;
  parent_wait = none;
  handler_wait = none;
}

-- wait in `main`: it blocks while the child runs, and fails when there is no child.
abbrev pub wait_in_main : Child → State → Option State
wait_in_main asleep s = none
wait_in_main zombie s = some (record s { main = telling; child = reaped; parent_wait = some true })
wait_in_main _ s = some (record s { main = telling; parent_wait = some false })

unfoldable pub main_at : Main → State → Option State
main_at trapping s = some (record s { main = forking })
main_at forking s = some (record s { main = announcing; child = asleep })
main_at announcing s = some (record s { main = waiting })
main_at waiting s = wait_in_main s.child s
main_at telling s = some (record s { main = exited })
main_at exited s = none

-- `main` stands still while the handler runs.
pub main_step : Handler → State → Option State
unfolding main_at
main_step idle s = main_at s.main s
main_step _ s = none

-- signal and fork may fail.
abbrev pub main_fails_at : Main → State → Option State
main_fails_at trapping s = some (record s { main = exited })
main_fails_at forking s = some (record s { main = exited })
main_fails_at _ s = none

abbrev pub wait_in_handler : Child → State → Option State
wait_in_handler asleep s = none
wait_in_handler zombie s =
    some (record s { handler = reporting; child = reaped; handler_wait = some true })
wait_in_handler _ s = some (record s { handler = reporting; handler_wait = some false })

unfoldable pub handler_at : Handler → State → Option State
handler_at idle s = none
handler_at entered s = some (record s { handler = in_wait })
handler_at in_wait s = wait_in_handler s.child s
handler_at reporting s = some (record s { handler = idle })

abbrev pub child_at : Child → State → Option State
child_at asleep s = some (record s { child = zombie; pending = true })
child_at _ s = none

-- SIGCHLD is blocked while its handler runs, and a process that has ended gets no signal. `main` may
-- come out of wait, or go on elsewhere, before a signal that is pending is delivered.
abbrev pub interrupt_at : Bool → Handler → Main → State → Option State
interrupt_at true idle exited s = none
interrupt_at true idle q s = some (record s { handler = entered; pending = false })
interrupt_at _ h q s = none

unfoldable pub step : Event → State → Option State
unfolding main_at main_step handler_at
step main_moves s = main_step s.handler s
step main_fails s = main_fails_at s.main s
step child_exits s = child_at s.child s
step interrupt s = interrupt_at s.pending s.handler s.main s
step handler_moves s = handler_at s.handler s

-- The states that the program can come to in `n` events.
abbrev pub Reach : ℕ → State → Type 0
Reach = Steps init step
