-- ===== src/Hangup.antt =====
-- assignment_8/sighup_sigcont.c: a child that stops itself, and is left behind in a stopped state by
-- its parent. An event says what happens next; `none` means that it cannot happen.
pub mod Invariant
pub mod Results
mod Tests
use aup_assignments.Prelude.{
  ℕ, suc, ◌≡◌, Bool, true, false, not, ◌&&◌, ◌||◌, Option, none, some, List, [], ◌∷◌, ◌++◌,
  if◌then◌else◌,
}

-- The parent: pr_ids, fork, sleep, and the end.
pub data Parent : Type 0 where
  showing forking sleeping ended : Parent

-- The child: not yet created, pr_ids, both calls of signal, kill, stopped in it, pr_ids, the end, and
-- the end after a call that has failed.
pub data Child : Type 0 where
  unborn showing catching_hup catching_cont killing stopped showing_again ended failed : Child

-- The lines that the program prints: of pr_ids in the parent; of pr_ids in the child, whose parent has
-- ended by then or not; of sig_hup; of sig_cont.
pub data Line : Type 0 where
  of_parent : Line
  of_child : Bool → Line
  hup cont : Line

-- `hup_waits` and `cont_waits` say that the handler of the signal is to run.
pub record State : Type 0 where
  pub parent : Parent
  pub child : Child
  pub hup_waits : Bool
  pub cont_waits : Bool
  pub out : List Line

pub data Event : Type 0 where
  parent_moves parent_fails child_moves child_fails hup_runs cont_runs : Event

abbrev pub init : State
init = record {
  parent = Parent.showing;
  child = unborn;
  hup_waits = false;
  cont_waits = false;
  out = [];
}

abbrev pub print : Line → State → State
print l s = record s { out = s.out ++ l ∷ [] }

abbrev pub is_ended : Parent → Bool
is_ended Parent.ended = true
is_ended _ = false

-- The end of the parent orphans the process group of the child, if a shell with job control has
-- started it; a stopped process in a group that becomes orphaned gets SIGHUP and then SIGCONT, which
-- wakes it.
abbrev pub orphan : Bool → Child → State → State
orphan shell stopped s =
    if shell
    then record s {
      parent = Parent.ended;
      child = showing_again;
      hup_waits = true;
      cont_waits = true;
    }
    else record s { parent = Parent.ended }
orphan shell _ s = record s { parent = Parent.ended }

unfoldable pub parent_at : Bool → Parent → State → Option State
parent_at shell Parent.showing s = some (print of_parent (record s { parent = forking }))
parent_at shell forking s = some (record s { parent = sleeping; child = Child.showing })
parent_at shell sleeping s = some (orphan shell s.child s)
parent_at shell Parent.ended s = none

abbrev pub parent_fails_at : Parent → State → Option State
parent_fails_at forking s = some (record s { parent = Parent.ended })
parent_fails_at _ s = none

-- SIGTSTP stops a process unless its process group is orphaned.
abbrev pub is_orphaned : Bool → State → Bool
is_orphaned shell s = not shell || is_ended s.parent

-- kill returns to the program after the handlers have run.
unfoldable pub child_at : Bool → Child → State → Option State
child_at shell unborn s = none
child_at shell Child.showing s =
    some (print (of_child (is_ended s.parent)) (record s { child = catching_hup }))
child_at shell catching_hup s = some (record s { child = catching_cont })
child_at shell catching_cont s = some (record s { child = killing })
child_at shell killing s =
    some (record s { child = if is_orphaned shell s then showing_again else stopped })
child_at shell stopped s = none
child_at shell showing_again s =
    if s.hup_waits || s.cont_waits
    then none
    else some (print (of_child (is_ended s.parent)) (record s { child = Child.ended }))
child_at shell Child.ended s = none
child_at shell failed s = none

abbrev pub child_fails_at : Child → State → Option State
child_fails_at catching_hup s = some (record s { child = failed })
child_fails_at catching_cont s = some (record s { child = failed })
child_fails_at killing s = some (record s { child = failed })
child_fails_at _ s = none

-- The handlers run in either order.
abbrev pub run_hup : State → Option State
run_hup s = if s.hup_waits then some (print hup (record s { hup_waits = false })) else none

abbrev pub run_cont : State → Option State
run_cont s = if s.cont_waits then some (print cont (record s { cont_waits = false })) else none

unfoldable pub step : Bool → Event → State → Option State
unfolding parent_at child_at
step shell parent_moves s = parent_at shell s.parent s
step shell parent_fails s = parent_fails_at s.parent s
step shell child_moves s = child_at shell s.child s
step shell child_fails s = child_fails_at s.child s
step shell hup_runs s = run_hup s
step shell cont_runs s = run_cont s

-- The states after `n` events; `shell` says whether a shell with job control has started the program.
pub data Reach (shell : Bool) : ℕ → State → Type 0 where
  begin : Reach shell 0 init
  later :
      {n : ℕ} {s t : State} (e : Event)
      → Reach shell n s
      → step shell e s ≡ some t
      → Reach shell (suc n) t
