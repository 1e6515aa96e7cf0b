-- ===== src/ExitHandler.antt =====
-- assignment_5/inherit_exit_handler.c: a handler that is registered before fork, and the exits of both
-- processes. An event says whose call comes next or fails.
pub mod Invariant
pub mod Whole
pub mod Buffered
pub mod Results
mod Tests
use aup_assignments.Prelude.{ℕ, Bool, Option, none, some, List, [], ◌∷◌, ◌++◌}
use aup_assignments.Prelude.Systems.{Steps}
use aup_assignments.Unix.Stdio.{left, written}

-- The function that is registered.
pub data Handler : Type 0 where
  exit_handler : Handler

pub data Line : Type 0 where
  handled child_done parent_done : Line

-- The parent: atexit, fork, printf, the handlers at its end, and the end; the end after a failing
-- atexit, and the handlers and the end after a failing fork.
pub data Parent : Type 0 where
  registering forking printing exiting ended unregistered refused quitting failed : Parent

-- The child: not yet created, printf, the handlers at its end, and the end.
pub data Child : Type 0 where
  unborn printing exiting ended : Child

-- The position of each process, its buffer and its handlers, the last one registered first; and what
-- has been written to standard output. `status` is that of the parent's exit.
pub record State : Type 0 where
  pub parent : Parent
  pub child : Child
  pub parent_buf : List Line
  pub child_buf : List Line
  pub parent_handlers : List Handler
  pub child_handlers : List Handler
  pub out : List Line
  pub status : ℕ

pub data Event : Type 0 where
  parent_moves child_moves : Event
  parent_fails : ℕ → Event

abbrev pub init : State
init = record {
  parent = registering;
  child = unborn;
  parent_buf = [];
  child_buf = [];
  parent_handlers = [];
  child_handlers = [];
  out = [];
  status = 0;
}

-- The line of exit_handler.
abbrev pub line_of : Handler → Line
line_of exit_handler = handled

abbrev pub parent_prints : Bool → Line → State → State
parent_prints now l s = record s {
  parent_buf = left now s.parent_buf l;
  out = written now s.parent_buf l s.out;
}

abbrev pub child_prints : Bool → Line → State → State
child_prints now l s = record s {
  child_buf = left now s.child_buf l;
  out = written now s.child_buf l s.out;
}

-- The exit of the parent: the next handler, or, when there is none left, the buffer and the end at the
-- position `q`.
abbrev pub parent_exits : Bool → List Handler → Parent → State → State
parent_exits now [] q s = record s { parent = q; parent_buf = []; out = s.out ++ s.parent_buf }
parent_exits now (h ∷ hs) q s = parent_prints now (line_of h) (record s { parent_handlers = hs })

abbrev pub child_exits : Bool → List Handler → State → State
child_exits now [] s = record s { child = Child.ended; child_buf = []; out = s.out ++ s.child_buf }
child_exits now (h ∷ hs) s = child_prints now (line_of h) (record s { child_handlers = hs })

-- fork copies buffer and handlers.
pub parent_at : Bool → Parent → State → Option State
parent_at now registering s =
    some (record s { parent = forking; parent_handlers = exit_handler ∷ s.parent_handlers })
parent_at now forking s = some (record s {
  parent = Parent.printing;
  child = Child.printing;
  child_buf = s.parent_buf;
  child_handlers = s.parent_handlers;
})
parent_at now Parent.printing s =
    some (parent_prints now parent_done (record s { parent = Parent.exiting }))
parent_at now Parent.exiting s = some (parent_exits now s.parent_handlers Parent.ended s)
parent_at now unregistered s = some (parent_exits now s.parent_handlers refused s)
parent_at now quitting s = some (parent_exits now s.parent_handlers failed s)
parent_at now _ s = none

pub child_at : Bool → Child → State → Option State
child_at now Child.printing s =
    some (child_prints now child_done (record s { child = Child.exiting }))
child_at now Child.exiting s = some (child_exits now s.child_handlers s)
child_at now _ s = none

-- `return errno` after a failing atexit or fork.
abbrev pub fails_at : Parent → ℕ → State → Option State
fails_at registering e s = some (record s { parent = unregistered; status = e })
fails_at forking e s = some (record s { parent = quitting; status = e })
fails_at _ e s = none

pub step : Bool → Event → State → Option State
unfolding parent_at child_at
step now parent_moves s = parent_at now s.parent s
step now child_moves s = child_at now s.child s
step now (parent_fails e) s = fails_at s.parent e s

-- The states after a number of events; `now` says whether standard output is a terminal, where each
-- line is written at once.
abbrev pub Reach : Bool → ℕ → State → Type 0
Reach now = Steps init (step now)
