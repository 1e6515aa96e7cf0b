-- ===== src/Buffering.antt =====
-- test_fork_printf_buffering/fork_printf_buffering.c: three processes that print through stdio, whose
-- buffer fork copies. An event says who moves, or whose fork fails; `none` means that it cannot
-- happen.
pub mod Full
pub mod Printed
pub mod Printing
pub mod Lines
pub mod Ending
mod Tests
use aup_assignments.Unix.Stdio.{left, written}
use aup_assignments.Prelude.{
  ℕ, suc, ◌≡◌, Bool, true, false, not, ◌&&◌, Option, none, some, List, [], ◌∷◌, ◌++◌, if◌then◌else◌,
}

-- The first process: fork, print(0), wait, print(1), exit.
pub data Root : Type 0 where
  forking printing waiting finishing exiting ended : Root

-- The second one, the same after its birth: fork, print(2), wait, print(3), exit.
pub data Middle : Type 0 where
  unborn forking printing waiting finishing exiting ended : Middle

-- The third one: print(4), exit.
pub data Leaf : Type 0 where
  unborn printing exiting ended : Leaf

-- The position and the stdio buffer of each process, and what has been written to standard output.
-- A line stands for its digit.
pub record State : Type 0 where
  pub root : Root
  pub middle : Middle
  pub leaf : Leaf
  pub root_buf : List ℕ
  pub middle_buf : List ℕ
  pub leaf_buf : List ℕ
  pub out : List ℕ

pub data Event : Type 0 where
  root_moves middle_moves leaf_moves root_fails middle_fails : Event

abbrev pub init : State
init = record {
  root = Root.forking;
  middle = Middle.unborn;
  leaf = Leaf.unborn;
  root_buf = [];
  middle_buf = [];
  leaf_buf = [];
  out = [];
}

-- printf empties the buffer at a newline if standard output is a terminal.
abbrev pub eager : Bool → Bool → Bool
eager tty no_newline = tty && not no_newline

abbrev pub middle_over : Middle → Bool
middle_over Middle.unborn = true
middle_over Middle.ended = true
middle_over _ = false

abbrev pub leaf_over : Leaf → Bool
leaf_over Leaf.unborn = true
leaf_over Leaf.ended = true
leaf_over _ = false

-- wait blocks while there is a child that has not ended, and fails at once if there is none; its
-- result is not used. Exit empties the buffer.
unfoldable pub root_at : Bool → Root → State → Option State
root_at now Root.forking s =
    some (record s { root = Root.printing; middle = Middle.forking; middle_buf = s.root_buf })
root_at now Root.printing s = some (record s {
  root = Root.waiting;
  root_buf = left now s.root_buf 0;
  out = written now s.root_buf 0 s.out;
})
root_at now Root.waiting s =
    if middle_over s.middle then some (record s { root = Root.finishing }) else none
root_at now Root.finishing s = some (record s {
  root = Root.exiting;
  root_buf = left now s.root_buf 1;
  out = written now s.root_buf 1 s.out;
})
root_at now Root.exiting s =
    some (record s { root = Root.ended; root_buf = []; out = s.out ++ s.root_buf })
root_at now Root.ended s = none

unfoldable pub middle_at : Bool → Middle → State → Option State
middle_at now Middle.forking s =
    some (record s { middle = Middle.printing; leaf = Leaf.printing; leaf_buf = s.middle_buf })
middle_at now Middle.printing s = some (record s {
  middle = Middle.waiting;
  middle_buf = left now s.middle_buf 2;
  out = written now s.middle_buf 2 s.out;
})
middle_at now Middle.waiting s =
    if leaf_over s.leaf then some (record s { middle = Middle.finishing }) else none
middle_at now Middle.finishing s = some (record s {
  middle = Middle.exiting;
  middle_buf = left now s.middle_buf 3;
  out = written now s.middle_buf 3 s.out;
})
middle_at now Middle.exiting s =
    some (record s { middle = Middle.ended; middle_buf = []; out = s.out ++ s.middle_buf })
middle_at now _ s = none

unfoldable pub leaf_at : Bool → Leaf → State → Option State
leaf_at now Leaf.printing s = some (record s {
  leaf = Leaf.exiting;
  leaf_buf = left now s.leaf_buf 4;
  out = written now s.leaf_buf 4 s.out;
})
leaf_at now Leaf.exiting s =
    some (record s { leaf = Leaf.ended; leaf_buf = []; out = s.out ++ s.leaf_buf })
leaf_at now _ s = none

-- A fork that fails returns -1, which the test takes for a child's process id.
abbrev pub root_fails_at : Root → State → Option State
root_fails_at Root.forking s = some (record s { root = Root.printing })
root_fails_at _ s = none

abbrev pub middle_fails_at : Middle → State → Option State
middle_fails_at Middle.forking s = some (record s { middle = Middle.printing })
middle_fails_at _ s = none

unfoldable pub step : Bool → Event → State → Option State
unfolding root_at middle_at leaf_at
step now root_moves s = root_at now s.root s
step now middle_moves s = middle_at now s.middle s
step now leaf_moves s = leaf_at now s.leaf s
step now root_fails s = root_fails_at s.root s
step now middle_fails s = middle_fails_at s.middle s

-- The states after `n` events, with standard output a terminal or not, and the macro NO_NEWLINE 0 or
-- not.
pub data Reach (tty no_newline : Bool) : ℕ → State → Type 0 where
  begin : Reach tty no_newline 0 init
  later :
      {n : ℕ} {s t : State} (e : Event)
      → Reach tty no_newline n s
      → step (eager tty no_newline) e s ≡ some t
      → Reach tty no_newline (suc n) t
