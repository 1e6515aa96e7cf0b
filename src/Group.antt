-- ===== src/Group.antt =====
-- assignment_8/signal_process_group.c: six processes, of which process 0 waits for a process group
-- to be written into shared memory by process 5, and then signals that group. The group is that of
-- process 3, sent to process 5 through a FIFO. An event says who moves next; `none` means that it
-- cannot happen, as when a process is blocked or goes round a busy loop once more.
pub mod Steps
pub mod Invariant
pub mod Results
pub mod Orders
mod Tests
use aup_assignments.Prelude.{ℕ, Bool, true, false, Option, none, some}
use aup_assignments.Prelude.Int.{ℤ, pos, negsuc}

-- Process 0: the two forks, signal and alarm, the busy loop on the shared value, alarm(0), the test
-- for -2, kill, munmap, the last printf, which reads the shared value after munmap.
pub data Zero : Type 0 where
  fork_one fork_two trap arm loop disarm check send unmap touch crashed left : Zero

-- Processes 1 and 2: not yet created, about to fork, asleep.
pub data Middle : Type 0 where
  unborn forking resting : Middle

-- Process 3: not yet created, the fork, both calls of setpgid, access and mkfifo, creat before and
-- after it is blocked, write, close, signal, sleep, and the end.
pub data Three : Type 0 where
  unborn forking leading adopting naming creating in_creat writing closing catching resting left :
      Three

-- Process 4: not yet created, signal, sleep, and the end.
pub data Four : Type 0 where
  unborn catching resting left : Four

-- Process 5: not yet created, the open that is repeated until the FIFO exists, the open blocked,
-- read, setpgid, the store into shared memory, signal, sleep, and the end.
pub data Five : Type 0 where
  unborn opening in_open reading joining storing catching resting left : Five

-- The writing end of the FIFO.
pub data Writer : Type 0 where
  absent open_now closed : Writer

-- What SIGUSR1 did to a process.
pub data Fate : Type 0 where
  untouched received killed : Fate

-- `cell` is the shared value, `armed` whether the alarm may still go off, `value` the variable
-- `pgid_3` of process 5, and `garbled` whether its read failed, which leaves that variable as it was.
pub record State : Type 0 where
  pub cell : ℤ
  pub armed : Bool
  pub zero : Zero
  pub one : Middle
  pub two : Middle
  pub three : Three
  pub four : Four
  pub five : Five
  pub fifo : Bool
  pub reader : Bool
  pub writer : Writer
  pub pipe : Option ℕ
  pub group3 : ℕ
  pub group4 : ℕ
  pub group5 : ℕ
  pub value : ℤ
  pub garbled : Bool
  pub caught3 : Bool
  pub caught4 : Bool
  pub caught5 : Bool
  pub fate3 : Fate
  pub fate4 : Fate
  pub fate5 : Fate

pub data Who : Type 0 where
  p0 p1 p2 p3 p4 p5 : Who

-- A process makes its next call with success, its next call fails, the alarm goes off, or the read
-- of process 5 fails with `v` in its variable.
pub data Event : Type 0 where
  moves : Who → Event
  fails : Who → Event
  alarm : Event
  garbles : ℤ → Event

-- All processes start in the group `home`. The FIFO may be there from an earlier run.
abbrev pub init : ℕ → Bool → State
init home fifo = record {
  cell = negsuc 0;
  armed = false;
  zero = fork_one;
  one = Middle.unborn;
  two = Middle.unborn;
  three = Three.unborn;
  four = Four.unborn;
  five = Five.unborn;
  fifo = fifo;
  reader = false;
  writer = absent;
  pipe = none;
  group3 = home;
  group4 = home;
  group5 = home;
  value = pos 0;
  garbled = false;
  caught3 = false;
  caught4 = false;
  caught5 = false;
  fate3 = untouched;
  fate4 = untouched;
  fate5 = untouched;
}
