-- ===== src/Regroup.antt =====
-- assignment_7/change_process_group.c: six processes, of which process 5 learns the process group of
-- process 3 through a FIFO and joins it. An event says who moves next; `none` means that it cannot
-- happen, as when a process is blocked or goes round a busy loop once more.
pub mod Joined
pub mod Forget
pub mod Moves
pub mod Failures
pub mod Simulation
mod Tests
use aup_assignments.Prelude.{ℕ, ◌≡◌, Bool, true, false, Option, none, some, ◌==◌, if◌then◌else◌}
use aup_assignments.Prelude.Int.{ℤ, pos, negsuc}
use aup_assignments.Unix.Pid.{pid_of}

-- Process 0: the two forks, sleep, and the end.
pub data Zero : Type 0 where
  fork_one fork_two resting left : Zero

-- Processes 1 and 2: not yet created, about to fork, and behind that, where they only sleep and end.
pub data Middle : Type 0 where
  unborn forking resting : Middle

-- Process 3: not yet created, the fork, both calls of setpgid, access and mkfifo, creat before and
-- after it is blocked, write, close, sleep, and the end.
pub data Three : Type 0 where
  unborn forking leading adopting naming creating in_creat writing closing resting left : Three

-- Process 4: not yet created, sleep, and the end.
pub data Four : Type 0 where
  unborn resting left : Four

-- Process 5: not yet created, the open that is repeated until the FIFO exists, the open blocked,
-- read, setpgid, sleep, and the end.
pub data Five : Type 0 where
  unborn opening in_open reading joining resting left : Five

-- The writing end of the FIFO.
pub data Writer : Type 0 where
  absent open_now closed : Writer

-- `value` is the variable `pgid_3` of process 5, and `garbled` whether its read failed, which leaves
-- that variable as it was.
pub record State : Type 0 where
  pub zero : Zero
  pub one : Middle
  pub two : Middle
  pub three : Three
  pub four : Four
  pub five : Five
  pub fifo : Bool
  pub reader : Bool
  pub writer : Writer
  pub pipe : Option ℕ
  pub group3 : ℕ
  pub group4 : ℕ
  pub group5 : ℕ
  pub value : ℤ
  pub garbled : Bool

pub data Who : Type 0 where
  p0 p1 p2 p3 p4 p5 : Who

-- A process makes its next call with success, its next call fails, or the read of process 5 fails
-- with `v` in its variable.
pub data Event : Type 0 where
  moves : Who → Event
  fails : Who → Event
  garbles : ℤ → Event

-- All processes start in the group `home`. The FIFO may be there from an earlier run.
abbrev pub init : ℕ → Bool → State
init home fifo = record {
  zero = fork_one;
  one = Middle.unborn;
  two = Middle.unborn;
  three = Three.unborn;
  four = Four.unborn;
  five = Five.unborn;
  fifo = fifo;
  reader = false;
  writer = absent;
  pipe = none;
  group3 = home;
  group4 = home;
  group5 = home;
  value = pos 0;
  garbled = false;
}

unfoldable pub zero_at : Zero → State → Option State
zero_at fork_one s = some (record s { zero = fork_two; one = Middle.forking })
zero_at fork_two s = some (record s { zero = Zero.resting; two = Middle.forking })
zero_at Zero.resting s = some (record s { zero = Zero.left })
zero_at Zero.left s = none

unfoldable pub one_at : Middle → State → Option State
one_at Middle.forking s = some (record s { one = Middle.resting; five = opening })
one_at _ s = none

unfoldable pub two_at : Middle → State → Option State
two_at Middle.forking s = some (record s { two = Middle.resting; three = Three.forking })
two_at _ s = none

abbrev pub gone : Five → Bool
gone Five.left = true
gone _ = false

-- `leader` is the process id of process 3. SIGPIPE ends it if no process reads the FIFO any more.
unfoldable pub three_at : ℕ → Three → State → Option State
three_at leader Three.unborn s = none
three_at leader Three.forking s = some (record s { three = leading; four = Four.resting })
three_at leader leading s = some (record s { three = adopting; group3 = leader })
three_at leader adopting s = some (record s { three = naming; group4 = s.group3 })
three_at leader naming s = some (record s { three = creating; fifo = true })
three_at leader creating s = some (record s { three = in_creat; writer = open_now })
three_at leader in_creat s = if s.reader then some (record s { three = writing }) else none
three_at leader writing s = some (
    if gone s.five
    then record s { three = Three.left; writer = closed }
    else record s { three = closing; pipe = some s.group3 })
three_at leader closing s = some (record s { three = Three.resting; writer = closed })
three_at leader Three.resting s = some (record s { three = Three.left })
three_at leader Three.left s = none

unfoldable pub four_at : Four → State → Option State
four_at Four.resting s = some (record s { four = Four.left })
four_at _ s = none

abbrev pub is_absent : Writer → Bool
is_absent absent = true
is_absent _ = false

-- read: the value in the FIFO; nothing while the writer has it open; the end of the file after that,
-- at which the process exits.
abbrev pub read_pipe : Option ℕ → Writer → State → Option State
read_pipe (some v) w s = some (record s { five = joining; value = pos v; pipe = none })
read_pipe none closed s = some (record s { five = Five.left })
read_pipe none _ s = none

-- setpgid(0, v), for the value `v` that the cast gives: the group of the process itself for 0; a negative group is refused.
abbrev pub join_group : ℕ → ℤ → State → State
join_group own (pos n) s = record s { five = Five.resting; group5 = if n == 0 then own else n }
join_group own (negsuc n) s = record s { five = Five.left }

-- `own` is the process id of process 5.
unfoldable pub five_at : ℕ → Five → State → Option State
five_at own Five.unborn s = none
five_at own opening s = if s.fifo then some (record s { five = in_open; reader = true }) else none
five_at own in_open s = if is_absent s.writer then none else some (record s { five = reading })
five_at own reading s = read_pipe s.pipe s.writer s
five_at own joining s = some (join_group own (pid_of s.garbled s.value) s)
five_at own Five.resting s = some (record s { five = Five.left })
five_at own Five.left s = none

-- A failing call ends its process, but for the setpgid of process 3 for process 4. A process whose
-- fork fails ends, and its children are never created.
abbrev pub zero_fails : Zero → State → Option State
zero_fails fork_one s = some (record s { zero = Zero.left })
zero_fails fork_two s = some (record s { zero = Zero.left })
zero_fails _ s = none

abbrev pub middle_fails : Middle → State → Option State
middle_fails Middle.forking t = some t
middle_fails _ t = none

abbrev pub three_fails : Three → State → Option State
three_fails Three.unborn s = none
three_fails Three.left s = none
three_fails Three.resting s = none
three_fails adopting s = some (record s { three = naming })
three_fails _ s =
    some (record s { three = Three.left; writer = if is_absent s.writer then absent else closed })

abbrev pub five_fails : Five → State → Option State
five_fails joining s = some (record s { five = Five.left })
five_fails _ s = none

abbrev pub garble : Five → ℤ → State → Option State
garble reading v s = some (record s { five = joining; value = v; garbled = true })
garble _ v s = none

-- One step of the system: the effect of an event.
unfoldable pub step : ℕ → ℕ → Event → State → Option State
unfolding zero_at one_at two_at three_at four_at five_at
step leader own (moves p0) s = zero_at s.zero s
step leader own (moves p1) s = one_at s.one s
step leader own (moves p2) s = two_at s.two s
step leader own (moves p3) s = three_at leader s.three s
step leader own (moves p4) s = four_at s.four s
step leader own (moves p5) s = five_at own s.five s
step leader own (fails p0) s = zero_fails s.zero s
step leader own (fails p1) s = middle_fails s.one (record s { one = Middle.resting })
step leader own (fails p2) s = middle_fails s.two (record s { two = Middle.resting })
step leader own (fails p3) s = three_fails s.three s
step leader own (fails p4) s = none
step leader own (fails p5) s = five_fails s.five s
step leader own (garbles v) s = garble s.five v s

-- The states that the program can come to: `leader` and `own` are the process ids of processes 3 and
-- 5, `home` the group in which all start.
pub data Reach (leader own home : ℕ) (fifo : Bool) : State → Type 0 where
  begin : Reach leader own home fifo (init home fifo)
  later :
      {s t : State} (e : Event)
      → Reach leader own home fifo s
      → step leader own e s ≡ some t
      → Reach leader own home fifo t
