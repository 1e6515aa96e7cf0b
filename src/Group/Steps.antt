-- ===== src/Group/Steps.antt =====
-- The steps of the six processes of signal_process_group.c.
use aup_assignments.Prelude.{
  ℕ, ◌≡◌, Bool, true, false, Option, none, some, ◌==◌, ◌&&◌, ◌||◌, not, if◌then◌else◌,
}
use aup_assignments.Prelude.Int.{ℤ, pos, negsuc, eqb_ℤ}
use aup_assignments.Unix.Pid.{pid_of}
use aup_assignments.Group.{
  Zero, fork_one, fork_two, trap, arm, loop, disarm, check, send, unmap, touch, crashed, Middle,
  Three, leading, adopting, naming, creating, in_creat, writing, closing, Four, Five, opening,
  in_open, reading, joining, storing, Writer, absent, open_now, closed, Fate, received, killed,
  State, p0, p1, p2, p3, p4, p5, Event, moves, fails, alarm, garbles, init,
}

-- `(pid_t)(-(*shared_pgid_3))` as the target of kill names the group `g` if the cast of the value is
-- `g`. What kill addresses when that is none of a group, as it may be after a failing read of process
-- 5, is not followed: such a kill can only fail.
abbrev pub targets : ℤ → ℕ → Bool
targets (pos n) g = n == g
targets (negsuc n) g = false

-- SIGUSR1 at a process of the group: its handler, or the default action, which ends the process.
abbrev pub strike : Bool → Fate
strike caught = if caught then received else killed

abbrev pub alive3 : Three → Bool
alive3 Three.unborn = false
alive3 Three.left = false
alive3 _ = true

abbrev pub alive4 : Four → Bool
alive4 Four.unborn = false
alive4 Four.left = false
alive4 _ = true

abbrev pub alive5 : Five → Bool
alive5 Five.unborn = false
alive5 Five.left = false
alive5 _ = true

abbrev pub hit3 : State → Bool
hit3 s = alive3 s.three && targets (pid_of s.garbled s.cell) s.group3

abbrev pub hit4 : State → Bool
hit4 s = alive4 s.four && targets (pid_of s.garbled s.cell) s.group4

abbrev pub hit5 : State → Bool
hit5 s = alive5 s.five && targets (pid_of s.garbled s.cell) s.group5

-- kill(-g, SIGUSR1).
abbrev pub struck : State → State
struck s = record s {
  zero = unmap;
  fate3 = if hit3 s then strike s.caught3 else s.fate3;
  fate4 = if hit4 s then strike s.caught4 else s.fate4;
  fate5 = if hit5 s then strike s.caught5 else s.fate5;
  three = if hit3 s && not s.caught3 then Three.left else s.three;
  four = if hit4 s && not s.caught4 then Four.left else s.four;
  five = if hit5 s && not s.caught5 then Five.left else s.five;
}

unfoldable pub zero_at : Zero → State → Option State
zero_at fork_one s = some (record s { zero = fork_two; one = Middle.forking })
zero_at fork_two s = some (record s { zero = trap; two = Middle.forking })
zero_at trap s = some (record s { zero = arm })
zero_at arm s = some (record s { zero = loop; armed = true })
zero_at loop s = if eqb_ℤ s.cell (negsuc 0) then none else some (record s { zero = disarm })
zero_at disarm s = some (record s { zero = check; armed = false })
zero_at check s = some (record s { zero = if eqb_ℤ s.cell (negsuc 1) then Zero.left else send })
zero_at send s = if hit3 s || hit4 s || hit5 s then some (struck s) else none
zero_at unmap s = some (record s { zero = touch })
zero_at touch s = some (record s { zero = crashed })
zero_at crashed s = none
zero_at Zero.left s = none

unfoldable pub one_at : Middle → State → Option State
one_at Middle.forking s = some (record s { one = Middle.resting; five = opening })
one_at _ s = none

unfoldable pub two_at : Middle → State → Option State
two_at Middle.forking s = some (record s { two = Middle.resting; three = Three.forking })
two_at _ s = none

abbrev pub gone : Five → Bool
gone Five.left = true
gone _ = false

-- `leader` is the process id of process 3. SIGPIPE ends it if no process reads the FIFO any more.
unfoldable pub three_at : ℕ → Three → State → Option State
three_at leader Three.unborn s = none
three_at leader Three.forking s = some (record s { three = leading; four = Four.catching })
three_at leader leading s = some (record s { three = adopting; group3 = leader })
three_at leader adopting s = some (record s { three = naming; group4 = s.group3 })
three_at leader naming s = some (record s { three = creating; fifo = true })
three_at leader creating s = some (record s { three = in_creat; writer = open_now })
three_at leader in_creat s = if s.reader then some (record s { three = writing }) else none
three_at leader writing s = some (
    if gone s.five
    then record s { three = Three.left; writer = closed }
    else record s { three = closing; pipe = some s.group3 })
three_at leader closing s = some (record s { three = Three.catching; writer = closed })
three_at leader Three.catching s = some (record s { three = Three.resting; caught3 = true })
three_at leader Three.resting s = some (record s { three = Three.left })
three_at leader Three.left s = none

unfoldable pub four_at : Four → State → Option State
four_at Four.unborn s = none
four_at Four.catching s = some (record s { four = Four.resting; caught4 = true })
four_at Four.resting s = some (record s { four = Four.left })
four_at Four.left s = none

abbrev pub is_absent : Writer → Bool
is_absent absent = true
is_absent _ = false

-- read: the value in the FIFO; nothing while the writer has it open; the end of the file after that,
-- at which the process exits.
abbrev pub read_pipe : Option ℕ → Writer → State → Option State
read_pipe (some v) w s = some (record s { five = joining; value = pos v; pipe = none })
read_pipe none closed s = some (record s { five = Five.left })
read_pipe none _ s = none

-- setpgid(0, v), for the value `v` that the cast gives: the group of the process itself for 0; a negative group is refused.
abbrev pub join_group : ℕ → ℤ → State → State
join_group own (pos n) s = record s { five = storing; group5 = if n == 0 then own else n }
join_group own (negsuc n) s = record s { five = Five.left }

-- `own` is the process id of process 5.
unfoldable pub five_at : ℕ → Five → State → Option State
five_at own Five.unborn s = none
five_at own opening s = if s.fifo then some (record s { five = in_open; reader = true }) else none
five_at own in_open s = if is_absent s.writer then none else some (record s { five = reading })
five_at own reading s = read_pipe s.pipe s.writer s
five_at own joining s = some (join_group own (pid_of s.garbled s.value) s)
five_at own storing s = some (record s { five = Five.catching; cell = s.value })
five_at own Five.catching s = some (record s { five = Five.resting; caught5 = true })
five_at own Five.resting s = some (record s { five = Five.left })
five_at own Five.left s = none

-- A failing call ends its process, but for the setpgid of process 3 for process 4. A process whose
-- fork fails ends, and its children are never created.
abbrev pub three_fails : Three → State → Option State
three_fails Three.unborn s = none
three_fails Three.left s = none
three_fails Three.resting s = none
three_fails adopting s = some (record s { three = naming })
three_fails Three.catching s = some (record s { three = Three.left })
three_fails _ s =
    some (record s { three = Three.left; writer = if is_absent s.writer then absent else closed })

abbrev pub zero_fails : Zero → State → Option State
zero_fails fork_one s = some (record s { zero = Zero.left })
zero_fails fork_two s = some (record s { zero = Zero.left })
zero_fails trap s = some (record s { zero = Zero.left })
zero_fails send s = some (record s { zero = Zero.left })
zero_fails unmap s = some (record s { zero = Zero.left })
zero_fails _ s = none

abbrev pub five_fails : Five → State → Option State
five_fails joining s = some (record s { five = Five.left })
five_fails Five.catching s = some (record s { five = Five.left })
five_fails _ s = none

abbrev pub four_fails : Four → State → Option State
four_fails Four.catching s = some (record s { four = Four.left })
four_fails _ s = none

abbrev pub garble : Five → ℤ → State → Option State
garble reading v s = some (record s { five = joining; value = v; garbled = true })
garble _ v s = none

-- One step of the system: the effect of an event.
unfoldable pub step : ℕ → ℕ → Event → State → Option State
unfolding zero_at one_at two_at three_at four_at five_at
step leader own (moves p0) s = zero_at s.zero s
step leader own (moves p1) s = one_at s.one s
step leader own (moves p2) s = two_at s.two s
step leader own (moves p3) s = three_at leader s.three s
step leader own (moves p4) s = four_at s.four s
step leader own (moves p5) s = five_at own s.five s
step leader own (fails p0) s = zero_fails s.zero s
step leader own (fails p1) s = elim s.one [
  | Middle.forking ↦ some (record s { one = Middle.resting })
  | _ ↦ none
]
step leader own (fails p2) s = elim s.two [
  | Middle.forking ↦ some (record s { two = Middle.resting })
  | _ ↦ none
]
step leader own (fails p3) s = three_fails s.three s
step leader own (fails p4) s = four_fails s.four s
step leader own (fails p5) s = five_fails s.five s
step leader own alarm s =
    if s.armed then some (record s { cell = negsuc 1; armed = false }) else none
step leader own (garbles v) s = garble s.five v s

-- The states that the program can come to: `leader` and `own` are the process ids of processes 3 and
-- 5, `home` the group in which all start.
pub data Reach (leader own home : ℕ) (fifo : Bool) : State → Type 0 where
  begin : Reach leader own home fifo (init home fifo)
  later :
      {s t : State} (e : Event)
      → Reach leader own home fifo s
      → step leader own e s ≡ some t
      → Reach leader own home fifo t
