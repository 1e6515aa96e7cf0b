-- ===== src/Regroup/Forget.antt =====
-- The states of signal_process_group.c as states of change_process_group.c.
use mathlib.Core.Path.{subst}
use mathlib.Core.Option.{some-injective}
use aup_assignments.Prelude.{
  ℕ, ◌≡◌, refl, ap, ◌∙◌, ◌⊎◌, Bool, true, false, none, some, arith, ◌&&◌, ◌||◌, if◌then◌else◌,
}
use aup_assignments.Group
use aup_assignments.Group.Steps
use aup_assignments.Group.Steps.{hit3, hit4, hit5, struck}
use aup_assignments.Regroup.{
  Zero, fork_one, fork_two, Middle, Three, leading, adopting, naming, creating, in_creat, writing,
  closing, Four, Five, opening, in_open, reading, joining, Writer, absent, open_now, closed, State,
  Event, is_absent, gone, step,
}

-- Positions of the larger program, as positions of the smaller one.
abbrev pub of_zero : Group.Zero → Zero
of_zero Group.Zero.fork_one = fork_one
of_zero Group.Zero.fork_two = fork_two
of_zero Group.Zero.left = Zero.left
of_zero _ = Zero.resting

abbrev pub of_middle : Group.Middle → Middle
of_middle Group.Middle.unborn = Middle.unborn
of_middle Group.Middle.forking = Middle.forking
of_middle Group.Middle.resting = Middle.resting

abbrev pub of_three : Group.Three → Three
of_three Group.Three.unborn = Three.unborn
of_three Group.Three.forking = Three.forking
of_three Group.Three.leading = leading
of_three Group.Three.adopting = adopting
of_three Group.Three.naming = naming
of_three Group.Three.creating = creating
of_three Group.Three.in_creat = in_creat
of_three Group.Three.writing = writing
of_three Group.Three.closing = closing
of_three Group.Three.catching = Three.resting
of_three Group.Three.resting = Three.resting
of_three Group.Three.left = Three.left

abbrev pub of_four : Group.Four → Four
of_four Group.Four.unborn = Four.unborn
of_four Group.Four.left = Four.left
of_four _ = Four.resting

abbrev pub of_five : Group.Five → Five
of_five Group.Five.unborn = Five.unborn
of_five Group.Five.opening = opening
of_five Group.Five.in_open = in_open
of_five Group.Five.reading = reading
of_five Group.Five.joining = joining
of_five Group.Five.left = Five.left
of_five _ = Five.resting

abbrev pub of_writer : Group.Writer → Writer
of_writer Group.Writer.absent = absent
of_writer Group.Writer.open_now = open_now
of_writer Group.Writer.closed = closed

-- The state without the shared value, the alarm, the handlers and the signal.
abbrev pub forget : Group.State → State
forget s = record {
  zero = of_zero s.zero;
  one = of_middle s.one;
  two = of_middle s.two;
  three = of_three s.three;
  four = of_four s.four;
  five = of_five s.five;
  fifo = s.fifo;
  reader = s.reader;
  writer = of_writer s.writer;
  pipe = s.pipe;
  group3 = s.group3;
  group4 = s.group4;
  group5 = s.group5;
  value = s.value;
  garbled = s.garbled;
}

abbrev pub is_untouched : Group.Fate → Bool
is_untouched Group.Fate.untouched = true
is_untouched _ = false

-- No process has been hit by the signal.
abbrev pub is_unsent : Group.State → Bool
is_unsent s = is_untouched s.fate3 && (is_untouched s.fate4 && is_untouched s.fate5)

-- What a step is: nothing, or an event.
abbrev pub Follows : ℕ → ℕ → Group.State → Group.State → Type 0
Follows l own s t =
    (forget s ≡ forget t) ⊎ ((e : Event) × (step l own e (forget s) ≡ some (forget t)))

pub if-some :
    (P : Group.State → Type 0) (b : Bool) (u : Group.State) {t : Group.State}
    → (b ≡ true → P u)
    → (if b then some u else none) ≡ some t
    → P t
if-some P true u f h = subst P (some-injective _ _ h) (f refl)
if-some P false u f h = cc

pub if-none :
    (P : Group.State → Type 0) (b : Bool) (u : Group.State) {t : Group.State}
    → (b ≡ false → P u)
    → (if b then none else some u) ≡ some t
    → P t
if-none P true u f h = cc
if-none P false u f h = subst P (some-injective _ _ h) (f refl)

pub is_absent-of_writer : (w : Group.Writer) → is_absent (of_writer w) ≡ Group.Steps.is_absent w
is_absent-of_writer Group.Writer.absent = refl
is_absent-of_writer Group.Writer.open_now = refl
is_absent-of_writer Group.Writer.closed = refl

pub hung_up-of_writer :
    (w : Group.Writer)
    → of_writer (if Group.Steps.is_absent w then Group.Writer.absent else Group.Writer.closed)
      ≡ (if is_absent (of_writer w) then absent else closed)
hung_up-of_writer Group.Writer.absent = refl
hung_up-of_writer Group.Writer.open_now = refl
hung_up-of_writer Group.Writer.closed = refl

pub gone-of_five : (q : Group.Five) → gone (of_five q) ≡ Group.Steps.gone q
gone-of_five Group.Five.left = refl
gone-of_five _ = refl

pub strike-touched : (c : Bool) → is_untouched (Group.Steps.strike c) ≡ false
strike-touched true = refl
strike-touched false = refl

pub fates-sent :
    (a b c x y z : Bool) (f g h : Group.Fate)
    → (a || b || c) ≡ true
    → is_untouched (if a then Group.Steps.strike x else f)
        && (is_untouched (if b then Group.Steps.strike y else g)
            && is_untouched (if c then Group.Steps.strike z else h))
      ≡ false
fates-sent a b c x y z f g h e = ground arith

pub kill_result :
    (b : Bool) (u : Group.State) {t : Group.State}
    → (if b then some u else none) ≡ some t
    → (b ≡ true) × (u ≡ t)
kill_result true u h = (refl, some-injective _ _ h)
kill_result false u h = cc

-- A kill that succeeds hits a process.
pub struck-sent :
    (s t : Group.State) → Group.Steps.zero_at Group.Zero.send s ≡ some t → is_unsent t ≡ true → ⊥
unfolding Group.Steps.zero_at
struck-sent s t h u =
    let (some_hit, e) = kill_result (hit3 s || hit4 s || hit5 s) (struck s) h in
    let sent =
      fates-sent (hit3 s) (hit4 s) (hit5 s) s.caught3 s.caught4 s.caught5 s.fate3 s.fate4 s.fate5
        some_hit in
    let same : is_unsent (struck s) ≡ true = ap is_unsent e ∙ u in cc (sent, same)
