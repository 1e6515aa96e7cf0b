-- ===== src/Group/Orders.antt =====
-- Orders of events in which signal_process_group.c goes wrong.
use mathlib.Core.Path.{subst}
use mathlib.Core.Option.{some-injective}
use aup_assignments.Prelude.{
  eq_self, ℕ, ◌<◌, ◌≡◌, refl, Bool, true, false, Option, none, some, List, [], ◌∷◌, arith, ◌==◌,
}
use aup_assignments.Prelude.Int.{pos, negsuc}
use aup_assignments.Group.{
  Zero, send, loop, closed, Middle, Three, Four, Five, State, p0, p1, p2, p3, p4, p5, Event, moves,
  alarm, init, killed, received, untouched,
}
use aup_assignments.Group.Steps.{struck, step, Reach, begin, later}

-- The state after a list of events.
abbrev pub run : ℕ → ℕ → List Event → Option State → Option State
run l own [] o = o
run l own (e ∷ es) none = none
run l own (e ∷ es) (some s) = run l own es (step l own e s)

run-Reach :
    {l own home : ℕ} {fifo : Bool} (es : List Event) (o : Option State) {t : State}
    → ((u : State) → o ≡ some u → Reach l own home fifo u)
    → run l own es o ≡ some t
    → Reach l own home fifo t
run-Reach [] o {t} r h = r t h
run-Reach (e ∷ es) none r h = cc
run-Reach {l} {own} (e ∷ es) (some s) r h =
    run-Reach es (step l own e s) (λ u k. later e (r s refl) k) h

init-Reach :
    {l own home : ℕ} {fifo : Bool} (u : State)
    → some (init home fifo) ≡ some u
    → Reach l own home fifo u
init-Reach u h = subst (Reach _ _ _ _) (some-injective _ _ h) begin

-- The events up to the store of process 5, at which processes 3 and 4 have their handlers.
abbrev pub to_store : List Event
to_store =
    moves p0
    ∷ moves p0
    ∷ moves p0
    ∷ moves p0
    ∷ moves p1
    ∷ moves p2
    ∷ moves p3
    ∷ moves p3
    ∷ moves p3
    ∷ moves p3
    ∷ moves p3
    ∷ moves p5
    ∷ moves p5
    ∷ moves p3
    ∷ moves p3
    ∷ moves p3
    ∷ moves p3
    ∷ moves p4
    ∷ moves p5
    ∷ moves p5
    ∷ moves p5
    ∷ []

abbrev pub stored : ℕ → ℕ → State
stored l home = record (init home true) {
  cell = pos l;
  armed = true;
  zero = loop;
  one = Middle.resting;
  two = Middle.resting;
  three = Three.resting;
  four = Four.resting;
  five = Five.catching;
  reader = true;
  writer = closed;
  group3 = l;
  group4 = l;
  group5 = l;
  value = pos l;
  caught3 = true;
  caught4 = true;
}

positive_test : (l : ℕ) → 0 < l → (l == 0) ≡ false
positive_test l h = ground arith

stored-Reach : (l own home : ℕ) (fifo : Bool) → 0 < l → Reach l own home fifo (stored l home)
unfolding step
stored-Reach l own home fifo h =
    run-Reach to_store (some (init home fifo)) init-Reach (rw (positive_test l h) refl)

abbrev pub stored_sent : ℕ → ℕ → State
stored_sent l home = record (stored l home) { zero = send; armed = false }

pub sent-Reach : (l own home : ℕ) (fifo : Bool) → 0 < l → Reach l own home fifo (stored_sent l home)
unfolding step
sent-Reach l own home fifo h =
    run-Reach (moves p0 ∷ moves p0 ∷ moves p0 ∷ []) (some (stored l home))
      (λ u k. subst (Reach _ _ _ _) (some-injective _ _ k) (stored-Reach l own home fifo h)) refl

-- Whatever process ids the system gives out, the signal of process 0 can end process 5, while it
-- reaches the handlers of processes 3 and 4: process 5 stores the group before it has installed its
-- handler.
pub store_before_handler :
    (l own home : ℕ) (fifo : Bool)
    → 0 < l
    → (s : State) × Reach l own home fifo s
      × (s.fate3 ≡ received)
      × (s.fate4 ≡ received)
      × (s.fate5 ≡ killed)
      × (s.caught5 ≡ false)
unfolding step
store_before_handler l own home fifo h = (
  struck (stored_sent l home),
  later (moves p0) (sent-Reach l own home fifo h) (rw (eq_self l) refl),
  rw (eq_self l) refl,
  rw (eq_self l) refl,
  rw (eq_self l) refl,
  refl,
)

-- Whatever process ids the system gives out, the alarm can go off after process 5 has stored the
-- group and before process 0 has called alarm(0): the shared value is -2 again, process 0 ends
-- without a signal, and the stored group is that of processes 3, 4 and 5.
alarm_overwrites :
    (l own home : ℕ) (fifo : Bool)
    → 0 < l
    → (s : State) × Reach l own home fifo s
      × (s.zero ≡ Zero.left)
      × (s.cell ≡ negsuc 1)
      × (s.value ≡ pos l)
      × (s.five ≡ Five.catching)
      × (s.group3 ≡ l)
      × (s.group4 ≡ l)
      × (s.group5 ≡ l)
      × (s.fate3 ≡ untouched)
      × (s.fate4 ≡ untouched)
      × (s.fate5 ≡ untouched)
unfolding step
alarm_overwrites l own home fifo h = (
  record (stored l home) { cell = negsuc 1; armed = false; zero = Zero.left },
  run-Reach (alarm ∷ moves p0 ∷ moves p0 ∷ moves p0 ∷ []) (some (stored l home))
      (λ u k. subst (Reach _ _ _ _) (some-injective _ _ k) (stored-Reach l own home fifo h)) refl,
  refl,
  refl,
  refl,
  refl,
  refl,
  refl,
  refl,
  refl,
  refl,
  refl,
)
