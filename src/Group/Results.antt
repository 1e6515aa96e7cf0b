-- ===== src/Group/Results.antt =====
-- What process 0 of signal_process_group.c signals.
use mathlib.Core.Path.{subst}
use mathlib.Core.Option.{some-injective}
use aup_assignments.Prelude.{
  eq_self, ℕ, ◌<◌, ◌≡◌, refl, Bool, true, false, none, some, arith, ◌&&◌, ◌||◌, if◌then◌else◌,
}
use aup_assignments.Prelude.Int.{ℤ, pos}
use aup_assignments.Unix.Pid.{pid_of}
use aup_assignments.Group.{send, State, p0, moves, Fate}
use aup_assignments.Group.Steps.{
  targets, strike, struck, alive3, alive4, alive5, hit3, hit4, hit5, zero_at, step, Reach,
}
use aup_assignments.Group.Invariant.{Reach-Inv}

-- In every reachable state in which process 0 is about to call kill, if the read of process 5 did not
-- fail, the shared value is the process id of process 3, and processes 3 and 5 are both in the group
-- of that number, which kill addresses.
pub kill_target :
    {l own home : ℕ} {fifo : Bool} {s : State}
    → 0 < l
    → Reach l own home fifo s
    → s.zero ≡ send
    → s.garbled ≡ false
    → (s.cell ≡ pos l) × (s.group3 ≡ l) × (s.group5 ≡ l)
kill_target {own} positive r at_send clean = ground (arith, Reach-Inv own positive r)

sent :
    (b : Bool) (s : State) {t : State}
    → (if b then some (struck s) else none) ≡ some t
    → struck s ≡ t
sent true s h = some-injective _ _ h
sent false s h = cc

-- A process that is hit by the signal suffers it.
struck_fate :
    (alive hit caught : Bool) (f : Fate)
    → alive ≡ true
    → hit ≡ true
    → (if alive && hit then strike caught else f) ≡ strike caught
struck_fate true true caught f a h = refl
struck_fate true false caught f a h = cc
struck_fate false hit caught f a h = cc

targets_lem :
    (b : Bool) (c : ℤ) (g l : ℕ) → b ≡ false → c ≡ pos l → g ≡ l → targets (pid_of b c) g ≡ true
targets_lem b c g l n h k = rw (n, h, k) (eq_self l)

send-struck : (s : State) {t : State} → s.zero ≡ send → zero_at s.zero s ≡ some t → struck s ≡ t
unfolding zero_at
send-struck s {t} e h = sent (hit3 s || hit4 s || hit5 s) s (subst (λ z. zero_at z s ≡ some t) e h)

-- If the read of process 5 did not fail, a successful kill reaches every process of the group: each
-- of processes 3 and 5 that is still running, and process 4 if it is running and was moved to the
-- group, runs its handler if it has one by then, and is ended by the signal if it has not.
pub signal_reaches :
    {l own home : ℕ} {fifo : Bool} {s t : State}
    → 0 < l
    → Reach l own home fifo s
    → s.zero ≡ send
    → s.garbled ≡ false
    → step l own (moves p0) s ≡ some t
    → (alive3 s.three ≡ true → t.fate3 ≡ strike s.caught3)
      × (alive4 s.four ≡ true → s.group4 ≡ l → t.fate4 ≡ strike s.caught4)
      × (alive5 s.five ≡ true → t.fate5 ≡ strike s.caught5)
unfolding step
signal_reaches {l} {s} positive r at_send clean h =
    let (c, g3, g5) = kill_target positive r at_send clean in
    subst
      (λ u.
        (alive3 s.three ≡ true → u.fate3 ≡ strike s.caught3)
        × (alive4 s.four ≡ true → s.group4 ≡ l → u.fate4 ≡ strike s.caught4)
        × (alive5 s.five ≡ true → u.fate5 ≡ strike s.caught5))
      (send-struck s at_send h)
      (
        (λ a.
            struck_fate _ _ s.caught3 s.fate3 a
              (targets_lem s.garbled s.cell s.group3 l clean c g3)),
        (λ a g4.
            struck_fate _ _ s.caught4 s.fate4 a
              (targets_lem s.garbled s.cell s.group4 l clean c g4)),
        (λ a.
            struck_fate _ _ s.caught5 s.fate5 a
              (targets_lem s.garbled s.cell s.group5 l clean c g5)),
      )
