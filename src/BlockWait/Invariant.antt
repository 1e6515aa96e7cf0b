-- ===== src/BlockWait/Invariant.antt =====
-- The invariant of the parent that blocks SIGCHLD.
use aup_assignments.Prelude.{ℕ, ◌≡◌, refl, Bool, true, false, some, not, arith}
use aup_assignments.Prelude.Systems.{Steps-keep}
use aup_assignments.BlockWait.{
  Main, trapping, masking, sleeping, querying, testing, waiting, finished, unwaited, failed, Child,
  unborn, running, zombie, reaped, State, Event, main_moves, main_fails, child_exits, interrupt,
  main_at, fails_at, interrupt_at, step, Reach,
}

abbrev pub Alive : Child → Type 0
Alive running = Unit
Alive zombie = Unit
Alive _ = ⊥

abbrev pub ChildOk : Main → Child → Type 0
ChildOk sleeping c = Alive c
ChildOk querying c = Alive c
ChildOk testing c = Alive c
ChildOk waiting c = Alive c
ChildOk finished c = c ≡ reaped
ChildOk unwaited c = ⊥
ChildOk failed reaped = ⊥
ChildOk failed c = Unit
ChildOk _ c = c ≡ unborn

-- A SIGCHLD that is blocked stays pending from the end of the child on; one that is not is pending,
-- or its handler has run.
abbrev pub SignalOk : Bool → Child → Bool → Bool → Type 0
SignalOk b unborn p h = (p ≡ false) × (h ≡ false)
SignalOk b running p h = (p ≡ false) × (h ≡ false)
SignalOk true c p h = (p ≡ true) × (h ≡ false)
SignalOk false c p h = h ≡ not p

abbrev pub QueryOk : Child → Bool → Type 0
QueryOk unborn q = q ≡ false
QueryOk running q = q ≡ false
QueryOk c q = Unit

abbrev pub ShownOk : Main → Bool → Bool → Type 0
ShownOk waiting q s = s ≡ q
ShownOk finished q s = s ≡ q
ShownOk failed q s = Unit
ShownOk _ q s = s ≡ false

pub record Inv (s : State) : Type 0 where
  pub child_ok : ChildOk s.main s.child
  pub signal_ok : SignalOk s.blocked s.child s.pending s.caught
  pub query_ok : QueryOk s.child s.queried
  pub shown_ok : ShownOk s.main s.queried s.shown

main_at-Inv : (q : Main) {s t : State} → s.main ≡ q → Inv s → main_at q s ≡ some t → Inv t
unfolding main_at
main_at-Inv waiting e v h = ground arith
main_at-Inv _ e v h = ground arith

fails_at-Inv : (q : Main) {s t : State} → s.main ≡ q → Inv s → fails_at q s ≡ some t → Inv t
unfolding fails_at
fails_at-Inv masking e v h = ground arith
fails_at-Inv _ e v h = ground arith

interrupt_at-Inv : (q : Main) {s t : State} → s.main ≡ q → Inv s → interrupt_at q s ≡ some t → Inv t
unfolding interrupt_at
interrupt_at-Inv trapping e v h = ground arith
interrupt_at-Inv _ e v h = ground arith

pub step-Inv : (e : Event) {s t : State} → Inv s → step e s ≡ some t → Inv t
unfolding step
step-Inv main_moves {s} v h = main_at-Inv s.main refl v h
step-Inv main_fails {s} v h = fails_at-Inv s.main refl v h
step-Inv child_exits v h = ground arith
step-Inv interrupt {s} v h = interrupt_at-Inv s.main refl v h

pub Reach-Inv : {n : ℕ} {s : State} → Reach n s → Inv s
Reach-Inv = Steps-keep Inv (ground arith) (λ e s t v h. step-Inv e v h)
