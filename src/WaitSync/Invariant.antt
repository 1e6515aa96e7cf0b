-- ===== src/WaitSync/Invariant.antt =====
-- The invariant of the parent that waits twice: which wait has got the child.
use aup_assignments.Prelude.{ℕ, ◌≡◌, refl, Bool, true, false, Option, none, some, arith}
use aup_assignments.Prelude.Systems.{Steps-keep}
use aup_assignments.WaitSync.{
  Main, trapping, forking, waiting, telling, exited, Handler, idle, in_wait, reporting, Child,
  unborn, asleep, reaped, State, Event, main_moves, main_fails, child_exits, interrupt,
  handler_moves, main_at, main_step, handler_at, step, Reach,
}

-- The child exists from the fork on, if `main` has not ended before it.
abbrev pub BornOk : Main → Child → Option Bool → Type 0
BornOk trapping c w = c ≡ unborn
BornOk forking c w = c ≡ unborn
BornOk exited unborn w = w ≡ none
BornOk exited c w = Unit
BornOk _ unborn w = ⊥
BornOk _ c w = Unit

abbrev pub Failed : Option Bool → Type 0
Failed (some true) = ⊥
Failed _ = Unit

-- Exactly one wait has succeeded once the child is waited for, and none before that has returned.
abbrev pub ReapedOk : Child → Option Bool → Option Bool → Type 0
ReapedOk reaped (some true) h = Failed h
ReapedOk reaped p h = h ≡ some true
ReapedOk _ p h = (p ≡ none) × (h ≡ none)

abbrev pub ReturnedOk : Main → Child → Option Bool → Type 0
ReturnedOk telling c none = ⊥
ReturnedOk exited unborn w = Unit
ReturnedOk exited c none = ⊥
ReturnedOk telling c w = Unit
ReturnedOk exited c w = Unit
ReturnedOk _ c w = w ≡ none

-- There is one SIGCHLD: while it is pending the handler has not begun.
abbrev pub SignalOk : Bool → Handler → Child → Option Bool → Type 0
SignalOk true h unborn w = ⊥
SignalOk true h asleep w = ⊥
SignalOk true h c w = (h ≡ idle) × (w ≡ none)
SignalOk false idle c w = Unit
SignalOk false h unborn w = ⊥
SignalOk false h asleep w = ⊥
SignalOk false reporting c none = ⊥
SignalOk false reporting c w = Unit
SignalOk false h c w = w ≡ none

abbrev pub RunningOk : Handler → Main → Type 0
RunningOk idle q = Unit
RunningOk h exited = ⊥
RunningOk h q = Unit

pub record Inv (s : State) : Type 0 where
  pub born : BornOk s.main s.child s.parent_wait
  pub once : ReapedOk s.child s.parent_wait s.handler_wait
  pub returned : ReturnedOk s.main s.child s.parent_wait
  pub signal : SignalOk s.pending s.handler s.child s.handler_wait
  pub running : RunningOk s.handler s.main

main_at-Inv :
    (q : Main) {s t : State} → s.main ≡ q → s.handler ≡ idle → Inv s → main_at q s ≡ some t → Inv t
unfolding main_at
main_at-Inv waiting e i v h = ground arith
main_at-Inv _ e i v h = ground arith

handler_at-Inv :
    (q : Handler) {s t : State} → s.handler ≡ q → Inv s → handler_at q s ≡ some t → Inv t
unfolding handler_at
handler_at-Inv in_wait e v h = ground arith
handler_at-Inv _ e v h = ground arith

main_step-Inv : (k : Handler) {s t : State} → s.handler ≡ k → Inv s → main_step k s ≡ some t → Inv t
unfolding main_step
main_step-Inv idle {s} e v h = main_at-Inv s.main refl e v h
main_step-Inv _ e v h = cc

pub step-Inv : (e : Event) {s t : State} → Inv s → step e s ≡ some t → Inv t
unfolding step
step-Inv main_moves {s} v h = main_step-Inv s.handler refl v h
step-Inv handler_moves {s} v h = handler_at-Inv s.handler refl v h
step-Inv main_fails v h = ground arith
step-Inv child_exits v h = ground arith
step-Inv interrupt v h = ground arith

pub Reach-Inv : {n : ℕ} {s : State} → Reach n s → Inv s
Reach-Inv = Steps-keep Inv (ground arith) (λ e s t v h. step-Inv e v h)
