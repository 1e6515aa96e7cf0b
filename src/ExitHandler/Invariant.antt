-- ===== src/ExitHandler/Invariant.antt =====
-- Handlers and positions of both processes, and the events that are left.
use aup_assignments.Prelude.{ℕ, ◌≡◌, refl, ◌⊎◌, Bool, some, List, [], ◌∷◌, arith}
use aup_assignments.Prelude.Systems.{Steps-keep}
use aup_assignments.ExitHandler.{
  Handler, Line, exit_handler, Parent, registering, forking, unregistered, refused, quitting,
  failed, Child, unborn, State, Event, parent_moves, child_moves, parent_fails, parent_at, child_at,
  step, Reach,
}

-- The child is there from the fork on.
abbrev pub BirthOk : Parent → Child → Type 0
BirthOk Parent.printing unborn = ⊥
BirthOk Parent.printing _ = Unit
BirthOk Parent.exiting unborn = ⊥
BirthOk Parent.exiting _ = Unit
BirthOk Parent.ended unborn = ⊥
BirthOk Parent.ended _ = Unit
BirthOk _ unborn = Unit
BirthOk _ _ = ⊥

-- At most the one handler, and which positions have it.
abbrev pub HandlersOk : Parent → List Handler → Type 0
HandlersOk registering hs = hs ≡ []
HandlersOk unregistered hs = hs ≡ []
HandlersOk forking hs = hs ≡ exit_handler ∷ []
HandlersOk Parent.printing hs = hs ≡ exit_handler ∷ []
HandlersOk Parent.exiting hs = (hs ≡ exit_handler ∷ []) ⊎ (hs ≡ [])
HandlersOk quitting hs = (hs ≡ exit_handler ∷ []) ⊎ (hs ≡ [])
HandlersOk _ hs = hs ≡ []

abbrev pub ChildHandlersOk : Child → List Handler → Type 0
ChildHandlersOk unborn hs = hs ≡ []
ChildHandlersOk Child.printing hs = hs ≡ exit_handler ∷ []
ChildHandlersOk Child.exiting hs = (hs ≡ exit_handler ∷ []) ⊎ (hs ≡ [])
ChildHandlersOk Child.ended hs = hs ≡ []

-- A process that has ended has written its buffer.
abbrev pub Flushed : Parent → List Line → Type 0
Flushed Parent.ended b = b ≡ []
Flushed refused b = b ≡ []
Flushed failed b = b ≡ []
Flushed _ b = Unit

abbrev pub ChildFlushed : Child → List Line → Type 0
ChildFlushed Child.ended b = b ≡ []
ChildFlushed unborn b = b ≡ []
ChildFlushed _ b = Unit

pub record Inv (s : State) : Type 0 where
  pub birth_ok : BirthOk s.parent s.child
  pub handlers_ok : HandlersOk s.parent s.parent_handlers
  pub child_handlers_ok : ChildHandlersOk s.child s.child_handlers
  pub flushed : Flushed s.parent s.parent_buf
  pub child_flushed : ChildFlushed s.child s.child_buf

module _ (now : Bool) where
  parent_at-Inv :
      (q : Parent) (hs : List Handler) {s t : State}
      → s.parent ≡ q
      → s.parent_handlers ≡ hs
      → Inv s
      → parent_at now q s ≡ some t
      → Inv t
  unfolding parent_at
  parent_at-Inv Parent.exiting [] e f v h = ground arith
  parent_at-Inv Parent.exiting (k ∷ hs) e f v h = ground arith
  parent_at-Inv quitting [] e f v h = ground arith
  parent_at-Inv quitting (k ∷ hs) e f v h = ground arith
  parent_at-Inv _ hs e f v h = ground arith

  child_at-Inv :
      (q : Child) (hs : List Handler) {s t : State}
      → s.child ≡ q
      → s.child_handlers ≡ hs
      → Inv s
      → child_at now q s ≡ some t
      → Inv t
  unfolding child_at
  child_at-Inv Child.exiting [] e f v h = ground arith
  child_at-Inv Child.exiting (k ∷ hs) e f v h = ground arith
  child_at-Inv _ hs e f v h = ground arith

  pub step-Inv : (e : Event) (s t : State) → Inv s → step now e s ≡ some t → Inv t
  unfolding step
  step-Inv parent_moves s t v h = parent_at-Inv s.parent s.parent_handlers refl refl v h
  step-Inv child_moves s t v h = child_at-Inv s.child s.child_handlers refl refl v h
  step-Inv (parent_fails e) s t v h = ground arith

  pub Reach-Inv : {n : ℕ} {s : State} → Reach now n s → Inv s
  Reach-Inv = Steps-keep Inv (ground arith) step-Inv
