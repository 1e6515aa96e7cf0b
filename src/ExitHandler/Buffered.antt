-- ===== src/ExitHandler/Buffered.antt =====
-- The output when standard output is not a terminal: it is written at the exits.
use aup_assignments.Prelude.{ℕ, ◌≡◌, refl, ◌⊎◌, false, some, List, [], ◌∷◌, arith}
use aup_assignments.Prelude.Systems.{Steps-keep}
use aup_assignments.ExitHandler.{
  Handler, Line, handled, child_done, parent_done, Parent, quitting, failed, Child, State, Event,
  parent_moves, child_moves, parent_fails, parent_at, child_at, step, Reach,
}
use aup_assignments.ExitHandler.Invariant.{Inv, step-Inv}
use aup_assignments.ExitHandler.Whole.{parent_lines, child_lines}

-- The buffers hold all lines until the end.
abbrev pub parent_kept : Parent → List Handler → List Line
parent_kept Parent.ended hs = []
parent_kept failed hs = []
parent_kept q hs = parent_lines q hs

abbrev pub child_kept : Child → List Handler → List Line
child_kept Child.ended hs = []
child_kept q hs = child_lines q hs

-- What has been written by those that have ended.
abbrev pub OutOk : Parent → Child → List Line → Type 0
OutOk Parent.ended Child.ended out =
    (out ≡ parent_done ∷ handled ∷ child_done ∷ handled ∷ [])
    ⊎ (out ≡ child_done ∷ handled ∷ parent_done ∷ handled ∷ [])
OutOk Parent.ended _ out = out ≡ parent_done ∷ handled ∷ []
OutOk failed _ out = out ≡ handled ∷ []
OutOk _ Child.ended out = out ≡ child_done ∷ handled ∷ []
OutOk _ _ out = out ≡ []

pub record Kept (s : State) : Type 0 where
  pub inv : Inv s
  pub parent_buf_ok : s.parent_buf ≡ parent_kept s.parent s.parent_handlers
  pub child_buf_ok : s.child_buf ≡ child_kept s.child s.child_handlers
  pub out_ok : OutOk s.parent s.child s.out

abbrev Rest : State → Type 0
Rest s =
    (s.parent_buf ≡ parent_kept s.parent s.parent_handlers)
    × (s.child_buf ≡ child_kept s.child s.child_handlers)
    × OutOk s.parent s.child s.out

parent_at-Rest :
    (q : Parent) (hs : List Handler) (c : Child) {s t : State}
    → s.parent ≡ q
    → s.parent_handlers ≡ hs
    → s.child ≡ c
    → Kept s
    → parent_at false q s ≡ some t
    → Rest t
unfolding parent_at
parent_at-Rest Parent.exiting [] Child.ended e f g v h = ground arith
parent_at-Rest Parent.exiting [] c e f g v h = ground arith
parent_at-Rest Parent.exiting (k ∷ hs) c e f g v h = ground arith
parent_at-Rest quitting [] c e f g v h = ground arith
parent_at-Rest quitting (k ∷ hs) c e f g v h = ground arith
parent_at-Rest _ hs c e f g v h = ground arith

child_at-Rest :
    (q : Child) (hs : List Handler) (p : Parent) {s t : State}
    → s.child ≡ q
    → s.child_handlers ≡ hs
    → s.parent ≡ p
    → Kept s
    → child_at false q s ≡ some t
    → Rest t
unfolding child_at
child_at-Rest Child.exiting [] Parent.ended e f g v h = ground arith
child_at-Rest Child.exiting [] p e f g v h = ground arith
child_at-Rest Child.exiting (k ∷ hs) p e f g v h = ground arith
child_at-Rest _ hs p e f g v h = ground arith

step-Rest : (e : Event) (s t : State) → Kept s → step false e s ≡ some t → Rest t
unfolding step
step-Rest parent_moves s t v h =
    parent_at-Rest s.parent s.parent_handlers s.child refl refl refl v h
step-Rest child_moves s t v h = child_at-Rest s.child s.child_handlers s.parent refl refl refl v h
step-Rest (parent_fails e) s t v h = ground arith

pub Reach-Kept : {n : ℕ} {s : State} → Reach false n s → Kept s
Reach-Kept = Steps-keep Kept (ground arith) (λ e s t v h.
    let (p, c, o) = step-Rest e s t v h in
    record { inv = step-Inv false e s t v.inv h; parent_buf_ok = p; child_buf_ok = c; out_ok = o })
