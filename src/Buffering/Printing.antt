-- ===== src/Buffering/Printing.antt =====
-- What each step of a process writes when each line is written at once.
use mathlib.Core.Path.{subst}
use mathlib.Core.Option.{some-injective}
use aup_assignments.Prelude.{ℕ, ◌≡◌, refl, append-nil, true, false, some, List, [], ◌∷◌, ◌++◌}
use aup_assignments.Buffering.{
  Root, Middle, Leaf, State, middle_over, leaf_over, root_at, middle_at, leaf_at, root_fails_at,
  middle_fails_at,
}
use aup_assignments.Buffering.Full.{RootOk, MiddleOk}
use aup_assignments.Prelude.Shuffle.{Shuffle-last_left, Shuffle-last_right}
use aup_assignments.Buffering.Printed.{
  Under, Whole, WholeOf, guarded-Whole, keep-Whole, print-Whole,
}

pub root_at-Whole :
    (q : Root) (s : State) {t : State}
    → RootOk q s.middle
    → s.root_buf ≡ []
    → Whole q s.middle s.leaf s.out
    → root_at true q s ≡ some t
    → WholeOf t
unfolding root_at
root_at-Whole Root.forking s o b w h = subst WholeOf (some-injective _ _ h) (rw o at w)
root_at-Whole Root.printing s o b (ys, u, sh) h =
    subst WholeOf (some-injective _ _ h) (ys, u, rw b (Shuffle-last_left 0 sh))
root_at-Whole Root.waiting s o b w h =
    guarded-Whole (middle_over s.middle) (record s { root = Root.finishing }) w h
root_at-Whole Root.finishing s o b (ys, u, sh) h =
    subst WholeOf (some-injective _ _ h) (s.out, ys, rw b refl, u, sh)
root_at-Whole Root.exiting s o b w h =
    subst WholeOf (some-injective _ _ h) (rw (b, append-nil s.out) w)
root_at-Whole Root.ended s o b w h = cc

pub middle_at-Whole :
    (q : Middle) (s : State) {t : State}
    → RootOk s.root q
    → MiddleOk q s.leaf
    → s.middle_buf ≡ []
    → Whole s.root q s.leaf s.out
    → middle_at true q s ≡ some t
    → WholeOf t
unfolding middle_at
middle_at-Whole Middle.unborn s o k b w h = cc
middle_at-Whole Middle.forking s o k b w h = subst WholeOf (some-injective _ _ h) (
    keep-Whole s.root Middle.forking Middle.printing s.leaf Leaf.printing s.out (λ ys u. rw k at u)
      w)
middle_at-Whole Middle.printing s o k b w h = subst WholeOf (some-injective _ _ h) (
    rw b (
      print-Whole s.root Middle.printing Middle.waiting s.leaf s.leaf s.out 2 o refl
        (λ ys u. Shuffle-last_left 2 u) w))
middle_at-Whole Middle.waiting s o k b w h =
    guarded-Whole (leaf_over s.leaf) (record s { middle = Middle.finishing })
      (keep-Whole s.root Middle.waiting Middle.finishing s.leaf s.leaf s.out (λ ys u. u) w) h
middle_at-Whole Middle.finishing s o k b w h = subst WholeOf (some-injective _ _ h) (
    rw b (
      print-Whole s.root Middle.finishing Middle.exiting s.leaf s.leaf s.out 3 o refl
        (λ ys u. (ys, refl, u)) w))
middle_at-Whole Middle.exiting s o k b w h = subst WholeOf (some-injective _ _ h) (
    rw (b, append-nil s.out)
      (keep-Whole s.root Middle.exiting Middle.ended s.leaf s.leaf s.out (λ ys u. u) w))
middle_at-Whole Middle.ended s o k b w h = cc

pub leaf-Under :
    (m : Middle) (ys : List ℕ)
    → MiddleOk m Leaf.printing
    → Under m Leaf.printing ys
    → Under m Leaf.exiting (ys ++ 4 ∷ [])
leaf-Under Middle.printing ys o u = Shuffle-last_right 4 u
leaf-Under Middle.waiting ys o u = Shuffle-last_right 4 u
leaf-Under Middle.unborn ys o u = cc
leaf-Under _ ys o u = cc

pub leaf_end-Under : (m : Middle) (ys : List ℕ) → Under m Leaf.exiting ys → Under m Leaf.ended ys
leaf_end-Under Middle.exiting ys u = u
leaf_end-Under _ ys u = u

pub running : (m : Middle) → MiddleOk m Leaf.printing → middle_over m ≡ false
running Middle.ended o = cc
running Middle.unborn o = cc
running _ o = refl

pub leaf_at-Whole :
    (q : Leaf) (s : State) {t : State}
    → RootOk s.root s.middle
    → MiddleOk s.middle q
    → s.leaf_buf ≡ []
    → Whole s.root s.middle q s.out
    → leaf_at true q s ≡ some t
    → WholeOf t
unfolding leaf_at
leaf_at-Whole Leaf.unborn s o k b w h = cc
leaf_at-Whole Leaf.printing s o k b w h = subst WholeOf (some-injective _ _ h) (
    rw b (
      print-Whole s.root s.middle s.middle Leaf.printing Leaf.exiting s.out 4 o (running s.middle k)
        (λ ys u. leaf-Under s.middle ys k u) w))
leaf_at-Whole Leaf.exiting s o k b w h = subst WholeOf (some-injective _ _ h) (
    rw (b, append-nil s.out)
      (keep-Whole s.root s.middle s.middle Leaf.exiting Leaf.ended s.out (leaf_end-Under s.middle)
        w))
leaf_at-Whole Leaf.ended s o k b w h = cc

pub root_fails-Whole :
    (q : Root) (s : State) {t : State}
    → Whole q s.middle s.leaf s.out
    → root_fails_at q s ≡ some t
    → WholeOf t
root_fails-Whole Root.forking s w h = subst WholeOf (some-injective _ _ h) w
root_fails-Whole _ s w h = cc

pub middle_fails-Whole :
    (q : Middle) (s : State) {t : State}
    → Whole s.root q s.leaf s.out
    → middle_fails_at q s ≡ some t
    → WholeOf t
middle_fails-Whole Middle.forking s w h =
    subst WholeOf (some-injective _ _ h)
      (keep-Whole s.root Middle.forking Middle.printing s.leaf s.leaf s.out (λ ys u. u) w)
middle_fails-Whole _ s w h = cc
