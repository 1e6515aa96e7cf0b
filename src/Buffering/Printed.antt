-- ===== src/Buffering/Printed.antt =====
-- What the three processes have written line by line, at every position they can be at.
use mathlib.Core.Path.{subst}
use mathlib.Core.Option.{some-injective}
use aup_assignments.Prelude.{
  ℕ, ◌≡◌, Bool, true, false, none, some, List, [], ◌∷◌, ◌++◌, arith, if◌then◌else◌,
}
use aup_assignments.Buffering.{Root, Middle, Leaf, State, middle_over, root_at, middle_at, leaf_at}
use aup_assignments.Buffering.Full.{RootOk, MiddleOk}
use aup_assignments.Prelude.Shuffle.{Shuffle, Shuffle-last_right}

abbrev pub zeros : Root → List ℕ
zeros Root.forking = []
zeros Root.printing = []
zeros _ = 0 ∷ []

abbrev pub twos : Middle → List ℕ
twos Middle.unborn = []
twos Middle.forking = []
twos Middle.printing = []
twos _ = 2 ∷ []

abbrev pub fours : Leaf → List ℕ
fours Leaf.exiting = 4 ∷ []
fours Leaf.ended = 4 ∷ []
fours _ = []

-- What the second and the third process have written.
abbrev pub Under : Middle → Leaf → List ℕ → Type 0
Under Middle.exiting l ys = (w : List ℕ) × (ys ≡ w ++ 3 ∷ []) × Shuffle (2 ∷ []) (fours l) w
Under Middle.ended l ys = (w : List ℕ) × (ys ≡ w ++ 3 ∷ []) × Shuffle (2 ∷ []) (fours l) w
Under m l ys = Shuffle (twos m) (fours l) ys

-- What all have written.
abbrev pub Whole : Root → Middle → Leaf → List ℕ → Type 0
Whole Root.exiting m l out =
    (w : List ℕ) × (ys : List ℕ) × (out ≡ w ++ 1 ∷ []) × Under m l ys × Shuffle (0 ∷ []) ys w
Whole Root.ended m l out =
    (w : List ℕ) × (ys : List ℕ) × (out ≡ w ++ 1 ∷ []) × Under m l ys × Shuffle (0 ∷ []) ys w
Whole r m l out = (ys : List ℕ) × Under m l ys × Shuffle (zeros r) ys out

pub record Quiet (s : State) : Type 0 where
  pub root_ok : RootOk s.root s.middle
  pub middle_ok : MiddleOk s.middle s.leaf
  pub root_buf_ok : s.root_buf ≡ []
  pub middle_buf_ok : s.middle_buf ≡ []
  pub leaf_buf_ok : s.leaf_buf ≡ []

pub root_at-Quiet :
    (q : Root) {s t : State} → s.root ≡ q → Quiet s → root_at true q s ≡ some t → Quiet t
unfolding root_at
root_at-Quiet Root.waiting e v h = ground arith
root_at-Quiet _ e v h = ground arith

pub middle_at-Quiet :
    (q : Middle) {s t : State} → s.middle ≡ q → Quiet s → middle_at true q s ≡ some t → Quiet t
unfolding middle_at
middle_at-Quiet Middle.waiting e v h = ground arith
middle_at-Quiet _ e v h = ground arith

pub leaf_at-Quiet :
    (q : Leaf) {s t : State} → s.leaf ≡ q → Quiet s → leaf_at true q s ≡ some t → Quiet t
unfolding leaf_at
leaf_at-Quiet Leaf.printing e v h = ground arith
leaf_at-Quiet _ e v h = ground arith

abbrev pub WholeOf : State → Type 0
WholeOf s = Whole s.root s.middle s.leaf s.out

pub guarded-Whole :
    (b : Bool) (u : State) {t : State}
    → WholeOf u
    → (if b then some u else none) ≡ some t
    → WholeOf t
guarded-Whole true u w h = subst WholeOf (some-injective _ _ h) w
guarded-Whole false u w h = cc

-- The first process may be at any position while the others write nothing.
pub keep-Whole :
    (r : Root) (m m' : Middle) (l l' : Leaf) (out : List ℕ)
    → ((ys : List ℕ) → Under m l ys → Under m' l' ys)
    → Whole r m l out
    → Whole r m' l' out
keep-Whole Root.exiting m m' l l' out f (w, ys, e, u, sh) = (w, ys, e, f ys u, sh)
keep-Whole Root.ended m m' l l' out f (w, ys, e, u, sh) = (w, ys, e, f ys u, sh)
keep-Whole Root.forking m m' l l' out f (ys, u, sh) = (ys, f ys u, sh)
keep-Whole Root.printing m m' l l' out f (ys, u, sh) = (ys, f ys u, sh)
keep-Whole Root.waiting m m' l l' out f (ys, u, sh) = (ys, f ys u, sh)
keep-Whole Root.finishing m m' l l' out f (ys, u, sh) = (ys, f ys u, sh)

-- While the second process runs, the first has not come out of wait, and a line goes to the end.
pub print-Whole :
    (r : Root) (m m' : Middle) (l l' : Leaf) (out : List ℕ) (x : ℕ)
    → RootOk r m
    → middle_over m ≡ false
    → ((ys : List ℕ) → Under m l ys → Under m' l' (ys ++ x ∷ []))
    → Whole r m l out
    → Whole r m' l' (out ++ x ∷ [])
print-Whole Root.exiting m m' l l' out x o n f w = cc
print-Whole Root.ended m m' l l' out x o n f w = cc
print-Whole Root.finishing m m' l l' out x o n f w = cc
print-Whole Root.forking m m' l l' out x o n f (ys, u, sh) =
    (ys ++ x ∷ [], f ys u, Shuffle-last_right x sh)
print-Whole Root.printing m m' l l' out x o n f (ys, u, sh) =
    (ys ++ x ∷ [], f ys u, Shuffle-last_right x sh)
print-Whole Root.waiting m m' l l' out x o n f (ys, u, sh) =
    (ys ++ x ∷ [], f ys u, Shuffle-last_right x sh)
