-- ===== src/Buffering/Full.antt =====
-- The output where the buffers are emptied at the ends of the processes only.
use aup_assignments.Prelude.{ℕ, ◌≡◌, refl, Bool, true, false, some, List, [], ◌∷◌, ◌++◌, arith}
use aup_assignments.Buffering.{
  Root, Middle, Leaf, State, Event, root_moves, middle_moves, leaf_moves, root_fails, middle_fails,
  eager, middle_over, leaf_over, root_at, middle_at, leaf_at, step, Reach, begin, later,
}

-- What each buffer holds at a position.
abbrev RootBuf : Root → List ℕ → Type 0
RootBuf Root.forking b = b ≡ []
RootBuf Root.printing b = b ≡ []
RootBuf Root.waiting b = b ≡ 0 ∷ []
RootBuf Root.finishing b = b ≡ 0 ∷ []
RootBuf Root.exiting b = b ≡ 0 ∷ 1 ∷ []
RootBuf Root.ended b = b ≡ []

abbrev MiddleBuf : Middle → List ℕ → Type 0
MiddleBuf Middle.unborn b = b ≡ []
MiddleBuf Middle.forking b = b ≡ []
MiddleBuf Middle.printing b = b ≡ []
MiddleBuf Middle.waiting b = b ≡ 2 ∷ []
MiddleBuf Middle.finishing b = b ≡ 2 ∷ []
MiddleBuf Middle.exiting b = b ≡ 2 ∷ 3 ∷ []
MiddleBuf Middle.ended b = b ≡ []

abbrev LeafBuf : Leaf → List ℕ → Type 0
LeafBuf Leaf.exiting b = b ≡ 4 ∷ []
LeafBuf _ b = b ≡ []

-- A process comes out of wait when its child has ended, if it has one.
abbrev pub RootOk : Root → Middle → Type 0
RootOk Root.forking m = m ≡ Middle.unborn
RootOk Root.printing m = Unit
RootOk Root.waiting m = Unit
RootOk _ m = middle_over m ≡ true

abbrev pub MiddleOk : Middle → Leaf → Type 0
MiddleOk Middle.unborn l = l ≡ Leaf.unborn
MiddleOk Middle.forking l = l ≡ Leaf.unborn
MiddleOk Middle.printing l = Unit
MiddleOk Middle.waiting l = Unit
MiddleOk _ l = leaf_over l ≡ true

abbrev of_leaf : Leaf → List ℕ
of_leaf Leaf.ended = 4 ∷ []
of_leaf _ = []

abbrev of_middle : Middle → List ℕ
of_middle Middle.ended = 2 ∷ 3 ∷ []
of_middle _ = []

abbrev of_root : Root → List ℕ
of_root Root.ended = 0 ∷ 1 ∷ []
of_root _ = []

pub record Inv (s : State) : Type 0 where
  pub root_ok : RootOk s.root s.middle
  pub middle_ok : MiddleOk s.middle s.leaf
  pub root_buf_ok : RootBuf s.root s.root_buf
  pub middle_buf_ok : MiddleBuf s.middle s.middle_buf
  pub leaf_buf_ok : LeafBuf s.leaf s.leaf_buf
  pub out_ok : s.out ≡ of_leaf s.leaf ++ (of_middle s.middle ++ of_root s.root)

root_at-Inv : (q : Root) {s t : State} → s.root ≡ q → Inv s → root_at false q s ≡ some t → Inv t
unfolding root_at
root_at-Inv Root.waiting e v h = ground arith
root_at-Inv _ e v h = ground arith

middle_at-Inv :
    (q : Middle) {s t : State} → s.middle ≡ q → Inv s → middle_at false q s ≡ some t → Inv t
unfolding middle_at
middle_at-Inv Middle.waiting e v h = ground arith
middle_at-Inv _ e v h = ground arith

leaf_at-Inv : (q : Leaf) {s t : State} → s.leaf ≡ q → Inv s → leaf_at false q s ≡ some t → Inv t
unfolding leaf_at
leaf_at-Inv Leaf.printing e v h = ground arith
leaf_at-Inv _ e v h = ground arith

step-Inv : (e : Event) {s t : State} → Inv s → step false e s ≡ some t → Inv t
unfolding step
step-Inv root_moves {s} v h = root_at-Inv s.root refl v h
step-Inv middle_moves {s} v h = middle_at-Inv s.middle refl v h
step-Inv leaf_moves {s} v h = leaf_at-Inv s.leaf refl v h
step-Inv root_fails v h = ground arith
step-Inv middle_fails v h = ground arith

pub Reach-Inv :
    {tty no_newline : Bool} {n : ℕ} {s : State}
    → eager tty no_newline ≡ false
    → Reach tty no_newline n s
    → Inv s
Reach-Inv lazy begin = ground arith
Reach-Inv lazy (later e r h) = step-Inv e (Reach-Inv lazy r) (rw lazy at h)
