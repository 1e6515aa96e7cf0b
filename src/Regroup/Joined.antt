-- ===== src/Regroup/Joined.antt =====
-- The group that process 5 of change_process_group.c joins.
use aup_assignments.Prelude.{ℕ, ◌<◌, ◌≡◌, refl, ◌⊎◌, Bool, true, false, Option, none, some, arith}
use aup_assignments.Prelude.Int.{ℤ, pos}
use aup_assignments.Regroup.{
  Three, leading, Five, opening, joining, State, p0, p3, p5, Event, moves, fails, garbles, zero_at,
  one_at, two_at, three_at, four_at, five_at, step, Reach, begin, later,
}

-- The variable of process 5 and its group behind the read.
abbrev ValueOk : ℕ → Bool → Five → ℤ → ℕ → ℕ → Type 0
ValueOk l true q v a b = Unit
ValueOk l false joining v a b = (v ≡ pos l) × (a ≡ l)
ValueOk l false Five.resting v a b = (a ≡ l) × (b ≡ l)
ValueOk l false _ v a b = Unit

abbrev PipeOk : ℕ → Option ℕ → ℕ → Type 0
PipeOk l none a = Unit
PipeOk l (some v) a = (v ≡ l) × (a ≡ l)

-- Process 3 is in its own group from its first setpgid on.
abbrev GroupOk : ℕ → Three → ℕ → Type 0
GroupOk l Three.unborn a = Unit
GroupOk l Three.forking a = Unit
GroupOk l leading a = Unit
GroupOk l Three.left a = Unit
GroupOk l _ a = a ≡ l

record Inv (l home : ℕ) (s : State) : Type 0 where
  value_ok : ValueOk l s.garbled s.five s.value s.group3 s.group5
  pipe_ok : PipeOk l s.pipe s.group3
  group_ok : GroupOk l s.three s.group3
  four_ok : (s.group4 ≡ l) ⊎ (s.group4 ≡ home)

module _ {l home : ℕ} where
  three_at-Inv :
      (q : Three) {s t : State}
      → s.three ≡ q
      → Inv l home s
      → three_at l q s ≡ some t
      → Inv l home t
  unfolding three_at
  three_at-Inv leading e v h = ground arith
  three_at-Inv _ e v h = ground arith

module _ {l home : ℕ} (own : ℕ) (positive : 0 < l) where
  five_at-Inv :
      (q : Five) {s t : State} → s.five ≡ q → Inv l home s → five_at own q s ≡ some t → Inv l home t
  unfolding five_at
  five_at-Inv opening e v h = ground arith
  five_at-Inv _ e v h = ground arith

  step-Inv : (e : Event) {s t : State} → Inv l home s → step l own e s ≡ some t → Inv l home t
  unfolding step zero_at one_at two_at four_at
  step-Inv (moves p3) {s} v h = three_at-Inv s.three refl v h
  step-Inv (moves p5) {s} v h = five_at-Inv s.five refl v h
  step-Inv (moves p0) {s} v h = ground arith
  step-Inv (moves _) {s} v h = ground arith
  step-Inv (fails p0) v h = ground arith
  step-Inv (fails _) v h = ground arith
  step-Inv (garbles x) v h = ground arith

  Reach-Inv : {fifo : Bool} {s : State} → Reach l own home fifo s → Inv l home s
  Reach-Inv begin = ground arith
  Reach-Inv (later e r h) = step-Inv e (Reach-Inv r) h

-- In every reachable state in which process 5 has come to its sleep, and its read did not fail, it is
-- in the process group of process 3, which is that of its process id; and process 4 is at all times
-- in that group or in the one in which all started.
pub same_group :
    {l own home : ℕ} {fifo : Bool} {s : State}
    → 0 < l
    → Reach l own home fifo s
    → (s.garbled ≡ false → s.five ≡ Five.resting → (s.group5 ≡ l) × (s.group3 ≡ l))
      × ((s.group4 ≡ l) ⊎ (s.group4 ≡ home))
same_group {own} {s} positive r =
    let v = Reach-Inv own positive r in ((λ c q. ground (arith, v)), ground (arith, v))
