-- ===== src/Group/Invariant.antt =====
-- The invariant of the six processes: how the group of process 3 travels to process 0.
use mathlib.Core.Path.{subst}
use mathlib.Core.Option.{some-injective}
use aup_assignments.Prelude.{
  ℕ, ◌≤◌, ◌<◌, ◌≡◌, refl, Bool, true, false, Option, none, some, arith, ◌||◌, if◌then◌else◌,
}
use aup_assignments.Prelude.Int.{ℤ, pos, negsuc, eqb_ℤ}
use aup_assignments.Group.{
  Zero, fork_one, loop, disarm, check, send, unmap, Middle, Three, leading, Four, Five, opening,
  joining, storing, State, Who, p0, p1, p2, p3, p4, p5, Event, moves, fails, alarm, garbles,
}
use aup_assignments.Group.Steps.{
  zero_at, one_at, two_at, three_at, four_at, five_at, struck, hit3, hit4, hit5, step, Reach, begin,
  later,
}

-- A group in shared memory is that of process 3, and both processes are in it.
abbrev pub CellOk : ℕ → Bool → ℤ → ℕ → ℕ → Type 0
CellOk l true c a b = Unit
CellOk l false (pos n) a b = (n ≡ l) × (a ≡ l) × (b ≡ l)
CellOk l false (negsuc n) a b = Unit

-- The variable of process 5 between its read and its store.
abbrev pub ValueOk : ℕ → Bool → Five → ℤ → ℕ → ℕ → Type 0
ValueOk l true q v a b = Unit
ValueOk l false joining v a b = (v ≡ pos l) × (a ≡ l)
ValueOk l false storing v a b = (v ≡ pos l) × (a ≡ l) × (b ≡ l)
ValueOk l false _ v a b = Unit

-- What process 5 stores is not negative, if its read did not fail.
abbrev pub StoreOk : Bool → Five → ℤ → Type 0
StoreOk false storing (negsuc n) = ⊥
StoreOk _ _ v = Unit

abbrev pub PipeOk : ℕ → Option ℕ → ℕ → Type 0
PipeOk l none a = Unit
PipeOk l (some v) a = (v ≡ l) × (a ≡ l)

-- Process 3 is in its own group from its first setpgid on.
abbrev pub GroupOk : ℕ → Three → ℕ → Type 0
GroupOk l Three.unborn a = Unit
GroupOk l Three.forking a = Unit
GroupOk l leading a = Unit
GroupOk l Three.left a = Unit
GroupOk l _ a = a ≡ l

-- Up to its store, process 5 has put no group into shared memory.
abbrev pub EarlyOk : Five → ℤ → Type 0
EarlyOk Five.catching c = Unit
EarlyOk Five.resting c = Unit
EarlyOk Five.left c = Unit
EarlyOk _ (pos n) = ⊥
EarlyOk _ (negsuc n) = Unit

-- The shared value as process 0 finds it behind its loop, and behind its test.
abbrev pub ZeroOk : Bool → Zero → ℤ → Type 0
ZeroOk false disarm c = eqb_ℤ c (negsuc 0) ≡ false
ZeroOk false check c = eqb_ℤ c (negsuc 0) ≡ false
ZeroOk false send (negsuc n) = ⊥
ZeroOk g _ c = Unit

-- The alarm is armed inside and right behind the loop only.
abbrev pub ArmedOk : Bool → Zero → Type 0
ArmedOk false z = Unit
ArmedOk true loop = Unit
ArmedOk true disarm = Unit
ArmedOk true _ = ⊥

abbrev pub NegativeOk : Bool → ℤ → Type 0
NegativeOk false (negsuc n) = n ≤ 1
NegativeOk _ c = Unit

-- Only a process that exists has read.
abbrev pub GarbledOk : Bool → Middle → Type 0
GarbledOk true m = m ≡ Middle.resting
GarbledOk false m = Unit

-- Process 5 does not exist before process 1 has forked.
abbrev pub BornOk : Zero → Middle → Five → Type 0
BornOk fork_one m q = (m ≡ Middle.unborn) × (q ≡ Five.unborn)
BornOk _ Middle.resting q = Unit
BornOk _ _ q = q ≡ Five.unborn

pub record Inv (l : ℕ) (s : State) : Type 0 where
  pub cell_ok : CellOk l s.garbled s.cell s.group3 s.group5
  pub value_ok : ValueOk l s.garbled s.five s.value s.group3 s.group5
  pub store_ok : StoreOk s.garbled s.five s.value
  pub pipe_ok : PipeOk l s.pipe s.group3
  pub group_ok : GroupOk l s.three s.group3
  pub early_ok : EarlyOk s.five s.cell
  pub zero_ok : ZeroOk s.garbled s.zero s.cell
  pub armed_ok : ArmedOk s.armed s.zero
  pub born_ok : BornOk s.zero s.one s.five
  pub negative_ok : NegativeOk s.garbled s.cell
  pub garbled_ok : GarbledOk s.garbled s.one

-- A process that has ended is under no obligation.
ended :
    (P : Five → Type 0) (b : Bool) (q : Five) → P q → P Five.left → P (if b then Five.left else q)
ended P true q h k = k
ended P false q h k = h

ended3 :
    (P : Three → Type 0) (b : Bool) (q : Three)
    → P q
    → P Three.left
    → P (if b then Three.left else q)
ended3 P true q h k = k
ended3 P false q h k = h

ValueOk-left : (l : ℕ) (g : Bool) (v : ℤ) (a b : ℕ) → ValueOk l g Five.left v a b
ValueOk-left l true v a b = tt
ValueOk-left l false v a b = tt

StoreOk-left : (g : Bool) (v : ℤ) → StoreOk g Five.left v
StoreOk-left true v = tt
StoreOk-left false v = tt

ZeroOk-unmap : (g : Bool) (c : ℤ) → ZeroOk g unmap c
ZeroOk-unmap true c = tt
ZeroOk-unmap false c = tt

BornOk-unmap :
    (z : Zero) (m : Middle) (q : Five) (b g : Bool) (c : ℤ)
    → z ≡ send
    → GarbledOk g m
    → ZeroOk g z c
    → EarlyOk q c
    → BornOk z m q
    → BornOk unmap m (if b then Five.left else q)
BornOk-unmap z Middle.unborn q b g c e o h k n = ground arith
BornOk-unmap z Middle.forking q b g c e o h k n = ground arith
BornOk-unmap z Middle.resting q b g c e o h k n = tt

ArmedOk-unmap : (b : Bool) (z : Zero) → z ≡ send → ArmedOk b z → ArmedOk b unmap
ArmedOk-unmap b z e h = ground arith

-- The signal ends processes, and changes nothing else that the invariant reads.
struck-Inv : {l : ℕ} {s : State} → s.zero ≡ send → Inv l s → Inv l (struck s)
struck-Inv {l} {s} e v = record {
  cell_ok = v.cell_ok;
  value_ok =
      ended (λ q. ValueOk l s.garbled q s.value s.group3 s.group5) _ s.five v.value_ok
        (ValueOk-left l s.garbled s.value s.group3 s.group5);
  store_ok =
      ended (λ q. StoreOk s.garbled q s.value) _ s.five v.store_ok (StoreOk-left s.garbled s.value);
  pipe_ok = v.pipe_ok;
  group_ok = ended3 (λ q. GroupOk l q s.group3) _ s.three v.group_ok tt;
  early_ok = ended (λ q. EarlyOk q s.cell) _ s.five v.early_ok tt;
  zero_ok = ZeroOk-unmap s.garbled s.cell;
  armed_ok = ArmedOk-unmap s.armed s.zero e v.armed_ok;
  born_ok =
      BornOk-unmap s.zero s.one s.five _ s.garbled s.cell e v.garbled_ok v.zero_ok v.early_ok
        v.born_ok;
  negative_ok = v.negative_ok;
  garbled_ok = v.garbled_ok;
}

send-Inv :
    {l : ℕ} {s t : State} (b : Bool)
    → s.zero ≡ send
    → Inv l s
    → (if b then some (struck s) else none) ≡ some t
    → Inv l t
send-Inv true e v h = subst (Inv _) (some-injective _ _ h) (struck-Inv e v)
send-Inv false e v h = cc

module _ {l : ℕ} where
  zero_at-Inv : (q : Zero) {s t : State} → s.zero ≡ q → Inv l s → zero_at q s ≡ some t → Inv l t
  unfolding zero_at
  zero_at-Inv fork_one e v h = ground arith
  zero_at-Inv send {s} e v h = send-Inv (hit3 s || hit4 s || hit5 s) e v h
  zero_at-Inv _ e v h = ground arith

  one_at-Inv : (q : Middle) {s t : State} → s.one ≡ q → Inv l s → one_at q s ≡ some t → Inv l t
  unfolding one_at
  one_at-Inv Middle.forking e v h = ground arith
  one_at-Inv _ e v h = ground arith

  two_at-Inv : (q : Middle) {s t : State} → Inv l s → two_at q s ≡ some t → Inv l t
  unfolding two_at
  two_at-Inv Middle.forking v h = ground arith
  two_at-Inv _ v h = ground arith

  three_at-Inv :
      (q : Three) {s t : State} → s.three ≡ q → Inv l s → three_at l q s ≡ some t → Inv l t
  unfolding three_at
  three_at-Inv leading e v h = ground arith
  three_at-Inv _ e v h = ground arith

  four_at-Inv : (q : Four) {s t : State} → Inv l s → four_at q s ≡ some t → Inv l t
  unfolding four_at
  four_at-Inv Four.catching v h = ground arith
  four_at-Inv _ v h = ground arith

module _ {l : ℕ} (own : ℕ) (positive : 0 < l) where
  five_at-Inv : (q : Five) {s t : State} → s.five ≡ q → Inv l s → five_at own q s ≡ some t → Inv l t
  unfolding five_at
  five_at-Inv opening e v h = ground arith
  five_at-Inv _ e v h = ground arith

  fails-Inv : (w : Who) {s t : State} → Inv l s → step l own (fails w) s ≡ some t → Inv l t
  unfolding step
  fails-Inv p0 v h = ground arith
  fails-Inv _ v h = ground arith

  alarm-Inv : {s t : State} → Inv l s → step l own alarm s ≡ some t → Inv l t
  unfolding step
  alarm-Inv v h = ground arith

  garbles-Inv : (x : ℤ) {s t : State} → Inv l s → step l own (garbles x) s ≡ some t → Inv l t
  unfolding step
  garbles-Inv x v h = ground arith

  step-Inv : (e : Event) {s t : State} → Inv l s → step l own e s ≡ some t → Inv l t
  unfolding step
  step-Inv (moves p0) {s} v h = zero_at-Inv s.zero refl v h
  step-Inv (moves p1) {s} v h = one_at-Inv s.one refl v h
  step-Inv (moves p2) {s} v h = two_at-Inv s.two v h
  step-Inv (moves p3) {s} v h = three_at-Inv s.three refl v h
  step-Inv (moves p4) {s} v h = four_at-Inv s.four v h
  step-Inv (moves p5) {s} v h = five_at-Inv s.five refl v h
  step-Inv (fails w) v h = fails-Inv w v h
  step-Inv alarm v h = alarm-Inv v h
  step-Inv (garbles x) v h = garbles-Inv x v h

  pub Reach-Inv : {home : ℕ} {fifo : Bool} {s : State} → Reach l own home fifo s → Inv l s
  Reach-Inv begin = ground arith
  Reach-Inv (later e r h) = step-Inv e (Reach-Inv r) h
