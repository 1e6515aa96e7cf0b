-- ===== src/Counter/Invariant.antt =====
-- The invariant of the two counting threads.
use aup_assignments.Prelude.{
  ℕ, suc, zero, ◌+◌, ◌-◌, ◌≤◌, ◌<◌, ◌≡◌, ◌⊎◌, refl, Bool, true, false, some, List, [], ◌∷◌, arith,
}
use aup_assignments.Counter.{
  Pc, locking, testing, waiting, woken, signalling, unlocking, wanting, adding, printing, releasing,
  checking, returned, Owner, free, first, second, State, count_done, count_halt1, count_halt2,
  count1_at, count1, count2_at, count2, by_one, by_two, Reach, begin, later, stray,
}

-- Between lock and unlock of `condition_mutex`, outside pthread_cond_wait.
abbrev pub in_condition : Pc → Bool
in_condition testing = true
in_condition signalling = true
in_condition unlocking = true
in_condition _ = false

-- Between lock and unlock of `count_mutex`.
abbrev pub in_count : Pc → Bool
in_count adding = true
in_count printing = true
in_count releasing = true
in_count _ = false

abbrev pub OwnerOk : (Pc → Bool) → Owner → Pc → Pc → Type 0
OwnerOk inside free p q = (inside p ≡ false) × (inside q ≡ false)
OwnerOk inside first p q = (inside p ≡ true) × (inside q ≡ false)
OwnerOk inside second p q = (inside p ≡ false) × (inside q ≡ true)

-- 1 where the increment of the current round is still to come.
abbrev pub before : Pc → ℕ
before printing = 0
before releasing = 0
before checking = 0
before returned = 0
before _ = 1

-- 1 where the increment is done and not yet printed.
abbrev pub unprinted : Pc → ℕ
unprinted printing = 1
unprinted _ = 0

-- Positions that a thread never comes to.
abbrev pub OneOk : Pc → Type 0
OneOk signalling = ⊥
OneOk _ = Unit

abbrev pub TwoOk : Pc → Type 0
TwoOk waiting = ⊥
TwoOk woken = ⊥
TwoOk _ = Unit

-- A thread returns only when the count is complete.
abbrev pub DoneOk : Pc → ℕ → Type 0
DoneOk returned n = count_done ≤ n
DoneOk _ n = Unit

-- While the first thread waits, the second has not passed the test that would wake it.
abbrev pub HaltOk : Pc → Pc → ℕ → Type 0
HaltOk waiting unlocking n = (count_halt1 ≤ n) × (n ≤ count_halt2)
HaltOk waiting wanting n = (count_halt1 ≤ n) × (n ≤ count_halt2)
HaltOk waiting adding n = (count_halt1 ≤ n) × (n ≤ count_halt2)
HaltOk waiting returned n = ⊥
HaltOk waiting _ n = (count_halt1 ≤ n) × (n ≤ suc count_halt2)
HaltOk _ _ n = Unit

-- n, n - 1, …, 1
abbrev pub countdown : ℕ → List ℕ
countdown zero = []
countdown (suc n) = suc n ∷ countdown n

pub record Inv (s : State) : Type 0 where
  pub condition : OwnerOk in_condition s.condition_mutex s.one s.two
  pub counting : OwnerOk in_count s.count_mutex s.one s.two
  pub one_ok : OneOk s.one
  pub two_ok : TwoOk s.two
  pub limit : (s.count < count_done) ⊎ (s.count + before s.one + before s.two ≤ 11)
  pub done_one : DoneOk s.one s.count
  pub done_two : DoneOk s.two s.count
  pub halt : HaltOk s.one s.two s.count
  pub enough : unprinted s.one + unprinted s.two ≤ s.count
  pub printed : s.out ≡ countdown (s.count - (unprinted s.one + unprinted s.two))

countdown-pos : (n : ℕ) → 0 < n → n ∷ countdown (n - 1) ≡ countdown n
countdown-pos zero h = absurd (omega arith)
countdown-pos (suc n) h = let e : suc n - 1 ≡ n = omega arith in rw e refl

count1_at-Inv : (q : Pc) {s t : State} → s.one ≡ q → Inv s → count1_at q s ≡ some t → Inv t
unfolding count1_at
count1_at-Inv locking {s} e v h = ground (arith, countdown-pos s.count)
count1_at-Inv _ {s} e v h = ground (arith, countdown-pos s.count)

count2_at-Inv : (q : Pc) {s t : State} → s.two ≡ q → Inv s → count2_at q s ≡ some t → Inv t
unfolding count2_at
count2_at-Inv locking {s} e v h = ground (arith, countdown-pos s.count)
count2_at-Inv _ {s} e v h = ground (arith, countdown-pos s.count)

pub Reach-Inv : {n m : ℕ} {s : State} → Reach n m s → Inv s
unfolding count1 count2
Reach-Inv begin = ground arith
Reach-Inv (later {s} r (by_one h)) = count1_at-Inv s.one refl (Reach-Inv r) h
Reach-Inv (later {s} r (by_two h)) = count2_at-Inv s.two refl (Reach-Inv r) h
Reach-Inv (stray r w e) = let v = Reach-Inv r in rw e (ground arith)
