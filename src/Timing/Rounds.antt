-- ===== src/Timing/Rounds.antt =====
-- The rounds of execution_time.c when no call fails.
use mathlib.Core.Path.{subst}
use aup_assignments.Prelude.{
  ℕ, zero, suc, ◌+◌, ◌*◌, ◌≡◌, refl, ap, ◌∙◌, sym, Bool, true, false, List, [], ◌∷◌, ◌++◌,
  append_assoc, append-nil, arith, first_or, rest_of, if◌then◌else◌, All, length,
}
use aup_assignments.Prelude.Int.{ℤ, ◌+ℤ◌, InRange}
use aup_assignments.Unix.Proc.{Exec, done}
use aup_assignments.Timing.{Line, getpid_took, fork_took, State, round, rounds}
use aup_assignments.Timing.Clock.{took, shown, took-shown, plus-InRange}

-- When the call of getpid and that of fork of a round begin and end.
pub record Round : Type 0 where
  pub getpid_from : ℕ
  pub getpid_to : ℕ
  pub fork_from : ℕ
  pub fork_to : ℕ

abbrev tick : ℕ → List ℕ → ℕ
tick zero ts = first_or 0 ts
tick (suc k) ts = tick k (rest_of ts)

abbrev later : ℕ → List ℕ → List ℕ
later zero ts = ts
later (suc k) ts = later k (rest_of ts)

-- The round that begins at the time `c`.
abbrev timed : ℕ → List ℕ → Round
timed c ts =
    let a = c + tick 0 ts in
    let b = a + tick 1 ts + tick 2 ts in
    let d = b + tick 3 ts in
    record { getpid_from = a; getpid_to = b; fork_from = d; fork_to = d + tick 4 ts + tick 5 ts }

abbrev pub schedule : ℕ → List ℕ → ℕ → List Round
schedule c ts zero = []
schedule c ts (suc n) = timed c ts ∷ schedule (timed c ts).fork_to (later 6 ts) n

-- What a clock `f` gives for the calls of a round, and the lines with it.
abbrev pub getpid_by : (ℕ → ℕ → ℤ) → Round → ℤ
getpid_by f r = f r.getpid_from r.getpid_to

abbrev pub fork_by : (ℕ → ℕ → ℤ) → Round → ℤ
fork_by f r = f r.fork_from r.fork_to

abbrev pub getpid_line : (ℕ → ℕ → ℤ) → ℕ → Round → Line
getpid_line f i r = getpid_took (suc i) (getpid_by f r)

abbrev pub fork_line : (ℕ → ℕ → ℤ) → ℕ → Round → Line
fork_line f i r = fork_took (suc i) (fork_by f r)

-- The lines of the rounds from `i` on.
abbrev pub lines : (ℕ → ℕ → ℤ) → ℕ → List Round → List Line
lines f i [] = []
lines f i (r ∷ rs) = getpid_line f i r ∷ fork_line f i r ∷ lines f (suc i) rs

abbrev pub total : (Round → ℤ) → ℤ → List Round → ℤ
total f z [] = z
total f z (r ∷ rs) = total f (z +ℤ f r) rs

-- What each child writes at its exit: all lines before its fork, if they are still in the buffer.
abbrev pub copies : (ℕ → ℕ → ℤ) → Bool → List Line → ℕ → List Round → List (List Line)
copies f true ls i [] = []
copies f true ls i (r ∷ rs) = [] ∷ copies f true [] (suc i) rs
copies f false ls i [] = []
copies f false ls i (r ∷ rs) =
    (ls ++ getpid_line f i r ∷ [])
    ∷ copies f false ((ls ++ getpid_line f i r ∷ []) ++ fork_line f i r ∷ []) (suc i) rs

pub copies_at_once :
    (f : ℕ → ℕ → ℤ) (ls : List Line) (i : ℕ) (rs : List Round)
    → copies f true [] i rs ≡ copies f true ls i rs
copies_at_once f ls i [] = refl
copies_at_once f ls i (r ∷ rs) = refl

-- `t` has come from `s` by these rounds.
abbrev pub After : Bool → ℕ → List Round → State → State → Type 0
After true i rs s t =
    (t.out ≡ s.out ++ lines took i rs)
    × (t.buf ≡ [])
    × (t.children ≡ s.children ++ copies took true [] i rs)
After false i rs s t =
    (t.out ≡ s.out)
    × (t.buf ≡ s.buf ++ lines took i rs)
    × (t.children ≡ s.children ++ copies took false s.buf i rs)

module _ {A : Type 0} (xs ys : List A) where
  one_more : (a : A) → (xs ++ a ∷ []) ++ ys ≡ xs ++ a ∷ ys
  one_more a = append_assoc xs (a ∷ []) ys

  two_more : (a b : A) → ((xs ++ a ∷ []) ++ b ∷ []) ++ ys ≡ xs ++ a ∷ b ∷ ys
  two_more a b = append_assoc (xs ++ a ∷ []) (b ∷ []) ys ∙ append_assoc xs (a ∷ []) (b ∷ ys)

-- The outcome of `n` rounds, from the number `i` and the state `s` on.
pub record Done (now : Bool) (i n : ℕ) (s : State) (r : Exec (Unit {0}) × State) : Type 0 where
  pub goes_on : r.0 ≡ done tt
  pub getpid_sum_ok : r.1.getpid_t ≡ total (getpid_by took) s.getpid_t (schedule s.clock s.ticks n)
  pub fork_sum_ok : r.1.fork_t ≡ total (fork_by took) s.fork_t (schedule s.clock s.ticks n)
  pub after : After now i (schedule s.clock s.ticks n) s r.1

abbrev pub calm : Bool → State → State
calm now s = record s { faults = []; buf = if now then [] else s.buf }

pub at_once : (i n : ℕ) (s : State) → Done true i n s (rounds true i n (calm true s))
unfolding rounds
at_once i zero s = record {
  goes_on = refl;
  getpid_sum_ok = refl;
  fork_sum_ok = refl;
  after = (sym (append-nil s.out), refl, sym (append-nil s.children));
}
at_once i (suc n) s =
    let v = at_once (suc i) n (round true i (calm true s)).1 in
    let (o, b, c) = v.after in
    record {
      goes_on = v.goes_on;
      getpid_sum_ok = v.getpid_sum_ok;
      fork_sum_ok = v.fork_sum_ok;
      after = (o ∙ two_more s.out _ _ _, b, c ∙ one_more s.children _ _);
    }

pub at_exit : (i n : ℕ) (s : State) → Done false i n s (rounds false i n (calm false s))
unfolding rounds
at_exit i zero s = record {
  goes_on = refl;
  getpid_sum_ok = refl;
  fork_sum_ok = refl;
  after = (refl, sym (append-nil s.buf), sym (append-nil s.children));
}
at_exit i (suc n) s =
    let v = at_exit (suc i) n (round false i (calm false s)).1 in
    let (o, b, c) = v.after in
    record {
      goes_on = v.goes_on;
      getpid_sum_ok = v.getpid_sum_ok;
      fork_sum_ok = v.fork_sum_ok;
      after = (o, b ∙ two_more s.buf _ _ _, c ∙ one_more s.children _ _);
    }

-- The sums stay below 2 ^ 24, up to which a float is exact.
pub total-InRange :
    (f : Round → ℤ) (b : ℕ) (z : ℤ) (rs : List Round)
    → ((r : Round) → InRange 999999 (f r))
    → InRange b z
    → InRange (b + length rs * 999999) (total f z rs)
total-InRange f b z [] k h = subst (λ c. InRange c z) (omega arith) h
total-InRange f b z (r ∷ rs) k h =
    subst (λ c. InRange c (total f (z +ℤ f r) rs)) (omega arith)
      (total-InRange f (b + 999999) (z +ℤ f r) rs k (plus-InRange b 999999 z (f r) h (k r)))

-- Two clocks agree on a round.
abbrev pub Agree : (ℕ → ℕ → ℤ) → (ℕ → ℕ → ℤ) → Round → Type 0
Agree f g r = (getpid_by f r ≡ getpid_by g r) × (fork_by f r ≡ fork_by g r)

module _ (f g : ℕ → ℕ → ℤ) where
  pub lines-Agree : (i : ℕ) (rs : List Round) → All (Agree f g) rs → lines f i rs ≡ lines g i rs
  lines-Agree i [] h = refl
  lines-Agree i (r ∷ rs) h = rw (h.0.0, h.0.1, lines-Agree (suc i) rs h.1) refl

  pub copies-Agree :
      (now : Bool) (ls : List Line) (i : ℕ) (rs : List Round)
      → All (Agree f g) rs
      → copies f now ls i rs ≡ copies g now ls i rs
  copies-Agree true ls i [] h = refl
  copies-Agree true ls i (r ∷ rs) h = ap (λ l. [] ∷ l) (copies-Agree true [] (suc i) rs h.1)
  copies-Agree false ls i [] h = refl
  copies-Agree false ls i (r ∷ rs) h =
      rw
        (
          h.0.0,
          h.0.1,
          copies-Agree false ((ls ++ getpid_line g i r ∷ []) ++ fork_line g i r ∷ []) (suc i) rs
              h.1,
        )
        refl

  pub getpid-Agree :
      (z : ℤ) (rs : List Round)
      → All (Agree f g) rs
      → total (getpid_by f) z rs ≡ total (getpid_by g) z rs
  getpid-Agree z [] h = refl
  getpid-Agree z (r ∷ rs) h = rw h.0.0 (getpid-Agree (z +ℤ getpid_by g r) rs h.1)

  pub fork-Agree :
      (z : ℤ) (rs : List Round)
      → All (Agree f g) rs
      → total (fork_by f) z rs ≡ total (fork_by g) z rs
  fork-Agree z [] h = refl
  fork-Agree z (r ∷ rs) h = rw h.0.1 (fork-Agree (z +ℤ fork_by g r) rs h.1)

pub schedule-Agree : (c : ℕ) (ts : List ℕ) (n : ℕ) → All (Agree took shown) (schedule c ts n)
schedule-Agree c ts zero = tt
schedule-Agree c ts (suc n) =
    let r = timed c ts in
    (
      (
        took-shown r.getpid_from r.getpid_to (omega arith),
        took-shown r.fork_from r.fork_to (omega arith),
      ),
      schedule-Agree r.fork_to (later 6 ts) n,
    )

pub length-schedule : (c : ℕ) (ts : List ℕ) (n : ℕ) → length (schedule c ts n) ≡ n
length-schedule c ts zero = refl
length-schedule c ts (suc n) = ap suc (length-schedule (timed c ts).fork_to (later 6 ts) n)
