-- ===== src/Timing/Results.antt =====
-- What execution_time.c prints when no call fails.
use mathlib.Core.Path.{subst}
use aup_assignments.Prelude.{
  ℕ, ◌≡◌, refl, ◌∙◌, Bool, true, false, List, [], ◌*◌, arith, ◌∷◌, ◌++◌, append_assoc, append-nil,
  All,
}
use aup_assignments.Prelude.Int.{ℤ, pos, InRange}
use aup_assignments.Unix.Proc.{exited, done, continue, Exec}
use aup_assignments.Timing.{
  Line, title, getpid_avg, fork_avg, State, ending, flushed, rounds, program, main,
}
use aup_assignments.Timing.Clock.{took, shown, took-InRange}
use aup_assignments.Timing.Rounds.{
  Round, schedule, lines, getpid_by, fork_by, total, copies, copies_at_once, length-schedule, Agree,
  lines-Agree, copies-Agree, getpid-Agree, fork-Agree, total-InRange, schedule-Agree, at_once,
  at_exit,
}

abbrev pub start : ℕ → List ℕ → State
start clock ticks = record {
  clock = clock;
  ticks = ticks;
  faults = [];
  getpid_t = pos 0;
  fork_t = pos 0;
  buf = [];
  out = [];
  children = [];
}

abbrev pub printed : (ℕ → ℕ → ℤ) → List Round → List Line
printed f rs =
    (title ∷ lines f 0 rs)
    ++ getpid_avg (total (getpid_by f) (pos 0) rs) 10
      ∷ fork_avg (total (fork_by f) (pos 0) rs) 10
      ∷ []

module _ {A : Type 0} (xs : List A) (a b : A) where
  one_by_one : ((xs ++ a ∷ []) ++ b ∷ []) ++ [] ≡ xs ++ a ∷ b ∷ []
  one_by_one = append-nil ((xs ++ a ∷ []) ++ b ∷ []) ∙ append_assoc xs (a ∷ []) (b ∷ [])

-- What the end of the program does.
record Ending (r : Exec (Unit {0}) × State) (ls : List Line) (t : Exec (Unit {0}) × State)
    : Type 0 where
  status : t.0 ≡ exited 0
  out_ok : t.1.out ≡ ls ++ getpid_avg r.1.getpid_t 10 ∷ fork_avg r.1.fork_t 10 ∷ []
  children_ok : t.1.children ≡ r.1.children
  getpid_ok : t.1.getpid_t ≡ r.1.getpid_t
  fork_ok : t.1.fork_t ≡ r.1.fork_t

ending_at_once :
    (r : Exec (Unit {0}) × State)
    → r.0 ≡ done tt
    → r.1.buf ≡ []
    → Ending r r.1.out (flushed (continue r.0 (λ _. ending true) r.1))
ending_at_once (q, s) h b = rw h (record {
  status = refl;
  out_ok = rw b (one_by_one s.out _ _);
  children_ok = refl;
  getpid_ok = refl;
  fork_ok = refl;
})

ending_at_exit :
    (r : Exec (Unit {0}) × State)
    → r.0 ≡ done tt
    → r.1.out ≡ []
    → Ending r r.1.buf (flushed (continue r.0 (λ _. ending false) r.1))
ending_at_exit (q, s) h b = rw h (record {
  status = refl;
  out_ok = rw b (append_assoc s.buf _ _);
  children_ok = refl;
  getpid_ok = refl;
  fork_ok = refl;
})

abbrev Timed : Bool → List Round → Exec (Unit {0}) × State → Type 0
Timed now rs r =
    (r.0 ≡ exited 0)
    × (r.1.out ≡ printed took rs)
    × (r.1.children ≡ copies took now (title ∷ []) 0 rs)
    × (r.1.getpid_t ≡ total (getpid_by took) (pos 0) rs)
    × (r.1.fork_t ≡ total (fork_by took) (pos 0) rs)

program-Timed :
    (now : Bool) (n : ℕ) (clock : ℕ) (ticks : List ℕ)
    → Timed now (schedule clock ticks n) (program now n (start clock ticks))
unfolding program
program-Timed true n clock ticks =
    let s = record (start clock ticks) { out = title ∷ [] } in
    let d = at_once 0 n s in
    let (o, b, c) = d.after in
    let e = ending_at_once (rounds true 0 n s) d.goes_on b in
    (
      e.status,
      e.out_ok ∙ rw (o, d.getpid_sum_ok, d.fork_sum_ok) refl,
      e.children_ok ∙ c ∙ copies_at_once took (title ∷ []) 0 (schedule clock ticks n),
      e.getpid_ok ∙ d.getpid_sum_ok,
      e.fork_ok ∙ d.fork_sum_ok,
    )
program-Timed false n clock ticks =
    let s = record (start clock ticks) { buf = title ∷ [] } in
    let d = at_exit 0 n s in
    let (o, b, c) = d.after in
    let e = ending_at_exit (rounds false 0 n s) d.goes_on o in
    (
      e.status,
      e.out_ok ∙ rw (b, d.getpid_sum_ok, d.fork_sum_ok) refl,
      e.children_ok ∙ c,
      e.getpid_ok ∙ d.getpid_sum_ok,
      e.fork_ok ∙ d.fork_sum_ok,
    )

total_start :
    (f : Round → ℤ) (clock n : ℕ) (ticks : List ℕ)
    → ((r : Round) → InRange 999999 (f r))
    → InRange (n * 999999) (total f (pos 0) (schedule clock ticks n))
total_start f clock n ticks h =
    let rs = schedule clock ticks n in
    subst (λ b. InRange b (total f (pos 0) rs)) (omega (arith, length-schedule clock ticks n))
      (total-InRange f 0 (pos 0) rs h (omega arith))

printed-Agree :
    (f g : ℕ → ℕ → ℤ) (rs : List Round) → All (Agree f g) rs → printed f rs ≡ printed g rs
printed-Agree f g rs h =
    rw (lines-Agree f g 0 rs h, getpid-Agree f g (pos 0) rs h, fork-Agree f g (pos 0) rs h) refl

-- If no call fails, then however long the calls take, the program exits with 0 after ten rounds and
-- prints for each call the time that it takes less the whole seconds that begin in it, and a tenth of
-- the sum of each ten numbers. Both sums are within 9999990 of zero, where a float is exact. Of the
-- ten children, each writes what has been printed before its fork once more, unless each line is
-- written at once.
pub timings :
    (now : Bool) (clock : ℕ) (ticks : List ℕ)
    → let rs = schedule clock ticks 10 in
      let r = main now (start clock ticks) in
      (r.0 ≡ exited 0)
      × (r.1.out ≡ printed shown rs)
      × (r.1.children ≡ copies shown now (title ∷ []) 0 rs)
      × InRange 9999990 r.1.getpid_t
      × InRange 9999990 r.1.fork_t
unfolding main
timings now clock ticks =
    let rs = schedule clock ticks 10 in
    let same = schedule-Agree clock ticks 10 in
    let (status, out, children, getpid_sum, fork_sum) = program-Timed now 10 clock ticks in
    (
      status,
      out ∙ printed-Agree took shown rs same,
      children ∙ copies-Agree took shown now (title ∷ []) 0 rs same,
      rw getpid_sum (
          total_start (getpid_by took) clock 10 ticks
            (λ r. took-InRange r.getpid_from r.getpid_to)),
      rw fork_sum
          (total_start (fork_by took) clock 10 ticks (λ r. took-InRange r.fork_from r.fork_to)),
    )
