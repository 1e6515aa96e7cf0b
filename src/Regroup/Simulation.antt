-- ===== src/Regroup/Simulation.antt =====
-- The six processes of signal_process_group.c, up to the signal, are those of
-- change_process_group.c: what a step of the former is for the latter.
use mathlib.Core.Path.{subst}
use aup_assignments.Prelude.{ℕ, ◌≡◌, refl, inl, inr, Bool, true, false, some, arith}
use aup_assignments.Prelude.Int.{negsuc}
use aup_assignments.Group
use aup_assignments.Group.Steps
use aup_assignments.Group.Steps.{hit3, hit4, hit5, struck}
use aup_assignments.Regroup.{Reach, begin, later}
use aup_assignments.Regroup.Forget.{forget, is_unsent, Follows, if-some, struck-sent}
use aup_assignments.Regroup.Moves.{
  zero_at-Follows, one_at-Follows, two_at-Follows, three_at-Follows, four_at-Follows,
  five_at-Follows,
}
use aup_assignments.Regroup.Failures.{
  zero_fails-Follows, three_fails-Follows, four_fails-Follows, five_fails-Follows,
  fork_fails-Follows, garble-Follows,
}

module _ (l own : ℕ) where
  step-Follows :
      (e : Group.Event) (s t : Group.State)
      → Group.Steps.step l own e s ≡ some t
      → is_unsent t ≡ true
      → Follows l own s t
  unfolding Group.Steps.step
  step-Follows (Group.moves Group.p0) s t h u = zero_at-Follows l own s.zero s t refl h u
  step-Follows (Group.moves Group.p1) s t h u = one_at-Follows l own s.one s t refl h
  step-Follows (Group.moves Group.p2) s t h u = two_at-Follows l own s.two s t refl h
  step-Follows (Group.moves Group.p3) s t h u = three_at-Follows l own s.three s t refl h
  step-Follows (Group.moves Group.p4) s t h u = four_at-Follows l own s.four s t refl h
  step-Follows (Group.moves Group.p5) s t h u = five_at-Follows l own s.five s t refl h
  step-Follows (Group.fails Group.p0) s t h u = zero_fails-Follows l own s.zero s t refl h
  step-Follows (Group.fails Group.p1) s t h u = fork_fails-Follows l own s t (inl h)
  step-Follows (Group.fails Group.p2) s t h u = fork_fails-Follows l own s t (inr h)
  step-Follows (Group.fails Group.p3) s t h u = three_fails-Follows l own s.three s t refl h
  step-Follows (Group.fails Group.p4) s t h u = four_fails-Follows l own s.four s t refl h
  step-Follows (Group.fails Group.p5) s t h u = five_fails-Follows l own s.five s t refl h
  step-Follows Group.alarm s t h u =
      if-some (Follows l own s) s.armed (record s { cell = negsuc 1; armed = false })
        (λ c. inl refl) h
  step-Follows (Group.garbles x) s t h u = garble-Follows l own s.five x s t refl h

  zero_at-unsent :
      (q : Group.Zero) (s t : Group.State)
      → Group.Steps.zero_at q s ≡ some t
      → is_unsent t ≡ true
      → is_unsent s ≡ true
  unfolding Group.Steps.zero_at
  zero_at-unsent Group.Zero.send s t h u = absurd (struck-sent s t h u)
  zero_at-unsent _ s t h u = ground arith

  -- No other step touches a process's fate.
  step-unsent :
      (e : Group.Event) (s t : Group.State)
      → Group.Steps.step l own e s ≡ some t
      → is_unsent t ≡ true
      → is_unsent s ≡ true
  unfolding Group.Steps.step Group.Steps.one_at Group.Steps.two_at Group.Steps.three_at
      Group.Steps.four_at Group.Steps.five_at
  step-unsent (Group.moves Group.p0) s t h u = zero_at-unsent s.zero s t h u
  step-unsent (Group.moves _) s t h u = ground arith
  step-unsent (Group.fails Group.p0) s t h u = ground arith
  step-unsent (Group.fails _) s t h u = ground arith
  step-unsent Group.alarm s t h u = ground arith
  step-unsent (Group.garbles x) s t h u = ground arith

follow :
    {l own home : ℕ} {fifo : Bool} (s t : Group.State)
    → Reach l own home fifo (forget s)
    → Follows l own s t
    → Reach l own home fifo (forget t)
follow s t r (inl same) = subst (Reach _ _ _ _) same r
follow s t r (inr (e, h)) = later e r h

-- Every state that signal_process_group.c can come to while its signal has hit no process is, without
-- the shared value, the alarm and the handlers, a state that change_process_group.c can come to with
-- the same process ids: up to the signal the later program does nothing to processes, groups and FIFO
-- that the earlier one does not do.
pub group_refines :
    {l own home : ℕ} {fifo : Bool} {s : Group.State}
    → Group.Steps.Reach l own home fifo s
    → is_unsent s ≡ true
    → Reach l own home fifo (forget s)
group_refines Group.Steps.begin u = begin
group_refines {l} {own} (Group.Steps.later {s} {t} e r h) u =
    follow s t (group_refines r (step-unsent l own e s t h u)) (step-Follows l own e s t h u)
