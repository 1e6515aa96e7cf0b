-- ===== src/Regroup/Failures.antt =====
-- The calls of signal_process_group.c that fail, as events of change_process_group.c.
use mathlib.Core.Path.{subst}
use mathlib.Core.Option.{some-injective}
use aup_assignments.Prelude.{ℕ, ◌≡◌, refl, ◌⊎◌, inl, inr, some, arith}
use aup_assignments.Prelude.Int.{ℤ}
use aup_assignments.Group
use aup_assignments.Group.Steps
use aup_assignments.Group.Steps.{hit3, hit4, hit5, struck}
use aup_assignments.Regroup.{
  p0, p1, p2, p3, p4, p5, moves, fails, garbles, zero_at, three_at, four_at, five_at, step,
}
use aup_assignments.Regroup.Forget.{Follows, hung_up-of_writer}

module _ (l own : ℕ) where
  pub three_fails-Follows :
      (q : Group.Three) (s t : Group.State)
      → s.three ≡ q
      → Group.Steps.three_fails q s ≡ some t
      → Follows l own s t
  unfolding step three_at
  three_fails-Follows Group.Three.unborn s t e h = cc
  three_fails-Follows Group.Three.left s t e h = cc
  three_fails-Follows Group.Three.resting s t e h = cc
  three_fails-Follows Group.Three.catching s t e h =
      subst (Follows l own s) (some-injective _ _ h) (inr (moves p3, rw e refl))
  three_fails-Follows Group.Three.adopting s t e h =
      subst (Follows l own s) (some-injective _ _ h) (inr (fails p3, rw e refl))
  three_fails-Follows _ s t e h =
      subst (Follows l own s) (some-injective _ _ h)
        (inr (fails p3, rw (e, hung_up-of_writer s.writer) refl))

  pub zero_fails-Follows :
      (q : Group.Zero) (s t : Group.State)
      → s.zero ≡ q
      → Group.Steps.zero_fails q s ≡ some t
      → Follows l own s t
  unfolding step zero_at
  zero_fails-Follows Group.Zero.fork_one s t e h = inr (fails p0, ground arith)
  zero_fails-Follows Group.Zero.fork_two s t e h = inr (fails p0, ground arith)
  zero_fails-Follows Group.Zero.arm s t e h = cc
  zero_fails-Follows _ s t e h = inr (moves p0, ground arith)

  pub five_fails-Follows :
      (q : Group.Five) (s t : Group.State)
      → s.five ≡ q
      → Group.Steps.five_fails q s ≡ some t
      → Follows l own s t
  unfolding step five_at
  five_fails-Follows Group.Five.joining s t e h = inr (fails p5, ground arith)
  five_fails-Follows Group.Five.catching s t e h = inr (moves p5, ground arith)
  five_fails-Follows _ s t e h = cc

  pub four_fails-Follows :
      (q : Group.Four) (s t : Group.State)
      → s.four ≡ q
      → Group.Steps.four_fails q s ≡ some t
      → Follows l own s t
  unfolding step four_at
  four_fails-Follows Group.Four.catching s t e h = inr (moves p4, ground arith)
  four_fails-Follows _ s t e h = cc

  pub garble-Follows :
      (q : Group.Five) (x : ℤ) (s t : Group.State)
      → s.five ≡ q
      → Group.Steps.garble q x s ≡ some t
      → Follows l own s t
  unfolding step
  garble-Follows Group.Five.reading x s t e h = inr (garbles x, ground arith)
  garble-Follows _ x s t e h = cc

  pub fork_fails-Follows :
      (s t : Group.State)
      → (Group.Steps.step l own (Group.fails Group.p1) s ≡ some t)
        ⊎ (Group.Steps.step l own (Group.fails Group.p2) s ≡ some t)
      → Follows l own s t
  unfolding step Group.Steps.step
  fork_fails-Follows s t (inl h) = inr (fails p1, ground arith)
  fork_fails-Follows s t (inr h) = inr (fails p2, ground arith)
