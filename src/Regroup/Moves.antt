-- ===== src/Regroup/Moves.antt =====
-- The calls of signal_process_group.c that succeed, as events of change_process_group.c.
use mathlib.Core.Path.{subst}
use mathlib.Core.Option.{some-injective}
use aup_assignments.Prelude.{ℕ, ◌≡◌, refl, inl, inr, Bool-cases, true, Option, none, some, arith}
use aup_assignments.Prelude.Int.{ℤ, pos, negsuc, eqb_ℤ}
use aup_assignments.Unix.Pid.{pid_of}
use aup_assignments.Group
use aup_assignments.Group.Steps
use aup_assignments.Group.Steps.{hit3, hit4, hit5, struck}
use aup_assignments.Regroup.{
  p0, p1, p2, p3, p4, p5, moves, zero_at, one_at, two_at, three_at, four_at, five_at, step,
}
use aup_assignments.Regroup.Forget.{
  is_unsent, Follows, if-some, if-none, is_absent-of_writer, gone-of_five, struck-sent,
}

module _ (l own : ℕ) where
  pub zero_at-Follows :
      (q : Group.Zero) (s t : Group.State)
      → s.zero ≡ q
      → Group.Steps.zero_at q s ≡ some t
      → is_unsent t ≡ true
      → Follows l own s t
  unfolding step zero_at Group.Steps.zero_at
  zero_at-Follows Group.Zero.fork_one s t e h u = inr (moves p0, ground arith)
  zero_at-Follows Group.Zero.fork_two s t e h u = inr (moves p0, ground arith)
  zero_at-Follows Group.Zero.check s t e h u = elim (Bool-cases (eqb_ℤ s.cell (negsuc 1))) [
    | inl given_up ↦ inr (moves p0, ground arith)
    | inr found ↦ inl (ground arith)
  ]
  zero_at-Follows Group.Zero.send s t e h u = absurd (struck-sent s t h u)
  zero_at-Follows Group.Zero.loop s t e h u =
      if-none (Follows l own s) (eqb_ℤ s.cell (negsuc 0)) (record s { zero = Group.disarm })
        (λ c. inl (rw e refl)) h
  zero_at-Follows _ s t e h u = inl (ground arith)

  pub one_at-Follows :
      (q : Group.Middle) (s t : Group.State)
      → s.one ≡ q
      → Group.Steps.one_at q s ≡ some t
      → Follows l own s t
  unfolding step one_at Group.Steps.one_at
  one_at-Follows Group.Middle.forking s t e h = inr (moves p1, ground arith)
  one_at-Follows _ s t e h = cc

  pub two_at-Follows :
      (q : Group.Middle) (s t : Group.State)
      → s.two ≡ q
      → Group.Steps.two_at q s ≡ some t
      → Follows l own s t
  unfolding step two_at Group.Steps.two_at
  two_at-Follows Group.Middle.forking s t e h = inr (moves p2, ground arith)
  two_at-Follows _ s t e h = cc

  pub three_at-Follows :
      (q : Group.Three) (s t : Group.State)
      → s.three ≡ q
      → Group.Steps.three_at l q s ≡ some t
      → Follows l own s t
  unfolding step three_at Group.Steps.three_at
  three_at-Follows Group.Three.catching s t e h = inl (ground arith)
  three_at-Follows Group.Three.in_creat s t e h =
      if-some (Follows l own s) s.reader (record s { three = Group.Three.writing })
        (λ c. inr (moves p3, rw (e, c) refl)) h
  three_at-Follows Group.Three.writing s t e h = elim (Bool-cases (Group.Steps.gone s.five)) [
    | inl c ↦
        subst (Follows l own s) (some-injective _ _ h)
          (inr (moves p3, rw (e, gone-of_five s.five, c) refl))
    | inr c ↦
        subst (Follows l own s) (some-injective _ _ h)
          (inr (moves p3, rw (e, gone-of_five s.five, c) refl))
  ]
  three_at-Follows _ s t e h = inr (moves p3, ground arith)

  pub four_at-Follows :
      (q : Group.Four) (s t : Group.State)
      → s.four ≡ q
      → Group.Steps.four_at q s ≡ some t
      → Follows l own s t
  unfolding step four_at Group.Steps.four_at
  four_at-Follows Group.Four.catching s t e h = inl (ground arith)
  four_at-Follows _ s t e h = inr (moves p4, ground arith)

  pub read_pipe-Follows :
      (o : Option ℕ) (w : Group.Writer) (s t : Group.State)
      → s.five ≡ Group.Five.reading
      → s.pipe ≡ o
      → s.writer ≡ w
      → Group.Steps.read_pipe o w s ≡ some t
      → Follows l own s t
  unfolding step five_at
  read_pipe-Follows (some v) w s t e p q h =
      subst (Follows l own s) (some-injective _ _ h) (inr (moves p5, rw (e, p) refl))
  read_pipe-Follows none Group.Writer.closed s t e p q h =
      subst (Follows l own s) (some-injective _ _ h) (inr (moves p5, rw (e, p, q) refl))
  read_pipe-Follows none _ s t e p q h = cc

  pub join_group-Follows :
      (v : ℤ) (s t : Group.State)
      → s.five ≡ Group.Five.joining
      → pid_of s.garbled s.value ≡ v
      → some (Group.Steps.join_group own v s) ≡ some t
      → Follows l own s t
  unfolding step five_at
  join_group-Follows (pos n) s t e q h =
      subst (Follows l own s) (some-injective _ _ h) (inr (moves p5, rw (e, q) refl))
  join_group-Follows (negsuc n) s t e q h =
      subst (Follows l own s) (some-injective _ _ h) (inr (moves p5, rw (e, q) refl))

  pub five_at-Follows :
      (q : Group.Five) (s t : Group.State)
      → s.five ≡ q
      → Group.Steps.five_at own q s ≡ some t
      → Follows l own s t
  unfolding step five_at Group.Steps.five_at
  five_at-Follows Group.Five.storing s t e h = inl (ground arith)
  five_at-Follows Group.Five.catching s t e h = inl (ground arith)
  five_at-Follows Group.Five.opening s t e h =
      if-some (Follows l own s) s.fifo (record s { five = Group.Five.in_open; reader = true })
        (λ c. inr (moves p5, rw (e, c) refl)) h
  five_at-Follows Group.Five.in_open s t e h =
      if-none (Follows l own s) (Group.Steps.is_absent s.writer)
        (record s { five = Group.Five.reading })
        (λ c. inr (moves p5, rw (e, is_absent-of_writer s.writer, c) refl)) h
  five_at-Follows Group.Five.reading s t e h = read_pipe-Follows s.pipe s.writer s t e refl refl h
  five_at-Follows Group.Five.joining s t e h =
      join_group-Follows (pid_of s.garbled s.value) s t e refl h
  five_at-Follows _ s t e h = inr (moves p5, ground arith)
