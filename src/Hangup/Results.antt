-- ===== src/Hangup/Results.antt =====
-- How sighup_sigcont.c ends, and what it has printed then.
use aup_assignments.Prelude.{
  ℕ, ◌+◌, ◌≤◌, ◌<◌, ◌≡◌, refl, ap, ◌⊎◌, inl, inr, Bool, true, false, some, [], ◌∷◌, arith,
  if◌then◌else◌, Bool-cases,
}
use aup_assignments.Hangup.{
  Parent, forking, sleeping, Child, unborn, catching_hup, catching_cont, killing, stopped,
  showing_again, failed, of_parent, of_child, hup, cont, State, Event, parent_moves, parent_fails,
  child_moves, child_fails, hup_runs, cont_runs, print, is_ended, parent_at, child_at, step, Reach,
  begin, later,
}
use aup_assignments.Hangup.Invariant.{Inv, Reach-Inv}

abbrev parent_left : Parent → ℕ
parent_left Parent.showing = 3
parent_left forking = 2
parent_left sleeping = 1
parent_left Parent.ended = 0

abbrev child_left : Child → ℕ
child_left unborn = 8
child_left Child.showing = 7
child_left catching_hup = 6
child_left catching_cont = 5
child_left killing = 4
child_left stopped = 3
child_left showing_again = 1
child_left Child.ended = 0
child_left failed = 0

abbrev waiting : Bool → ℕ
waiting b = if b then 1 else 0

-- The events that can come yet.
abbrev work : State → ℕ
work s = parent_left s.parent + child_left s.child + waiting s.hup_waits + waiting s.cont_waits

module _ (shell : Bool) where
  parent_at-work :
      (q : Parent) (r : Child) {s t : State}
      → s.parent ≡ q
      → s.child ≡ r
      → Inv shell s
      → parent_at shell q s ≡ some t
      → work t < work s
  unfolding parent_at
  parent_at-work q r e f v h = ground arith

  child_at-work :
      (q : Child) (s t : State) → s.child ≡ q → child_at shell q s ≡ some t → work t < work s
  unfolding child_at
  child_at-work killing s t e h = ground arith
  child_at-work _ s t e h = ground arith

  step-work : (e : Event) {s t : State} → Inv shell s → step shell e s ≡ some t → work t < work s
  unfolding step
  step-work parent_moves {s} v h = parent_at-work s.parent s.child refl refl v h
  step-work parent_fails v h = ground arith
  step-work child_moves {s} {t} v h = child_at-work s.child s t refl h
  step-work child_fails v h = ground arith
  step-work hup_runs v h = ground arith
  step-work cont_runs v h = ground arith

  Reach-work : {n : ℕ} {s : State} → Reach shell n s → n + work s ≤ 11
  Reach-work begin = ground arith
  Reach-work (later {s = s} e r h) = omega (arith, Reach-work r, step-work e (Reach-Inv r) h)

-- A state in which parent and child, if it was created, have ended.
abbrev pub over : Child → Bool
over unborn = true
over Child.ended = true
over failed = true
over _ = false

abbrev pub Goes : Bool → State → Type 0
Goes shell s = (e : Event) × (t : State) × (step shell e s ≡ some t)

child-Goes :
    (shell : Bool) (q : Child) (s : State)
    → s.child ≡ q
    → s.parent ≡ Parent.ended
    → Inv shell s
    → ((s.parent ≡ Parent.ended) × (over s.child ≡ true)) ⊎ Goes shell s
unfolding step child_at
child-Goes shell unborn s e p v = inl (p, rw e refl)
child-Goes shell Child.ended s e p v = inl (p, rw e refl)
child-Goes shell failed s e p v = inl (p, rw e refl)
child-Goes shell stopped s e p v = absurd (rw (p, e) at v.birth_ok)
child-Goes shell showing_again s e p v = elim (Bool-cases s.hup_waits) [
  | inl c ↦ inr (hup_runs, print hup (record s { hup_waits = false }), rw c refl)
  | inr c ↦ elim (Bool-cases s.cont_waits) [
    | inl d ↦ inr (cont_runs, print cont (record s { cont_waits = false }), rw d refl)
    | inr d ↦ inr (
      child_moves,
      print (of_child (is_ended s.parent)) (record s { child = Child.ended }),
      rw (e, c, d) refl,
    )
  ]
]
child-Goes shell _ s e p v = inr (child_moves, _, ap (λ c. child_at shell c s) e)

parent-Goes :
    (shell : Bool) (q : Parent) (s : State)
    → s.parent ≡ q
    → Inv shell s
    → ((s.parent ≡ Parent.ended) × (over s.child ≡ true)) ⊎ Goes shell s
unfolding step parent_at
parent-Goes shell Parent.ended s e v = child-Goes shell s.child s refl e v
parent-Goes shell _ s e v = inr (parent_moves, _, ap (λ q. parent_at shell q s) e)

-- The program comes to an end: it takes at most eleven steps, the handlers included, and in every state
-- that it can come to something can happen next, unless the parent has ended and the child, if there
-- is one, has ended too; so the child is never left stopped.
none_left_stopped :
    {shell : Bool} {n : ℕ} {s : State}
    → Reach shell n s
    → (n ≤ 11) × (((s.parent ≡ Parent.ended) × (over s.child ≡ true)) ⊎ Goes shell s)
none_left_stopped {shell} {s = s} r =
    (omega (arith, Reach-work shell r), parent-Goes shell s.parent s refl (Reach-Inv r))

-- When the child has ended without a failing call, one line of the parent and two of the child have
-- been printed; or, if a shell with job control has started the program, the child has printed its
-- first line while its parent was there, then both handlers have printed theirs in one order or the
-- other, and then it has printed its second line, with another parent.
printed_lines :
    {shell : Bool} {n : ℕ} {s : State}
    → Reach shell n s
    → s.child ≡ Child.ended
    → ((b : Bool) × (b' : Bool) × (s.out ≡ of_parent ∷ of_child b ∷ of_child b' ∷ []))
      ⊎ ((shell ≡ true) × (s.out ≡ of_parent ∷ of_child false ∷ hup ∷ cont ∷ of_child true ∷ []))
      ⊎ ((shell ≡ true) × (s.out ≡ of_parent ∷ of_child false ∷ cont ∷ hup ∷ of_child true ∷ []))
printed_lines {shell} {s = s} r e = (rw e at (Reach-Inv r).out_ok)

over-cases : (c : Child) → over c ≡ true → (c ≡ Child.ended) ⊎ ((c ≡ unborn) ⊎ (c ≡ failed))
over-cases unborn h = inr (inl refl)
over-cases Child.ended h = inl refl
over-cases failed h = inr (inr refl)
over-cases _ h = cc

-- The program takes at most eleven steps, the handlers included, and in every state that it can come
-- to something can happen next, unless the parent has ended and the child, if there is one, has ended
-- too: the child is never left stopped. If a child was created and none of its calls failed, one line
-- of the parent and two of the child have been printed; or, if a shell with job control has started
-- the program, the child has printed its first line while its parent was there, then both handlers
-- have printed theirs in one order or the other, and then it has printed its second line, with
-- another parent.
pub ends_with_lines :
    {shell : Bool} {n : ℕ} {s : State}
    → Reach shell n s
    → (n ≤ 11)
      × (Goes shell s
          ⊎ ((s.parent ≡ Parent.ended)
              × (((s.child ≡ unborn) ⊎ (s.child ≡ failed))
                  ⊎ ((s.child ≡ Child.ended)
                      × (((b : Bool) × (b' : Bool) × (s.out
                              ≡ of_parent ∷ of_child b ∷ of_child b' ∷ []))
                          ⊎ ((shell ≡ true)
                              × (s.out
                                  ≡ of_parent ∷ of_child false ∷ hup ∷ cont ∷ of_child true ∷ []))
                          ⊎ ((shell ≡ true)
                              × (s.out
                                  ≡ of_parent
                                    ∷ of_child false
                                    ∷ cont
                                    ∷ hup
                                    ∷ of_child true
                                    ∷ [])))))))
ends_with_lines {s = s} r =
    let (b, e) = none_left_stopped r in
    (
      b,
      elim e [
        | inl (p, o) ↦
            inr (
              p,
              elim (over-cases s.child o) [ inl c ↦ inr (c, printed_lines r c) | inr c ↦ inl c ],
            )
        | inr go ↦ inl go
      ],
    )
