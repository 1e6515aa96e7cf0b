-- ===== src/Children/Tests.antt =====
-- Runs of print_child_statuses.c, and its theorems at inputs.
use aup_assignments.Prelude.{ℕ, ◌≡◌, refl, false, some, [], ◌∷◌, ◌++◌, map, ◌==◌, if◌then◌else◌}
use aup_assignments.Prelude.Int.{pos}
use aup_assignments.Unix.Bytes.{Bytes}
use aup_assignments.Unix.Proc.{done, exited}
use aup_assignments.Unix.Atoi.{atoi}
use aup_assignments.Children.{
  not_yet, terminated, Fate, running, exits, signaled, State, enomem, main,
}
use aup_assignments.Children.Loops.{expected}
use aup_assignments.Children.Results.{started, report_in_order}

abbrev three : Bytes
three = b'3' ∷ []

abbrev minus_two : Bytes
minus_two = b'-' ∷ b'2' ∷ []

-- The second child is late, and a signal ends the third.
abbrev late : ℕ → Fate
late p = if p == 52 then running else if p == 53 then signaled else exits

three_number : atoi three ≡ pos 3
unfolding atoi
three_number = refl

-- A negative number of children is none, if malloc does not refuse it.
negative :
    main ([] ∷ minus_two ∷ [] ∷ [] ∷ []) (started (some 51 ∷ []) late)
    ≡ (done 0, started (some 51 ∷ []) late)
unfolding main atoi
negative = refl

no_memory :
    (main ([] ∷ three ∷ [] ∷ [] ∷ []) (record (started [] late) { room = false })).0 ≡ exited enomem
unfolding main
no_memory = refl

late_report :
    expected late 1 (51 ∷ 52 ∷ 53 ∷ []) ≡ terminated 51 1 ∷ not_yet 52 ∷ terminated 53 0 ∷ []
late_report = refl

report_in_order_example :
    (t : State) × (main
        ([] ∷ three ∷ [] ∷ [] ∷ [])
        (started (map some (51 ∷ 52 ∷ 53 ∷ []) ++ []) late)
      ≡ (done 0, t))
    × (t.out ≡ expected late 1 (51 ∷ 52 ∷ 53 ∷ []))
    × (t.pids ≡ 51 ∷ 52 ∷ 53 ∷ [])
report_in_order_example =
    report_in_order [] three [] [] (51 ∷ 52 ∷ 53 ∷ []) [] late three_number
      ((refl, (refl, tt)), ((refl, tt), (tt, tt)))
