-- ===== src/Regroup/Tests.antt =====
-- The theorems on change_process_group.c at process ids 43 and 45 in the group 40.
use aup_assignments.Prelude.{◌<◌, ◌≡◌, refl, ◌⊎◌, false, arith}
use aup_assignments.Group
use aup_assignments.Group.Steps
use aup_assignments.Group.Orders.{stored_sent, sent-Reach}
use aup_assignments.Regroup.{Five, State, Reach}
use aup_assignments.Regroup.Forget.{forget}
use aup_assignments.Regroup.Joined.{same_group}
use aup_assignments.Regroup.Simulation.{group_refines}

positive : 0 < 43
positive = ground arith

ready : Group.Steps.Reach 43 45 40 false (stored_sent 43 40)
ready = sent-Reach 43 45 40 false positive

-- Process 5 has joined the group of process 3, and all sleep.
abbrev joined : State
joined = forget (stored_sent 43 40)

joined-Reach : Reach 43 45 40 false joined
joined-Reach = group_refines ready refl

joined_asleep : joined.five ≡ Five.resting
joined_asleep = refl

same_group_example :
    (joined.garbled ≡ false
      → joined.five ≡ Five.resting
      → (joined.group5 ≡ 43) × (joined.group3 ≡ 43))
    × ((joined.group4 ≡ 43) ⊎ (joined.group4 ≡ 40))
same_group_example = same_group positive joined-Reach

group_refines_example : Reach 43 45 40 false (forget (stored_sent 43 40))
group_refines_example = group_refines ready refl
