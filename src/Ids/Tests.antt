-- ===== src/Ids/Tests.antt =====
-- Runs of inherit_ids.c.
use aup_assignments.Prelude.{◌≡◌, refl, true, some}
use aup_assignments.Ids.{Process, childs, makes, main}
use aup_assignments.Ids.Results.{start, lines}

abbrev shell_child : Process
shell_child = record { uid = 1000; euid = 1000; gid = 1000; egid = 1000; pid = 300; ppid = 200 }

-- A child that asks when its parent has ended gets another one.
adopted_child :
    (main true (makes 301 (some 1)) (start shell_child)).child_out
    ≡ some (lines childs (record shell_child { pid = 301; ppid = 1 }))
unfolding main
adopted_child = refl
