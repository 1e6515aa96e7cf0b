-- ===== src/Unix/Pid.antt =====
-- The type pid_t, of 32 bits with a sign, and the cast of a `long` to it in
-- assignment_7/change_process_group.c and assignment_8/signal_process_group.c.
use aup_assignments.Prelude.{ℕ, ◌-◌, ◌%◌, ◌^◌, Bool, true, false, ltb, if◌then◌else◌}
use aup_assignments.Prelude.Int.{ℤ, pos, negsuc}

-- The number with these low 32 bits.
abbrev signed : ℕ → ℤ
signed r = if ltb r (2 ^ 31) then pos r else negsuc (2 ^ 32 - 1 - r)

-- (pid_t)v, which keeps the low 32 bits.
unfoldable pub to_pid : ℤ → ℤ
to_pid (pos n) = signed (n % 2 ^ 32)
to_pid (negsuc n) = signed (2 ^ 32 - 1 - n % 2 ^ 32)

-- The cast of a variable that is either a process id, which the cast keeps, or, if its read has
-- failed, anything.
abbrev pub pid_of : Bool → ℤ → ℤ
pid_of true v = to_pid v
pid_of false v = v
