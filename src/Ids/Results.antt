-- ===== src/Ids/Results.antt =====
-- What the child inherits, and what it prints.
use aup_assignments.Prelude.{
  ℕ, ◌≡◌, refl, Bool, true, false, none, some, List, [], ◌∷◌, ◌++◌, if◌then◌else◌,
}
use aup_assignments.Ids.{
  Process, Label, real_uid, effective_uid, real_gid, effective_gid, process_id, parent_process_id,
  Line, parents, childs, State, fails, makes, main,
}

abbrev pub start : Process → State
start p = record { process = p; buf = []; out = [] }

abbrev pub lines : (Label → ℕ → Line) → Process → List Line
lines line p =
    line real_uid p.uid
    ∷ line effective_uid p.euid
    ∷ line real_gid p.gid
    ∷ line effective_gid p.egid
    ∷ line process_id p.pid
    ∷ line parent_process_id p.ppid
    ∷ []

-- The child has the users and groups of the parent, a number of its own, and the parent as its parent;
-- the parent ends with 0 and has written its six lines. Unless each line is written at once, the child
-- writes the six lines of the parent too, before its own.
ids_inherited :
    (now : Bool) (p : Process) (child_pid : ℕ)
    → main now (makes child_pid none) (start p) ≡ record {
      status = 0;
      parent_out = lines parents p;
      child_out = some (
          (if now then [] else lines parents p)
          ++ lines childs (record p { pid = child_pid; ppid = p.pid }));
    }
unfolding main
ids_inherited true p child_pid = refl
ids_inherited false p child_pid = refl

fork_fails :
    (now : Bool) (p : Process) (errno : ℕ)
    → main now (fails errno) (start p)
      ≡ record { status = errno; parent_out = lines parents p; child_out = none }
unfolding main
fork_fails true p errno = refl
fork_fails false p errno = refl
