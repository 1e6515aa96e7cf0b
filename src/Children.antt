-- ===== src/Children.antt =====
-- assignment_5/print_child_statuses.c: a process makes children that exit with their number, and
-- asks for the status of each without waiting for it.
pub mod Loops
pub mod Results
mod Tests
use aup_assignments.Prelude.{
  ℕ, zero, suc, ◌+◌, ◌%◌, ◌^◌, Bool, true, false, Option, none, some, List, [], ◌∷◌, ◌++◌, ◌==◌,
  not, if◌then◌else◌, length, get_elem?, get_or,
}
use aup_assignments.Prelude.Int.{ℤ, pos, negsuc}
use aup_assignments.Unix.Bytes.{Bytes}
use aup_assignments.Unix.Proc.{Exec, done, exited, pure, exit, when, ◌>>=◌, ◌>>◌}
use aup_assignments.Unix.Atoi.{atoi}

-- The lines that the parent prints; `out_of_bounds` stands for a read of `pids` beyond what it holds.
pub data Line : Type 0 where
  not_yet : ℕ → Line
  terminated : ℕ → ℕ → Line
  out_of_bounds : Line

-- What a child has come to: it runs, or has ended by exit or by a signal.
pub data Fate : Type 0 where
  running exits signaled : Fate

-- `forks` is what the next calls of fork give, a process id or a failure; a call beyond it fails.
-- `kids` holds the process id and the exit status of each child that has not been waited for, `pids`
-- the array, `room` whether malloc succeeds, and `fate` what a child has come to when the parent asks
-- for it.
pub record State : Type 0 where
  pub forks : List (Option ℕ)
  pub fate : ℕ → Fate
  pub room : Bool
  pub kids : List (ℕ × ℕ)
  pub pids : List ℕ
  pub out : List Line

abbrev pub Proc : Type 0 → Type 0
Proc A = State → Exec A × State

abbrev pub eagain : ℕ
eagain = 11

abbrev pub enomem : ℕ
enomem = 12

abbrev pub echild : ℕ
echild = 10

-- A new child `p`, which will exit with `i`; its parent sees the low eight bits.
abbrev pub born : ℕ → ℕ → State → State
born p i s = record s { kids = (p, i % 2 ^ 8) ∷ s.kids; pids = s.pids ++ p ∷ [] }

abbrev pub fork_result : List (Option ℕ) → ℕ → Proc (Unit {0})
fork_result (some p ∷ rest) i s = (done tt, born p i (record s { forks = rest }))
fork_result (none ∷ rest) i s = (exited eagain, record s { forks = rest })
fork_result [] i s = (exited eagain, s)

abbrev pub fork_child : ℕ → Proc (Unit {0})
fork_child i s = fork_result s.forks i s

-- The first `for`, with `n` rounds to go and `i` the loop variable.
pub make_children : ℕ → ℕ → Proc (Unit {0})
make_children zero i = pure tt
make_children (suc n) i = do fork_child i; make_children n (suc i)

pub find : List (ℕ × ℕ) → ℕ → Option ℕ
find [] p = none
find ((q, status) ∷ kids) p = if p == q then some status else find kids p

pub remove : List (ℕ × ℕ) → ℕ → List (ℕ × ℕ)
remove [] p = []
remove ((q, status) ∷ kids) p =
    let rest = remove kids p in if p == q then kids else (q, status) ∷ rest

abbrev pub print : Line → Proc (Unit {0})
print l s = (done tt, record s { out = s.out ++ l ∷ [] })

-- WIFEXITED(status) ? WEXITSTATUS(status) : 0
abbrev pub exit_status : Fate → ℕ → ℕ
exit_status exits status = status
exit_status _ status = 0

-- waitpid returns 0 for it.
abbrev pub is_running : Fate → Bool
is_running running = true
is_running _ = false

-- waitpid(p, &status, WNOHANG) and what is printed on its result.
abbrev pub ask_kid : Option ℕ → ℕ → Proc (Unit {0})
unfolding remove
ask_kid none p s = (exited echild, s)
ask_kid (some status) p s =
    if is_running (s.fate p)
    then print (not_yet p) s
    else print (terminated p (exit_status (s.fate p) status)) (record s { kids = remove s.kids p })

pub ask : Option ℕ → Proc (Unit {0})
unfolding find ask_kid
ask none s = print out_of_bounds s
ask (some p) s = ask_kid (find s.kids p) p s

-- The second `for`, with `n` rounds to go and `i` the loop variable.
pub ask_all : ℕ → ℕ → Proc (Unit {0})
unfolding ask
ask_all zero i s = (done tt, s)
ask_all (suc n) i s = (ask (get_elem? s.pids i) >> ask_all n (suc i)) s

-- The rounds of `for (i = 1; i <= n; i++)` and of `for (i = 0; i < n; i++)`.
abbrev pub rounds : ℤ → ℕ
rounds (pos n) = n
rounds (negsuc n) = 0

abbrev pub malloc : Proc Bool
malloc s = (done s.room, s)

-- `main` with `argv`, the program's name included. The sleeping times decide when a child ends, and
-- are left to `fate`.
unfoldable pub main : List Bytes → Proc ℕ
unfolding make_children ask_all
main argv = do
  when (not (length argv == 4)) (exit 0)
  let num_children = atoi (get_or argv 1 [])
  room ← malloc
  when (not room) (exit enomem)
  make_children (rounds num_children) 1
  ask_all (rounds num_children) 0
  pure 0
