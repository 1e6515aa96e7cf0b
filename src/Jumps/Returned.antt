-- ===== src/Jumps/Returned.antt =====
-- assignment_4/variables_jmp.c: a jump to a function that has returned.
use aup_assignments.Prelude.{ℕ, List, [], ◌∷◌, ◌++◌, ◌==◌, if◌then◌else◌}
use aup_assignments.Jumps.{Proc, pure, exit, ◌>>=◌, ◌>>◌, modify, get, call, setjmp, longjmp}

pub data Line : Type 0 where
  in_a : ℕ → ℕ → Line
  in_main : ℕ → ℕ → ℕ → Line

pub record Vars : Type 0 where
  pub globval : ℕ
  pub autoval : ℕ
  pub statval : ℕ
  pub a_statval : ℕ
  pub out : List Line

abbrev print : Line → Proc Vars (Unit {0})
print l = modify (λ v. record v { out = v.out ++ l ∷ [] })

-- The automatic variable of a is set before each use.
abbrev pub a : Proc Vars ℕ
a =
    setjmp (λ v. v)
      (λ ret. do
        let a_autoval : ℕ = 19
        modify (λ v. record v { a_statval = 20 })
        v ← get
        print (in_a a_autoval v.a_statval)
        pure ret)

abbrev pub b : Proc Vars (Unit {0})
b = longjmp 50

abbrev pub assign : ℕ → ℕ → ℕ → Proc Vars (Unit {0})
assign g a s = modify (λ x. record x { globval = g; autoval = a; statval = s })

unfoldable pub main : Proc Vars (Unit {0})
main = do
  assign 1 2 3
  ret ← call a
  if ret == 0
      then (do
        assign 101 102 103
        call b
        v ← get
        print (in_main v.globval v.autoval v.statval)
        exit 0)
      else exit 0
