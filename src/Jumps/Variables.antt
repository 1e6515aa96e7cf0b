-- ===== src/Jumps/Variables.antt =====
-- assignment_4/all_variable_types.c: five kinds of variables across a jump.
use aup_assignments.Prelude.{ℕ, List, [], ◌∷◌, ◌++◌, ◌==◌, if◌then◌else◌}
use aup_assignments.Jumps.{Proc, exit, ◌>>=◌, ◌>>◌, modify, get, call, setjmp, longjmp}

pub data Line : Type 0 where
  in_f1 after_longjmp : Line
  values : ℕ → ℕ → ℕ → ℕ → ℕ → Line

pub record Vars : Type 0 where
  pub globval : ℕ
  pub autoval : ℕ
  pub regival : ℕ
  pub volaval : ℕ
  pub statval : ℕ
  pub out : List Line

abbrev print : Line → Proc Vars (Unit {0})
print l = modify (λ v. record v { out = v.out ++ l ∷ [] })

abbrev pub f2 : Proc Vars (Unit {0})
f2 = longjmp 1

abbrev pub f1 : ℕ → ℕ → ℕ → ℕ → Proc Vars (Unit {0})
f1 av rv vv sv = do print in_f1; v ← get; print (values v.globval av rv vv sv); call f2

abbrev pub assign : ℕ → ℕ → ℕ → ℕ → ℕ → Proc Vars (Unit {0})
assign g a r v s =
    modify (λ x. record x { globval = g; autoval = a; regival = r; volaval = v; statval = s })

-- What follows setjmp.
abbrev pub after_setjmp : ℕ → Proc Vars (Unit {0})
after_setjmp ret =
    if ret == 0
    then (do
      assign 95 96 97 98 99
      v ← get
      call (f1 v.autoval v.regival v.volaval v.statval)
      exit 0)
    else (do
      print after_longjmp
      v ← get
      print (values v.globval v.autoval v.regival v.volaval v.statval)
      exit 0)

-- `a` and `r` stand for the values that the two variables that are neither static nor volatile have
-- after the jump.
unfoldable pub main : ℕ → ℕ → Proc Vars (Unit {0})
main a r = do assign 1 2 3 4 5; setjmp (λ v. record v { autoval = a; regival = r }) after_setjmp
