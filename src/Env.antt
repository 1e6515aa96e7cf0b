-- ===== src/Env.antt =====
-- assignment_4/print_env_var.c and assignment_4/remove_env_var.c: a variable set in the environment
-- of the process, and one removed from it.
pub mod Names
pub mod Lookup
pub mod Results
mod Tests
use aup_assignments.Prelude.{
  ℕ, suc, Bool, true, false, not, ◌&&◌, ◌||◌, Option, none, some, List, [], ◌∷◌, ◌++◌, ◌==◌,
  if◌then◌else◌, length, drop,
}
use aup_assignments.Unix.Bytes.{Bytes, bytes_eqb}
use aup_assignments.Unix.Proc.{Exec, done, exited, pure, exit, ◌>>=◌, ◌>>◌}

-- The lines that the programs print: how they are to be called, or an entry of the environment.
pub data Line : Type 0 where
  usage : Line
  entry : Bytes → Line

-- `environ`, the lines printed, and whether there is memory for a new entry.
pub record State : Type 0 where
  pub environ : List Bytes
  pub out : List Line
  pub room : Bool

abbrev pub Proc : Type 0 → Type 0
Proc A = State → Exec A × State

abbrev pub einval : ℕ
einval = 22

abbrev pub enomem : ℕ
enomem = 12

-- The character between name and value.
abbrev pub equals : ℕ
equals = 61

abbrev pub has_equals : Bytes → Bool
has_equals [] = false
has_equals (c ∷ cs) = c == equals || has_equals cs

-- The names that setenv and unsetenv take.
abbrev pub is_name : Bytes → Bool
is_name [] = false
is_name (c ∷ cs) = not (has_equals (c ∷ cs))

-- Whether an entry is that of a name.
abbrev pub named : Bytes → Bytes → Bool
named [] [] = false
named [] (c ∷ cs) = c == equals
named (x ∷ name) [] = false
named (x ∷ name) (c ∷ cs) = x == c && named name cs

abbrev pub pair : Bytes → Bytes → Bytes
pair name value = name ++ equals ∷ value

abbrev pub has_entry : Bytes → List Bytes → Bool
has_entry name [] = false
has_entry name (e ∷ es) = named name e || has_entry name es

-- The environment after a setenv that succeeds: the first entry of the name is replaced if
-- `overwrite` says so, and a new one goes to the end.
abbrev pub set_entry : Bytes → Bytes → Bool → List Bytes → List Bytes
set_entry name value overwrite [] = pair name value ∷ []
set_entry name value overwrite (e ∷ es) =
    let rest = set_entry name value overwrite es in
    if named name e then (if overwrite then pair name value else e) ∷ es else e ∷ rest

-- unsetenv removes every entry of the name.
abbrev pub remove_entries : Bytes → List Bytes → List Bytes
remove_entries name [] = []
remove_entries name (e ∷ es) =
    let rest = remove_entries name es in if named name e then rest else e ∷ rest

abbrev pub print : Line → Proc (Unit {0})
print l s = (done tt, record s { out = s.out ++ l ∷ [] })

-- Both loops over `environ`.
abbrev pub print_entries : List Bytes → Proc (Unit {0})
print_entries [] s = (done tt, s)
print_entries (e ∷ es) s = print_entries es (record s { out = s.out ++ entry e ∷ [] })

abbrev pub print_environ : Proc (Unit {0})
print_environ s = print_entries s.environ s

-- setenv, and the return of `errno` if it fails.
abbrev pub setenv : Bytes → Bytes → Bool → Proc (Unit {0})
setenv name value overwrite s =
    if is_name name
    then if s.room || has_entry name s.environ && not overwrite
      then (done tt, record s { environ = set_entry name value overwrite s.environ })
      else (exited enomem, s)
    else (exited einval, s)

abbrev pub unsetenv : Bytes → Proc (Unit {0})
unsetenv name s =
    if is_name name
    then (done tt, record s { environ = remove_entries name s.environ })
    else (exited einval, s)

-- "Y" and "N".
abbrev pub yes : Bytes
yes = 89 ∷ []

abbrev pub no : Bytes
no = 78 ∷ []

abbrev pub refuse : {A : Type 0} → Proc A
refuse = do print usage; exit 0

-- The third argument as the variable `rewrite`.
abbrev pub rewrite_flag : Bytes → Proc Bool
rewrite_flag flag =
    if bytes_eqb flag yes then pure true else if bytes_eqb flag no then pure false else refuse

-- main of print_env_var.c on its arguments behind the program's name.
abbrev pub print_env_var : List Bytes → Proc (Unit {0})
print_env_var (name ∷ value ∷ flag ∷ []) = do
  overwrite ← rewrite_flag flag
  print_environ
  setenv name value overwrite
  print_environ
  exit 0
print_env_var _ = refuse

-- main of remove_env_var.c.
abbrev pub remove_env_var : List Bytes → Proc (Unit {0})
remove_env_var (name ∷ []) = do print_environ; unsetenv name; print_environ; exit 0
remove_env_var _ = refuse
