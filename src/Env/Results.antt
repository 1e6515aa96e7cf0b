-- ===== src/Env/Results.antt =====
-- What print_env_var and remove_env_var print, and the environment they leave.
use aup_assignments.Prelude.{
  ◌≡◌, ◌≢◌, refl, ◌∙◌, Bool, true, false, not, ◌&&◌, none, some, List, [], ◌∷◌, ◌++◌, map,
  append_assoc, append-nil, if◌then◌else◌,
}
use aup_assignments.Unix.Bytes.{Bytes}
use aup_assignments.Unix.Proc.{done, exited}
use aup_assignments.Env.{
  entry, State, is_name, has_equals, has_entry, set_entry, remove_entries, print_entries, yes, no,
  einval, print_env_var, remove_env_var,
}
use aup_assignments.Env.Names.{is_name-has_equals}
use aup_assignments.Env.Lookup.{
  getenv, getenv-set_entry, getenv-set_entry_other, getenv-remove_entries,
  getenv-remove_entries_other,
}

print_entries_lem :
    (es : List Bytes) (s : State)
    → print_entries es s ≡ (done tt, record s { out = s.out ++ map entry es })
print_entries_lem [] s = rw (append-nil s.out) refl
print_entries_lem (e ∷ es) s =
    print_entries_lem es (record s { out = s.out ++ entry e ∷ [] })
    ∙ rw (append_assoc s.out (entry e ∷ []) (map entry es)) refl

-- The argument for `rewrite`.
abbrev pub flag_of : Bool → Bytes
flag_of b = if b then yes else no

print_env_var_run :
    (name value : Bytes) (b : Bool) (s : State)
    → is_name name ≡ true
    → s.room ≡ true
    → print_env_var (name ∷ value ∷ flag_of b ∷ []) s ≡ (
      exited 0,
      record s {
        environ = set_entry name value b s.environ;
        out = (s.out ++ map entry s.environ) ++ map entry (set_entry name value b s.environ);
      },
    )
print_env_var_run name value true s h r =
    rw
      (print_entries_lem s.environ s, h, r, print_entries_lem (set_entry name value true s.environ))
      refl
print_env_var_run name value false s h r =
    rw
      (
        print_entries_lem s.environ s,
        h,
        r,
        print_entries_lem (set_entry name value false s.environ),
      )
      refl

remove_env_var_run :
    (name : Bytes) (s : State)
    → is_name name ≡ true
    → remove_env_var (name ∷ []) s ≡ (
      exited 0,
      record s {
        environ = remove_entries name s.environ;
        out = (s.out ++ map entry s.environ) ++ map entry (remove_entries name s.environ);
      },
    )
remove_env_var_run name s h =
    rw (print_entries_lem s.environ s, h, print_entries_lem (remove_entries name s.environ)) refl

-- With a name that setenv takes, with Y or N as its third argument, and with memory left,
-- print_env_var lists the environment before and after setenv and exits with 0. The variable then has
-- the given value, but for N and a name that was in the environment before, which keeps its value; and
-- any other variable keeps its value.
pub sets_variable :
    (name value other : Bytes) (b : Bool) (s : State)
    → is_name name ≡ true
    → s.room ≡ true
    → has_equals other ≡ false
    → other ≢ name
    → let r = print_env_var (name ∷ value ∷ flag_of b ∷ []) s in
      (r.0 ≡ exited 0)
      × (r.1.out ≡ (s.out ++ map entry s.environ) ++ map entry r.1.environ)
      × (getenv name r.1.environ
          ≡ (if has_entry name s.environ && not b then getenv name s.environ else some value))
      × (getenv other r.1.environ ≡ getenv other s.environ)
sets_variable name value other b s h room ho d = rw (print_env_var_run name value b s h room) (
  refl,
  refl,
  getenv-set_entry name value b s.environ,
  getenv-set_entry_other name value other b s.environ (is_name-has_equals name h) ho d,
)

-- With a name that unsetenv takes, remove_env_var lists the environment before and after unsetenv and
-- exits with 0. The variable is then not in the environment, also if it had several entries, and any
-- other variable keeps its value.
removes_variable :
    (name other : Bytes) (s : State)
    → is_name name ≡ true
    → has_equals other ≡ false
    → other ≢ name
    → let r = remove_env_var (name ∷ []) s in
      (r.0 ≡ exited 0)
      × (r.1.out ≡ (s.out ++ map entry s.environ) ++ map entry r.1.environ)
      × (getenv name r.1.environ ≡ none)
      × (getenv other r.1.environ ≡ getenv other s.environ)
removes_variable name other s h ho d = rw (remove_env_var_run name s h) (
  refl,
  refl,
  getenv-remove_entries name s.environ,
  getenv-remove_entries_other name other s.environ (is_name-has_equals name h) ho d,
)

-- With an empty name or one that has an equals sign in it, both programs list the environment once,
-- leave it as it is, and exit with EINVAL.
invalid_name :
    (name value : Bytes) (b : Bool) (s : State)
    → is_name name ≡ false
    → let t = record s { out = s.out ++ map entry s.environ } in
      (print_env_var (name ∷ value ∷ flag_of b ∷ []) s ≡ (exited einval, t))
      × (remove_env_var (name ∷ []) s ≡ (exited einval, t))
invalid_name name value true s h =
    (rw (print_entries_lem s.environ s, h) refl, rw (print_entries_lem s.environ s, h) refl)
invalid_name name value false s h =
    (rw (print_entries_lem s.environ s, h) refl, rw (print_entries_lem s.environ s, h) refl)
