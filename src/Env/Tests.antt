-- ===== src/Env/Tests.antt =====
-- The theorems on the environment at A=1 and B=2, a byte for each character.
use aup_assignments.Prelude.{
  ◌≡◌, ◌≢◌, refl, true, false, not, ◌&&◌, some, List, [], ◌∷◌, ◌++◌, map, arith, if◌then◌else◌,
}
use aup_assignments.Unix.Bytes.{Bytes}
use aup_assignments.Unix.Proc.{exited}
use aup_assignments.Env.{usage, entry, State, has_entry, print_env_var}
use aup_assignments.Env.Lookup.{getenv}
use aup_assignments.Env.Results.{flag_of, sets_variable}

abbrev name_a : Bytes
name_a = 65 ∷ []

abbrev name_b : Bytes
name_b = 66 ∷ []

abbrev name_c : Bytes
name_c = 67 ∷ []

abbrev seven : Bytes
seven = 55 ∷ []

abbrev two_entries : List Bytes
two_entries = (65 ∷ 61 ∷ 49 ∷ []) ∷ (66 ∷ 61 ∷ 50 ∷ []) ∷ []

abbrev start : State
start = record { environ = two_entries; out = []; room = true }

b_is_not_a : name_b ≢ name_a
b_is_not_a h = ground arith

-- A third argument that is neither Y nor N.
flag_refused :
    print_env_var (name_a ∷ seven ∷ seven ∷ []) start
    ≡ (exited 0, record start { out = usage ∷ [] })
flag_refused = refl

new_variable :
    (print_env_var (name_c ∷ seven ∷ flag_of false ∷ []) start).1.environ
    ≡ two_entries ++ (67 ∷ 61 ∷ 55 ∷ []) ∷ []
new_variable = refl

sets_variable_example :
    let r = print_env_var (name_a ∷ seven ∷ flag_of true ∷ []) start in
    (r.0 ≡ exited 0)
    × (r.1.out ≡ (start.out ++ map entry start.environ) ++ map entry r.1.environ)
    × (getenv name_a r.1.environ ≡ (
        if has_entry name_a start.environ && not true
        then getenv name_a start.environ
        else some seven))
    × (getenv name_b r.1.environ ≡ getenv name_b start.environ)
sets_variable_example = sets_variable name_a seven name_b true start refl refl refl b_is_not_a
